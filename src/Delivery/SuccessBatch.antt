-- ===== src/Delivery/SuccessBatch.antt =====
-- The short cut of `_flush_pending_writes_once` for a batch that the writer took without an error,
-- against the resolution of each answer.
use agora_etl.Prelude.{
  ℕ, suc, ◌+◌, true, none, some, List, [], ◌∷◌, ◌++◌, map, length, ◌≡◌, refl, sym, ap, ◌∙◌, arith,
}
use mathlib.Core.List.{append-nil}
use mathlib.Core.Path.{subst}
use agora_etl.Failures.{Exc, ok}
use agora_etl.Delivery.Types.{
  Callback, WriteResult, write_ok, no_errors, PendingWrite, CommitOutcome, written,
}
use agora_etl.Delivery.World.{World, Engine}
use agora_etl.Delivery.Exec.{bind_then, pure, ◌>>=◌}
use agora_etl.Delivery.Calls.{callback, given, success_hook_for, pop_success_hooks}
use agora_etl.Delivery.Checkpoints.{prepare}
use agora_etl.Delivery.Results.{resolve, resolve_write_result, resolve_errors}
use agora_etl.Delivery.Batching.{
  Gathered, nothing, with_checkpoint, with_callback, apply_gathered, commit_from, commit_outcomes,
}
use agora_etl.Delivery.Engine.{
  all_ok, gather_successes, commit_pending_write_success_batch, resolve_all,
}

-- What a success resolves to where no middleware registered a hook.
abbrev written_outcome : PendingWrite → CommitOutcome
written_outcome p = written p.checkpoint (callback (given p.on_success ++ []))

-- No success hook is registered, as after every queued record's hooks were taken.
abbrev clean : World → World
clean w = record w { success_hooks = [] }

abbrev counted_written : ℕ → World → World
counted_written n w = record w {
  metrics = record w.metrics { records_written = w.metrics.records_written + n };
}

with_callback-callback :
    (h : Callback) (a : Gathered) → with_callback (callback (given h ++ [])) a ≡ with_callback h a
with_callback-callback none a = refl
with_callback-callback (some []) a = ap (λ hs. record a { hooks = hs }) (sym (append-nil a.hooks))
with_callback-callback (some (x ∷ xs)) a =
    ap (λ hs. record a { hooks = a.hooks ++ x ∷ hs }) (append-nil xs)

counted_twice :
    (n : ℕ) (w : World)
    → clean (counted_written n (counted_written 1 w)) ≡ clean (counted_written (suc n) w)
counted_twice n w =
    ap (λ k. clean (record w { metrics = record w.metrics { records_written = k } })) (omega arith)

module _ (g : Engine) where
  commit_from-map :
      (batch : List PendingWrite) (a : Gathered) (w : World)
      → commit_from g a (map written_outcome batch) w
        ≡ (gather_successes g a batch >>= apply_gathered g) w
  unfolding commit_from gather_successes ◌>>=◌
  commit_from-map [] a w = refl
  commit_from-map (p ∷ ps) a w = bind_then (prepare g p.checkpoint) _ _ _ w λ k w'.
      ap (λ b. commit_from g b (map written_outcome ps) w')
        (with_callback-callback p.on_success (with_checkpoint k a))
      ∙ commit_from-map ps (with_callback p.on_success (with_checkpoint k a)) w'

  resolve_errors_ok :
      (es : List Exc) (r : WriteResult) (p : PendingWrite) (w : World)
      → r.written ≡ true
      → no_errors es ≡ true
      → resolve_errors g es r p.raw p.processed p.checkpoint
          (callback (given p.on_success ++ []))
          (clean w)
        ≡ (ok (written_outcome p), clean (counted_written 1 w))
  unfolding ◌>>=◌
  resolve_errors_ok [] r p w h k = simp h refl
  resolve_errors_ok (e ∷ es) r p w h k = ground arith

  resolve_ok :
      (r : WriteResult) (p : PendingWrite) (w : World)
      → write_ok r ≡ true
      → resolve g r p.raw p.processed p.checkpoint p.on_success (clean w)
        ≡ (ok (written_outcome p), clean (counted_written 1 w))
  unfolding resolve resolve_write_result success_hook_for pop_success_hooks write_ok ◌>>=◌
  resolve_ok r p w h = resolve_errors_ok r.errors r p w (ground (arith, h)) (ground (arith, h))

  resolve_all_ok :
      (batch : List PendingWrite) (rs : List WriteResult) (w : World)
      → length rs ≡ length batch
      → all_ok rs ≡ true
      → resolve_all g batch rs (clean w)
        ≡ (ok (map written_outcome batch), clean (counted_written (length batch) w))
  unfolding resolve_all ◌>>=◌ pure
  resolve_all_ok [] [] w same h =
      ap (λ k. (ok [], clean (record w { metrics = record w.metrics { records_written = k } })))
        (omega arith)
  resolve_all_ok [] (r ∷ rs) w same h = ground arith
  resolve_all_ok (p ∷ ps) [] w same h = ground arith
  resolve_all_ok (p ∷ ps) (r ∷ rs) w same h =
      simp
        (
          resolve_ok r p w (ground (arith, h)),
          resolve_all_ok ps rs (counted_written 1 w) (omega (arith, same)) (ground (arith, h)),
        )
        (ap (λ u. (ok (written_outcome p ∷ map written_outcome ps), u))
          (counted_twice (length ps) w))

  success_batch_clean :
      (batch : List PendingWrite) (rs : List WriteResult) (w : World)
      → length rs ≡ length batch
      → all_ok rs ≡ true
      → commit_pending_write_success_batch g batch (clean w)
        ≡ (resolve_all g batch rs >>= commit_outcomes g) (clean w)
  unfolding commit_pending_write_success_batch commit_outcomes ◌>>=◌
  success_batch_clean batch rs w same h =
      simp (resolve_all_ok batch rs w same h)
        (sym (commit_from-map batch nothing (clean (counted_written (length batch) w))))

  -- Where no middleware registered a success hook and the writer took every record of a batch without
  -- an error, one answer for each record, the short cut does what resolving each answer and committing
  -- the outcomes does: the same calls in the same order, the same counts and state, the same result.
  pub commit_pending_write_success_batch_general :
      (batch : List PendingWrite) (rs : List WriteResult) (w : World)
      → w.success_hooks ≡ []
      → length rs ≡ length batch
      → all_ok rs ≡ true
      → commit_pending_write_success_batch g batch w
        ≡ (resolve_all g batch rs >>= commit_outcomes g) w
  commit_pending_write_success_batch_general batch rs w none_left same h =
      subst
        (λ u.
          commit_pending_write_success_batch g batch u
          ≡ (resolve_all g batch rs >>= commit_outcomes g) u)
        (ap (λ hs. record w { success_hooks = hs }) (sym none_left))
        (success_batch_clean batch rs w same h)
