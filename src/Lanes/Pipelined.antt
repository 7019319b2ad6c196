-- ===== src/Lanes/Pipelined.antt =====
-- The pipelined paths of core/runtime/_lanes/_batch.py: batches that a stage works on at once, and
-- that are committed in the order in which they came. The two paths run the same loops, on entries of
-- their own (Lanes/Stages.antt). An entry's future is done or not by the calls made so far. Cancelling what is left
-- changes nothing that delivery reads, and the gauges of the stage are left out.
pub mod Order
pub mod Room
pub mod Commits
use agora_etl.Prelude.{
  ℕ, zero, suc, max, Bool, true, false, Option, none, some, List, [], ◌∷◌, ◌++◌, length, ltb,
  if◌then◌else◌,
}
use agora_etl.Failures.{
  Exc, raised, fence_lost_error, runtime_error, value_error, record_delivery_error,
  checkpoint_save_error, Result, ok, err,
}
use agora_etl.Delivery.Types.{Value, CheckpointValue, BatchFailure}
use agora_etl.Delivery.World.{World, History, Engine}
use agora_etl.Delivery.Exec.{Exec, pure, raise, attempt, gets, skip, ◌>>=◌, ◌>>◌}
use agora_etl.Middleware.{
  Middleware, BatchResult, batch_results, batch_failure, process_batch_range,
}
use agora_etl.Lanes.Arrow.{
  ArrowWriter, ArrowMiddleware, ArrowResult, out_batch, arrow_failure, process_arrow_batch_range,
  finalize_arrow_batch_result,
}
use agora_etl.Lanes.Batches.{present, finalize_list_batch_result}

-- What a loop ends with: how it ended, and the entries that are still pending.
abbrev pub Left : Type 0 → Type 0
Left E = Result (Unit {0}) × List E

-- The exceptions on which the pending batches are cancelled. `CancelledError` and
-- `KeyboardInterrupt` are not exceptions of the model.
abbrev pub is_fatal : Exc → Bool
is_fatal (record_delivery_error e) = true
is_fatal (checkpoint_save_error e) = true
is_fatal (raised r) = false
is_fatal fence_lost_error = false
is_fatal (runtime_error s) = false
is_fatal (value_error s) = false

abbrev pub answered : Option Exc → Result (Unit {0})
answered none = ok tt
answered (some e) = err e

-- What the loops use of the batch lane: committing an entry, `future.done()`, what
-- `drain_pipelined_batches` answers and the limit on the entries in flight.
pub record Pipeline (E : Type 0) : Type 0 where
  pub resolve : E → Exec (Unit {0})
  pub done : History → E → Bool
  pub drain : History → Option Exc
  pub stage_limit : ℕ

-- `stage_limit` of the lane
abbrev pub limit_of : ℕ → Option ℕ → ℕ
limit_of max_in_flight none = max 1 max_in_flight
limit_of max_in_flight (some size) = max 1 (if ltb size max_in_flight then size else max_in_flight)

module _ {E : Type 0} where
  -- What follows where nothing was raised.
  abbrev pub if_ok : Left E → (List E → Exec (Left E)) → Exec (Left E)
  if_ok (ok _, rest) next = next rest
  if_ok (err e, rest) next = pure (err e, rest)

  abbrev pub push : List E → Option E → List E
  push es none = es
  push es (some e) = es ++ e ∷ []

module _ {E : Type 0} (p : Pipeline E) where
  -- An entry is popped before it is resolved.
  unfoldable pub commit_next : List E → Exec (Left E)
  commit_next [] = pure (ok tt, [])
  commit_next (e ∷ es) = do answer ← attempt (p.resolve e); pure (answer, es)

  unfoldable pub drain_ready : List E → Exec (Left E)
  drain_ready [] = pure (ok tt, [])
  drain_ready (e ∷ es) = do
    ready ← gets (λ w. p.done w.log e)
    if ready
        then (do answer ← attempt (p.resolve e); if_ok (answer, es) (λ rest. drain_ready es))
        else pure (ok tt, e ∷ es)

  -- `while len(pending_batches) >= stage_limit`. Each round commits an entry, so as many rounds as
  -- there are entries are enough.
  unfoldable pub make_room : ℕ → List E → Exec (Left E)
  make_room zero es = pure (ok tt, es)
  make_room (suc n) es = if ltb (length es) p.stage_limit then pure (ok tt, es) else (do
    left ← drain_ready es
    if_ok left λ rest.
        if ltb (length rest) p.stage_limit
        then pure (ok tt, rest)
        else (do next ← commit_next rest; if_ok next (make_room n)))

  -- The loop over the source. `arrive` gives the entry that it submitted, if any. An exception
  -- leaves the entries that were pending.
  abbrev pub arrived : List E → Result (Option E) → Left E
  arrived es (err x) = (err x, es)
  arrived es (ok e) = (ok tt, push es e)

  unfoldable pub feed :
      {B : Type 0} → (B → Exec (Option E)) → List E → List B → Option Exc → Exec (Left E)
  feed arrive es [] end = pure (answered end, es)
  feed arrive es (b ∷ bs) end = do
    submitted ← attempt (arrive b)
    left ← if_ok (arrived es submitted) (λ now. make_room (length now) now)
    if_ok left (λ rest. feed arrive rest bs end)

  -- `while pending_batches`, with the same bound on its rounds.
  unfoldable pub drain_all : ℕ → List E → Exec (Left E)
  drain_all zero es = pure (ok tt, es)
  drain_all (suc n) [] = pure (ok tt, [])
  drain_all (suc n) (e ∷ es) = do
    answer ← gets (λ w. answered (p.drain w.log))
    if_ok (answer, e ∷ es)
        λ now. (do
          left ← drain_ready now
          if_ok left (λ rest. (do next ← commit_next rest; if_ok next (drain_all n))))

  abbrev pub raise_error : Left E → Exec (Unit {0})
  raise_error (ok _, rest) = skip
  raise_error (err e, rest) = raise e

  abbrev pub drain_pending : List E → Exec (Unit {0})
  drain_pending es = do left ← drain_all (length es) es; raise_error left

  abbrev pub after_source : Left E → Exec (Unit {0})
  after_source (ok _, rest) = drain_pending rest
  after_source (err e, rest) = if is_fatal e then raise e else (do drain_pending rest; raise e)

  unfoldable pub run_pipelined :
      {B : Type 0} → (B → Exec (Option E)) → List B → Option Exc → Exec (Unit {0})
  run_pipelined arrive batches end = do left ← feed arrive [] batches end; after_source left
