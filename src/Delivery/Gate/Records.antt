-- ===== src/Delivery/Gate/Records.antt =====
-- The commit gate of a single record: `write_processed_record`.
use agora_etl.Prelude.{Bool, true, false, Option, some, [], ◌∷◌, ◌≡◌, refl, ◌⊎◌, inl, inr}
use agora_etl.Failures.{Exc, fence_lost_error, record_delivery_error, Result, ok, err}
use agora_etl.Delivery.Types.{
  Value, CheckpointValue, Callback, SinkFailurePolicy, WriteResult, CommitOutcome, written, dropped,
  errored_routed, errored_unrouted, MiddlewareFailure,
}
use agora_etl.Delivery.World.{World, Event, Engine}
use agora_etl.Delivery.Exec.{Exec, raise, attempt, resume, ◌>>=◌, ◌>>◌}
use agora_etl.Delivery.Calls.{on_metrics, write_one, discard_success_hooks}
use agora_etl.Delivery.Dlq.{write_to_dlq}
use agora_etl.Delivery.Results.{sink_request, count_errored, resolve, acknowledge, commit_outcome}
use agora_etl.Delivery.Engine.{after_dlq, write_failed, settle_write, write_processed_record}
use agora_etl.Delivery.Trace.{Emits, Emits-trans, Steps, Steps-bind, Steps-on_metrics}
use agora_etl.Delivery.Trace.Actions.{
  Steps-success_hook_for, Steps-run_callback, Steps-discard_success_hooks,
}
use agora_etl.Delivery.Trace.Stores.{Steps-save}
use agora_etl.Delivery.Gate.{
  is_quiet, any_event, Quiet, Shows, Ended, bind_ends, Ensures-attempt, Ensures-Quiet,
}
use agora_etl.Delivery.Gate.Answers.{
  IsAnswer, IsRouted, Sent, Sent-back, write_one-Ensures, write_to_dlq-Ensures,
}
use agora_etl.Delivery.Gate.Routing.{Handles, Shows-mono, routed-Handles, original}
use agora_etl.Delivery.Gate.Outcomes.{Handled, Settled, resolve-Settled}

-- Quiet events with one that handles the record come first; after them come any.
pub record Committed (Q : Event → Type 0) (u w : World) : Type 0 where
  pub middle : World
  pub gate : Shows Q u middle
  pub after : Emits any_event middle w

pub record HasRaised (r : Result (Unit {0})) : Type 0 where
  pub exception : Exc
  pub is_err : r ≡ err exception

-- Handled before any checkpoint or success hook; or the run ends, with neither.
abbrev pub HandledFirst : (Event → Type 0) → World → Result (Unit {0}) → World → Type 0
HandledFirst Q u r w = Committed Q u w ⊎ (HasRaised r × Quiet u w)

module _ (g : Engine) (raw v : Value) where
  abbrev pub Verdict : World → Result (Unit {0}) → World → Type 0
  Verdict = HandledFirst (Handles v (original g raw v))

  Steps-acknowledge : (c : CheckpointValue) (h : Callback) → Steps any_event (acknowledge g c h)
  Steps-acknowledge c h =
      Steps-bind _ _ (Steps-save g (λ r. refl) (λ k r. refl) c)
        (λ _. Steps-run_callback g (λ k r. refl) h)

  committed :
      (n : Exec (Unit {0})) (u m : World)
      → Steps any_event n
      → (Handled g raw v) u m
      → Verdict u (n m).0 (n m).1
  committed n u m t s = inl (record { middle = m; gate = s; after = t.at m })

  commit_outcome-Verdict :
      (o : CommitOutcome) (u m : World)
      → g.sink_failure_policy ≡ SinkFailurePolicy.fail_closed
      → (Settled g raw v) o u m
      → Verdict u (commit_outcome g o m).0 (commit_outcome g o m).1
  unfolding commit_outcome raise
  commit_outcome-Verdict (written c h) u m closed s = committed _ u m (Steps-acknowledge c h) s
  commit_outcome-Verdict (dropped c h) u m closed s = committed _ u m (Steps-acknowledge c h) s
  commit_outcome-Verdict (errored_routed c h) u m closed s =
      committed _ u m (Steps-acknowledge c h) s
  commit_outcome-Verdict (errored_unrouted e) u m closed q =
      rw closed (inr (record { exception = record_delivery_error e; is_err = refl }, q))

  raised_after :
      {A : Type 0} (n : Exec A) (e : Exc) (u m : World)
      → Steps is_quiet n
      → Quiet u m
      → HasRaised ((n >> raise {A = Unit {0}} e) m).0 × Quiet u ((n >> raise {A = Unit {0}} e) m).1
  unfolding raise
  raised_after n e u m s q =
      bind_ends n (λ _. raise e) (λ a m' w. Quiet m' w) (λ x w. HasRaised x × Quiet u w) m
        ((Ensures-Quiet n s).at m)
        (λ a w k. (record { exception = e; is_err = refl }, Emits-trans q k))
        (λ d w k. (record { exception = d; is_err = refl }, Emits-trans q k))

  failed-Verdict :
      (routed : Bool) (e : Exc) (c : CheckpointValue) (h : Callback) (u m : World)
      → g.sink_failure_policy ≡ SinkFailurePolicy.fail_closed
      → Sent (IsRouted (original g raw v)) routed u m
      → Verdict u (after_dlq g routed e v raw c h m).0 (after_dlq g routed e v raw c h m).1
  failed-Verdict true e c h u m closed s =
      committed (after_dlq g true e v raw c h) u m
        (Steps-bind _ _ (Steps-on_metrics _) λ _.
          Steps-bind _ _ (Steps-save g (λ r. refl) (λ k r. refl) c) λ _.
            Steps-bind _ _ (Steps-success_hook_for raw (some v) h)
              (Steps-run_callback g (λ k r. refl)))
        (Shows-mono (routed-Handles v (original g raw v)) s)
  failed-Verdict false e c h u m closed q = simp closed (
      bind_ends (on_metrics count_errored) _ (λ a m' w. Quiet m' w) (λ x w. Verdict u x w) m
        ((Ensures-Quiet _ (Steps-on_metrics count_errored)).at m)
        (λ a w k. inr (
          raised_after (discard_success_hooks g (raw ∷ v ∷ [])) (record_delivery_error e) u w
            (Steps-discard_success_hooks g (λ d r. refl) (raw ∷ v ∷ [])) (Emits-trans q k)))
        (λ d w k. inr (record { exception = d; is_err = refl }, Emits-trans q k)))

  write_failed-Verdict :
      (e : Exc) (c : CheckpointValue) (h : Callback) (u m : World)
      → g.sink_failure_policy ≡ SinkFailurePolicy.fail_closed
      → Quiet u m
      → Verdict u (write_failed g e v raw c h m).0 (write_failed g e v raw c h m).1
  write_failed-Verdict e c h u m closed q =
      bind_ends (write_to_dlq g (sink_request e raw v c)) _ (Sent (IsRouted (original g raw v)))
        (λ x w. Verdict u x w) m ((write_to_dlq-Ensures g (sink_request e raw v c)).at m)
        (λ b w s. failed-Verdict b e c h u w closed (Sent-back g (original g raw v) b u m w q s))
        (λ d w k. inr (record { exception = d; is_err = refl }, Emits-trans q k))

  resolved_ends :
      (n : Exec CommitOutcome) (f : CommitOutcome → Exec (Unit {0})) (u m : World)
      → Ended (Settled g raw v) u (n m).0 (n m).1
      → ((o : CommitOutcome) (w : World) → (Settled g raw v) o u w → Verdict u (f o w).0 (f o w).1)
      → Verdict u ((n >>= f) m).0 ((n >>= f) m).1
  unfolding ◌>>=◌
  resolved_ends n f u m s k = resumed (n m).0 (n m).1 s
    where
      resumed :
          (r : Result CommitOutcome) (w : World)
          → Ended (Settled g raw v) u r w
          → Verdict u (resume r f w).0 (resume r f w).1
      resumed (ok o) w h = k o w h
      resumed (err e) w h = inr (record { exception = e; is_err = refl }, h)

  settle_write-Verdict :
      (r : Result WriteResult) (c : CheckpointValue) (h : Callback) (u m : World)
      → g.sink_failure_policy ≡ SinkFailurePolicy.fail_closed
      → Ended (λ x u' w. Shows (IsAnswer v x) u' w) u r m
      → Verdict u (settle_write g r v raw c h m).0 (settle_write g r v raw c h m).1
  unfolding raise
  settle_write-Verdict (ok r) c h u m closed s =
      resolved_ends (resolve g r raw v c h) (commit_outcome g) u m
        ((resolve-Settled g raw v) r c h u m closed s)
        (λ o w k. commit_outcome-Verdict o u w closed k)
  settle_write-Verdict (err fence_lost_error) c h u m closed q =
      inr (record { exception = fence_lost_error; is_err = refl }, q)
  settle_write-Verdict (err e) c h u m closed q = write_failed-Verdict e c h u m closed q

  -- For a value that the middlewares passed on, under FAIL_CLOSED, whatever the collaborators answer
  -- and from any state: either the writer answered for the value without an error (be it that it wrote
  -- nothing), or the DLQ took the record, before the first call of the checkpoint store and of a
  -- success hook; or the call raises and has made no such call.
  pub write_processed_record-Verdict :
      (c : CheckpointValue) (f : Option MiddlewareFailure) (h : Callback) (u : World)
      → g.sink_failure_policy ≡ SinkFailurePolicy.fail_closed
      → Verdict u
          (write_processed_record g (some v) raw c f h u).0
          (write_processed_record g (some v) raw c f h u).1
  unfolding write_processed_record
  write_processed_record-Verdict c f h u closed =
      bind_ends (attempt (write_one g v)) _
        (λ x m w. Ended (λ r u' w'. Shows (IsAnswer v r) u' w') m x w) (λ x w. Verdict u x w) u
        ((Ensures-attempt _ (λ r u' w'. Shows (IsAnswer v r) u' w') (write_one-Ensures g v)).at u)
        (λ x w s. settle_write-Verdict x c h u w closed s)
        (λ d w k. inr (record { exception = d; is_err = refl }, k))
