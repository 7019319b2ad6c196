-- ===== src/Delivery/Gate/Outcomes.antt =====
-- What an outcome of `resolve_write_result` says of its record under FAIL_CLOSED.
use agora_etl.Prelude.{Bool, true, false, some, List, [], ◌∷◌, ◌≡◌, refl, ap, ◌∙◌, if◌then◌else◌}
use agora_etl.Failures.{Exc, ok, err}
use agora_etl.Delivery.Types.{
  Value, CheckpointValue, Callback, SinkFailurePolicy, WriteResult, CommitOutcome, written, dropped,
  errored_routed, errored_unrouted,
}
use agora_etl.Delivery.World.{World, Event, record_sent, Engine}
use agora_etl.Delivery.Exec.{pure, skip, ◌>>=◌, ◌>>◌}
use agora_etl.Delivery.Calls.{on_metrics, success_hook_for}
use agora_etl.Delivery.Results.{
  count_written, count_dropped, count_errored, errored_outcome, resolve_errors,
  resolve_write_result, resolve,
}
use agora_etl.Delivery.Trace.{Emits_same, Emits-trans}
use agora_etl.Delivery.Trace.Actions.{Steps-success_hook_for}
use agora_etl.Delivery.Gate.{
  Quiet, Shows, Shows-then, Shows-after, Ended, Ensures-bind, bind_ends, Ensures-Quiet,
}
use agora_etl.Delivery.Gate.Answers.{IsAnswer, IsRouted, Sent, Ensures_back}
use agora_etl.Delivery.Gate.Routing.{
  Handles, Shows-mono, routed-Handles, original, route_errors-Ensures,
}

module _ (g : Engine) (raw v : Value) where
  abbrev pub Handled : World → World → Type 0
  Handled = Shows (Handles v (original g raw v))

  -- What an outcome says of its record, where the sink policy is FAIL_CLOSED.
  abbrev pub Settled : CommitOutcome → World → World → Type 0
  Settled (written c h) u w = Handled u w
  Settled (dropped c h) u w = Handled u w
  Settled (errored_routed c h) u w = Handled u w
  Settled (errored_unrouted e) u w = Quiet u w

  Settled-back : (o : CommitOutcome) (u m w : World) → Quiet u m → Settled o m w → Settled o u w
  Settled-back (written c h) u m w q s = Shows-after q s
  Settled-back (dropped c h) u m w q s = Shows-after q s
  Settled-back (errored_routed c h) u m w q s = Shows-after q s
  Settled-back (errored_unrouted e) u m w q s = Emits-trans q s

  tail-Settled :
      (all b : Bool) (r : WriteResult) (e : Exc) (c : CheckpointValue) (h : Callback) (u m : World)
      → g.sink_failure_policy ≡ SinkFailurePolicy.fail_closed
      → Sent (IsRouted (original g raw v)) all u m
      → Ended Settled u
          ((do
            on_metrics count_errored
            if b then on_metrics count_written else skip
            pure (errored_outcome g all r e c h))
            m).0
          ((do
            on_metrics count_errored
            if b then on_metrics count_written else skip
            pure (errored_outcome g all r e c h))
            m).1
  unfolding ◌>>=◌
  tail-Settled true true r e c h u m closed s =
      Shows-then (Shows-mono (routed-Handles v (original g raw v)) s) (Emits_same refl)
  tail-Settled true false r e c h u m closed s =
      Shows-then (Shows-mono (routed-Handles v (original g raw v)) s) (Emits_same refl)
  tail-Settled false true r e c h u m closed q = rw closed (Emits-trans q (Emits_same refl))
  tail-Settled false false r e c h u m closed q = rw closed (Emits-trans q (Emits_same refl))

  done-Settled :
      (b : Bool) (r : WriteResult) (c : CheckpointValue) (h : Callback) (u m : World)
      → Handled u m
      → Ended Settled u
          ((if b
              then (do on_metrics count_written; pure (written c h))
              else (do on_metrics count_dropped; pure (dropped c h)))
            m).0
          ((if b
              then (do on_metrics count_written; pure (written c h))
              else (do on_metrics count_dropped; pure (dropped c h)))
            m).1
  unfolding ◌>>=◌
  done-Settled true r c h u m s = Shows-then s (Emits_same refl)
  done-Settled false r c h u m s = Shows-then s (Emits_same refl)

  answer-Handles :
      (r : WriteResult) (e : Event)
      → r.errors ≡ []
      → IsAnswer v r e
      → Handles v (original g raw v) e
  answer-Handles r (record_sent u (ok s)) h p = (p.0, ap (λ (x : WriteResult). x.errors) p.1 ∙ h)
  answer-Handles r (record_sent u (err x)) h p = elim p [ ]
  answer-Handles r _ h p = elim p [ ]

  resolve_errors-Settled :
      (es : List Exc) (r : WriteResult) (c : CheckpointValue) (h : Callback) (u m : World)
      → g.sink_failure_policy ≡ SinkFailurePolicy.fail_closed
      → r.errors ≡ es
      → Shows (IsAnswer v r) u m
      → Ended Settled u (resolve_errors g es r raw v c h m).0 (resolve_errors g es r raw v c h m).1
  resolve_errors-Settled [] r c h u m closed same s =
      done-Settled r.written r c h u m (Shows-mono (λ e. answer-Handles r e same) s)
  resolve_errors-Settled (e ∷ es) r c h u m closed same s =
      Ensures_back (resolve_errors g (e ∷ es) r raw v c h) Settled Settled-back
        (Ensures-bind _ _ (Sent (IsRouted (original g raw v))) _
          ((route_errors-Ensures g raw v) c e es)
          (λ all u' m'. tail-Settled all r.written r e c h u' m' closed) (λ x u' w q. q))
        u m s.quiet

  pub resolve-Settled :
      (r : WriteResult) (c : CheckpointValue) (h : Callback) (u m : World)
      → g.sink_failure_policy ≡ SinkFailurePolicy.fail_closed
      → Shows (IsAnswer v r) u m
      → Ended Settled u (resolve g r raw v c h m).0 (resolve g r raw v c h m).1
  unfolding resolve resolve_write_result
  resolve-Settled r c h u m closed s =
      bind_ends (success_hook_for raw (some v) h) _ (λ a m' w. Quiet m' w)
        (λ x w. Ended Settled u x w) m
        ((Ensures-Quiet _ (Steps-success_hook_for raw (some v) h)).at m)
        (λ hook w q. resolve_errors-Settled r.errors r c hook u w closed refl (Shows-then s q))
        (λ e w q. Emits-trans s.quiet q)
