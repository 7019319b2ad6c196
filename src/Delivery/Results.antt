-- ===== src/Delivery/Results.antt =====
-- core/runtime/_delivery_results.py: from a writer's answer to an outcome, and its side effects.
use agora_etl.Prelude.{
  ℕ, ◌+◌, Bool, true, ◌&&◌, ◌||◌, none, some, List, [], ◌∷◌, ◌==◌, if◌then◌else◌,
}
use agora_etl.Failures.{Exc, runtime_error, record_delivery_error}
use agora_etl.Delivery.Types.{
  Value, CheckpointValue, Callback, is_log_and_continue, is_fail_closed, WriteResult, CommitOutcome,
  written, dropped, errored_routed, errored_unrouted,
}
use agora_etl.Delivery.World.{Metrics, Engine}
use agora_etl.Delivery.Exec.{Exec, pure, raise, skip, ◌>>=◌, ◌>>◌}
use agora_etl.Delivery.Calls.{on_metrics, success_hook_for, run_callback}
use agora_etl.Delivery.Checkpoints.{save}
use agora_etl.Delivery.Dlq.{DlqRequest, write_to_dlq}

abbrev pub count_written : Metrics → Metrics
count_written m = record m { records_written = m.records_written + 1 }

abbrev pub count_dropped : Metrics → Metrics
count_dropped m = record m { records_dropped = m.records_dropped + 1 }

abbrev pub count_errored : Metrics → Metrics
count_errored m = record m { records_errored = m.records_errored + 1 }

-- The request of a failed sink write, for a record and what the middlewares made of it.
abbrev pub sink_request : Exc → Value → Value → CheckpointValue → DlqRequest
sink_request e raw processed c = record {
  stage = "sink_write";
  exception = e;
  body = some raw;
  original_record = some raw;
  processed_record = some processed;
  source = none;
  checkpoint = c;
  middleware = none;
}

module _ (g : Engine) where
  -- `for err in write_result.errors`, with the value of `routed_all`
  unfoldable pub route_errors : Value → Value → CheckpointValue → Bool → List Exc → Exec Bool
  route_errors raw processed c all [] = pure all
  route_errors raw processed c all (e ∷ es) = do
    routed ← write_to_dlq g (sink_request e raw processed c)
    route_errors raw processed c (all && routed) es

  abbrev pub errored_outcome : Bool → WriteResult → Exc → CheckpointValue → Callback → CommitOutcome
  errored_outcome all r e c hook =
      if all || is_log_and_continue g.sink_failure_policy
      then errored_routed c (if r.written || all then hook else none)
      else errored_unrouted e

  abbrev pub resolve_errors :
      List Exc → WriteResult → Value → Value → CheckpointValue → Callback → Exec CommitOutcome
  resolve_errors [] r raw processed c hook =
      if r.written
      then (do on_metrics count_written; pure (written c hook))
      else (do on_metrics count_dropped; pure (dropped c hook))
  resolve_errors (e ∷ es) r raw processed c hook = do
    all ← route_errors raw processed c true (e ∷ es)
    on_metrics count_errored
    if r.written then on_metrics count_written else skip
    pure (errored_outcome all r e c hook)

  unfoldable pub resolve_write_result :
      WriteResult → Value → Value → CheckpointValue → Callback → Exec CommitOutcome
  resolve_write_result r = resolve_errors r.errors r

  -- `DeliveryEngine._resolve_write_result`
  unfoldable pub resolve :
      WriteResult → Value → Value → CheckpointValue → Callback → Exec CommitOutcome
  resolve r raw processed c on_success = do
    hook ← success_hook_for raw (some processed) on_success
    resolve_write_result r raw processed c hook

  abbrev pub acknowledge : CheckpointValue → Callback → Exec (Unit {0})
  acknowledge c hook = do save g c; run_callback g hook

  unfoldable pub commit_outcome : CommitOutcome → Exec (Unit {0})
  commit_outcome (written c hook) = acknowledge c hook
  commit_outcome (dropped c hook) = acknowledge c hook
  commit_outcome (errored_routed c hook) = acknowledge c hook
  commit_outcome (errored_unrouted e) =
      if is_fail_closed g.sink_failure_policy then raise (record_delivery_error e) else skip

unfoldable pub validate_write_result_count : ℕ → ℕ → Exec (Unit {0})
validate_write_result_count expected actual =
    if actual == expected
    then skip
    else raise (runtime_error "Writer.write_batch() must return one WriteResult per input record.")
