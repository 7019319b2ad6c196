-- ===== src/Lanes/Arrow.antt =====
-- The Arrow path of core/runtime/_lanes/_batch.py, `WriterTransport.write_arrow_batch` of
-- core/runtime/_writer_transport.py and `process_arrow_batch_range` of core/middleware/_chain.py. An
-- Arrow batch is the list of its rows. The hot counters are flushed at once, and the records consumed
-- are not counted.
use agora_etl.Prelude.{
  ℕ, ◌+◌, String, Bool, true, false, ◌&&◌, ◌||◌, Option, none, some, List, [], ◌∷◌, length,
  if◌then◌else◌,
}
use agora_etl.Failures.{Exc, runtime_error, value_error, record_delivery_error, Result, ok, err}
use agora_etl.Delivery.Types.{
  Value, CheckpointValue, is_log_and_continue, WriteResult, BatchFailure,
}
use agora_etl.Delivery.World.{History, arrow_sent, Engine}
use agora_etl.Delivery.Exec.{Exec, pure, raise, attempt, skip, perform, ◌>>=◌, ◌>>◌}
use agora_etl.Delivery.Calls.{
  on_metrics, assert_run_fence_active, record_flush_metrics, write_batch,
}
use agora_etl.Delivery.Checkpoints.{save_batch}
use agora_etl.Delivery.Dlq.{write_to_dlq}
use agora_etl.Delivery.Results.{sink_request}
use agora_etl.Delivery.Engine.{is_some}
use agora_etl.Delivery.BatchWrite.{count_batch_errored, route_batch_failure}
use agora_etl.Middleware.{on_middleware, count_in, count_out, count_errored}

-- `writer.write_arrow_batch`, where the writer is an Arrow-native sink
abbrev pub ArrowWriter : Type 0
ArrowWriter = Option (History → List Value → Result (Unit {0}))

-- `ArrowBatchMiddleware`
pub record ArrowMiddleware : Type 0 where
  pub name : String
  pub process : List Value → Exec (List Value)

-- `BatchProcessResult` with the one Arrow batch, or a failure.
pub data ArrowResult : Type 0 where
  out_batch : List Value → ArrowResult
  arrow_failure : BatchFailure → ArrowResult

-- The end of a round of the loop, for a batch that the stage was given; `rest` is what follows.
abbrev settle_arrow_stage :
    String → ℕ → (List Value → Exec ArrowResult) → Result (List Value) → Exec ArrowResult
settle_arrow_stage name size rest (err e) = do
  on_middleware name (count_errored size)
  pure (arrow_failure (record { exception = e; middleware = name }))
settle_arrow_stage name size rest (ok []) = do on_middleware name (count_out 0); pure (out_batch [])
settle_arrow_stage name size rest (ok (v ∷ vs)) = do
  on_middleware name (count_out (length (v ∷ vs)))
  rest (v ∷ vs)

unfoldable pub process_arrow_batch_range : List ArrowMiddleware → List Value → Exec ArrowResult
process_arrow_batch_range [] batch = pure (out_batch batch)
process_arrow_batch_range (m ∷ ms) batch = do
  on_middleware m.name (count_in (length batch))
  answer ← attempt (m.process batch)
  settle_arrow_stage m.name (length batch) (process_arrow_batch_range ms) answer

abbrev first_or : Option Exc → List Exc → Option Exc
first_or later [] = later
first_or later (e ∷ es) = some e

-- `next((error for result in results for error in result.errors), None)`
abbrev pub first_error : List WriteResult → Option Exc
first_error [] = none
first_error (r ∷ rs) = first_or (first_error rs) r.errors

abbrev pub all_written : List WriteResult → Bool
all_written [] = true
all_written (r ∷ rs) = r.written && all_written rs

abbrev pub check_rows : Option Exc → Bool → Exec (Unit {0})
check_rows (some e) complete = raise e
check_rows none true = skip
check_rows none false = raise (runtime_error "arrow batch fallback write did not write all records")

module _ (g : Engine) where
  -- `transport.write_arrow_batch`, or the fallback that writes the rows.
  unfoldable pub send_arrow : ArrowWriter → List Value → Exec (Unit {0})
  send_arrow none rows = do
    results ← write_batch g rows
    check_rows (first_error results) (all_written results)
  send_arrow (some write) rows = do
    assert_run_fence_active g
    perform (λ h. write h rows) (arrow_sent rows)
    record_flush_metrics g (length rows)

  abbrev pub count_rows_written : ℕ → Exec (Unit {0})
  count_rows_written n = on_metrics (λ m. record m { records_written = m.records_written + n })

  unfoldable pub route_rows : Exc → CheckpointValue → Bool → List Value → Exec Bool
  route_rows e c routed [] = pure routed
  route_rows e c routed (v ∷ vs) = do
    sent ← write_to_dlq g (sink_request e v v c)
    route_rows e c (routed && sent) vs

  -- Over `zip(raw_rows, processed_rows, strict=True)`, which raises at its end.
  unfoldable pub route_row_pairs :
      Exc → CheckpointValue → Bool → List Value → List Value → Exec Bool
  route_row_pairs e c routed [] [] = pure routed
  route_row_pairs e c routed (v ∷ vs) (r ∷ rs) = do
    sent ← write_to_dlq g (sink_request e v r c)
    route_row_pairs e c (routed && sent) vs rs
  route_row_pairs e c routed _ _ = raise (value_error "zip() arguments differ in length")

  -- `routed` starts as true, also where there is no DLQ to route to.
  abbrev routing : Exec Bool → Exec Bool
  routing route = if is_some g.dlq_sink then route else pure true

  abbrev stop_unless : Exc → Bool → Exec (Unit {0})
  stop_unless e routed =
      if routed || is_log_and_continue g.sink_failure_policy
      then skip
      else raise (record_delivery_error e)

  -- The `except Exception` of both write paths.
  abbrev pub settle_arrow_write : ℕ → (Exc → Exec Bool) → Result (Unit {0}) → Exec (Unit {0})
  settle_arrow_write size route (ok _) = skip
  settle_arrow_write size route (err e) = do
    count_batch_errored g size
    routed ← routing (route e)
    stop_unless e routed

  unfoldable pub write_passthrough_arrow_batch :
      ArrowWriter → List Value → CheckpointValue → Exec (Unit {0})
  write_passthrough_arrow_batch writer batch c = do
    answer ← attempt (send_arrow writer batch >> count_rows_written (length batch))
    settle_arrow_write (length batch) (λ e. route_rows e c true batch) answer
    save_batch g c (length batch)

  abbrev write_out_batch : ArrowWriter → List Value → List Value → CheckpointValue → Exec (Unit {0})
  write_out_batch writer [] raw_batch c = save_batch g c (length raw_batch)
  write_out_batch writer (v ∷ vs) raw_batch c = do
    answer ← attempt (send_arrow writer (v ∷ vs) >> count_rows_written (length (v ∷ vs)))
    settle_arrow_write (length (v ∷ vs)) (λ e. route_row_pairs e c true raw_batch (v ∷ vs)) answer
    save_batch g c (length raw_batch)

  unfoldable pub finalize_arrow_batch_result :
      ArrowWriter → ArrowResult → List Value → CheckpointValue → Exec (Unit {0})
  finalize_arrow_batch_result writer (arrow_failure f) raw_batch c = do
    count_batch_errored g (length raw_batch)
    routed ← routing (route_batch_failure g f c true raw_batch)
    stop_unless f.exception routed
    save_batch g c (length raw_batch)
  finalize_arrow_batch_result writer (out_batch rows) raw_batch c =
      write_out_batch writer rows raw_batch c

  abbrev run_arrow_batch :
      ArrowWriter → List ArrowMiddleware → List Value → CheckpointValue → Exec (Unit {0})
  run_arrow_batch writer [] batch c = write_passthrough_arrow_batch writer batch c
  run_arrow_batch writer (m ∷ ms) batch c = do
    result ← process_arrow_batch_range (m ∷ ms) batch
    finalize_arrow_batch_result writer result batch c

  -- `stream_batches`: the batches with `source.current_checkpoint()` after each, then the end of the
  -- stream or its exception.
  unfoldable pub run_arrow :
      ArrowWriter
      → List ArrowMiddleware
      → List (List Value × CheckpointValue)
      → Option Exc
      → Exec (Unit {0})
  run_arrow writer ms [] none = skip
  run_arrow writer ms [] (some e) = raise e
  run_arrow writer ms ((batch, c) ∷ batches) end = do
    run_arrow_batch writer ms batch c
    run_arrow writer ms batches end
