-- ===== src/Lanes/Batches.antt =====
-- The list path of core/runtime/_lanes/_batch.py: a batch of records through the middlewares and on to
-- delivery. The hot counters are left out.
use agora_etl.Prelude.{Option, none, some, List, [], ◌∷◌, map}
use agora_etl.Failures.{Exc}
use agora_etl.Delivery.Types.{Value, CheckpointValue}
use agora_etl.Delivery.World.{Engine}
use agora_etl.Delivery.Exec.{Exec, raise, skip, ◌>>=◌, ◌>>◌}
use agora_etl.Delivery.BatchWrite.{passthrough, filtered, write_batch_result}
use agora_etl.Middleware.{
  Middleware, BatchResult, batch_results, batch_failure, process_batch_range,
}

abbrev pub present : List Value → List (Option Value)
present = map some

module _ (g : Engine) where
  -- The results are a list of their own here.
  unfoldable pub finalize_list_batch_result :
      BatchResult → List Value → CheckpointValue → Exec (Unit {0})
  finalize_list_batch_result (batch_failure f) raw_batch c =
      write_batch_result g (filtered []) raw_batch c (some f)
  finalize_list_batch_result (batch_results rs) raw_batch c =
      write_batch_result g (filtered rs) raw_batch c none

  -- `process_batch` gives the batch itself back where there is no middleware.
  abbrev pub run_list_batch : List Middleware → List Value → CheckpointValue → Exec (Unit {0})
  run_list_batch [] raw_batch c = write_batch_result g passthrough raw_batch c none
  run_list_batch (m ∷ ms) raw_batch c = do
    result ← process_batch_range (m ∷ ms) (present raw_batch)
    finalize_list_batch_result result raw_batch c

  -- The batches of the source, then the end of the stream or its exception.
  unfoldable pub run_list :
      List Middleware → List (List Value × CheckpointValue) → Option Exc → Exec (Unit {0})
  run_list ms [] none = skip
  run_list ms [] (some e) = raise e
  run_list ms ((batch, c) ∷ batches) end = do run_list_batch ms batch c; run_list ms batches end
