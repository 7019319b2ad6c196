-- ===== src/Lanes/ArrowLaws.antt =====
-- What the Arrow path does about a failed write.
use agora_etl.Prelude.{◌+◌, ℕ, Bool, true, none, List, length, ◌≡◌, refl}
use agora_etl.Failures.{Exc, Result, ok, err}
use agora_etl.Delivery.Types.{Value, CheckpointValue}
use agora_etl.Delivery.World.{World, Engine}
use agora_etl.Delivery.Exec.{Exec, ◌>>=◌, ◌>>◌}
use agora_etl.Delivery.Checkpoints.{save_batch}
use agora_etl.Lanes.Arrow.{
  ArrowWriter, send_arrow, count_rows_written, settle_arrow_write, route_rows,
  write_passthrough_arrow_batch,
}

-- The state in which a failed batch is routed: its records are counted as errored.
abbrev pub counted_errored : ℕ → World → World
counted_errored n w = record w {
  metrics = record w.metrics { records_errored = w.metrics.records_errored + n };
}

-- The state after a write, its records counted as written or as errored.
abbrev pub counted_write : ℕ → Result (Unit {0}) × World → World
counted_write n (ok t, w) = w
counted_write n (err e, w) = counted_errored n w

module _ (g : Engine) where
  abbrev pub written_batch : ArrowWriter → List Value → Exec (Unit {0})
  written_batch writer batch = send_arrow g writer batch >> count_rows_written g (length batch)

  settle_no_dlq :
      (n : ℕ) (route : Exc → Exec Bool) (r : Result (Unit {0})) (w : World)
      → g.dlq_sink ≡ none
      → settle_arrow_write g n route r w ≡ (ok tt, counted_write n (r, w))
  unfolding ◌>>=◌
  settle_no_dlq n route (ok tt) w h = refl
  settle_no_dlq n route (err e) w h = simp h refl

  -- Without a DLQ, whatever the writer answers and under every failure policy, the batch goes on to
  -- its checkpoint, in the state in which the write was tried and its rows were counted.
  pub write_passthrough_no_dlq :
      (writer : ArrowWriter) (batch : List Value) (c : CheckpointValue) (w : World)
      → g.dlq_sink ≡ none
      → write_passthrough_arrow_batch g writer batch c w
        ≡ save_batch g c
            (length batch)
            (counted_write (length batch) (written_batch writer batch w))
  unfolding write_passthrough_arrow_batch ◌>>=◌
  write_passthrough_no_dlq writer batch c w h =
      let (r, u) = written_batch writer batch w in
      simp (settle_no_dlq (length batch) (λ e. route_rows g e c true batch) r u h) refl
