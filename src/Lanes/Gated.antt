-- ===== src/Lanes/Gated.antt =====
-- The commit gate of single records over a whole linear run.
use agora_etl.Prelude.{ℕ, ◌≤◌, none, some, List, [], ◌∷◌, ◌≡◌, arith}
use agora_etl.Failures.{Exc, Result, ok, err}
use agora_etl.Delivery.Types.{SinkFailurePolicy}
use agora_etl.Delivery.World.{World, Engine}
use agora_etl.Delivery.Exec.{Exec, resume, ◌>>=◌}
use agora_etl.Delivery.Engine.{write_processed_record}
use agora_etl.Delivery.Gate.Records.{Verdict, write_processed_record-Verdict}
use agora_etl.Middleware.{process_range, process_outcome}
use agora_etl.Lanes.Linear.{SourceRecord, run_record, read_records}

-- A run over the records, from a state to a result and a state: each record in turn has the verdict of
-- its write, from the state in which the one before it ended, and an exception ends the run.
pub data IsGated (g : Engine) : List SourceRecord → World → Result (Unit {0}) → World → Type 0 where
  all_read : {w : World} → IsGated g [] w (ok tt) w
  next_record :
      {r : SourceRecord} {rs : List SourceRecord} {u v w : World} {x : Result (Unit {0})}
      → Verdict g r.raw r.raw u (ok tt) v
      → IsGated g rs v x w
      → IsGated g (r ∷ rs) u x w
  stopped :
      {r : SourceRecord} {rs : List SourceRecord} {u v : World} {e : Exc}
      → Verdict g r.raw r.raw u (err e) v
      → IsGated g (r ∷ rs) u (err e) v

module _ (g : Engine) where
  run_record_alone :
      (size : ℕ) (r : SourceRecord) (w : World)
      → size ≤ 1
      → run_record g [] size r w
        ≡ write_processed_record g (some r.raw) r.raw r.checkpoint none r.on_success w
  unfolding run_record process_outcome process_range ◌>>=◌
  run_record_alone size r w small = ground (arith, small)

  resumed-IsGated :
      (r : SourceRecord) (rs : List SourceRecord) (next : Exec (Unit {0})) (u : World)
      (x : Result (Unit {0})) (v : World)
      → Verdict g r.raw r.raw u x v
      → ((w : World) → IsGated g rs w (next w).0 (next w).1)
      → IsGated g (r ∷ rs) u (resume x (λ t. next) v).0 (resume x (λ t. next) v).1
  resumed-IsGated r rs next u (ok t) v h k = next_record h (k v)
  resumed-IsGated r rs next u (err e) v h k = stopped h

  -- Under FAIL_CLOSED, with no middleware and a writer that takes one record at a time, whatever the
  -- collaborators answer: the records that the source gives are written one after another, each handled
  -- by the writer or the DLQ before the first checkpoint or success hook of its own, up to the first
  -- that raises; no record after that one is touched.
  pub read_records-IsGated :
      (size : ℕ) (rs : List SourceRecord) (u : World)
      → size ≤ 1
      → g.sink_failure_policy ≡ SinkFailurePolicy.fail_closed
      → IsGated g rs u (read_records g [] size rs none u).0 (read_records g [] size rs none u).1
  unfolding read_records ◌>>=◌
  read_records-IsGated size [] u small closed = all_read
  read_records-IsGated size (r ∷ rs) u small closed = rw (run_record_alone size r u small) (
      let (x, v) = write_processed_record g (some r.raw) r.raw r.checkpoint none r.on_success u in
      resumed-IsGated r rs (read_records g [] size rs none) u x v
        (write_processed_record-Verdict g r.raw r.raw r.checkpoint none r.on_success u closed)
        (λ w. read_records-IsGated size rs w small closed))
