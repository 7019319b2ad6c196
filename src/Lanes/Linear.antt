-- ===== src/Lanes/Linear.antt =====
-- core/runtime/_lanes/_linear.py without the Rust buffer: each record of the source goes through the
-- middlewares and on to delivery, one after another. The hot counters and the lane's own count of
-- records, which nothing here reads, are left out.
use agora_etl.Prelude.{
  ℕ, Option, none, some, List, [], ◌∷◌, ltb, if◌then◌else◌, ◌≡◌, refl, ◌∙◌, arith,
}
use agora_etl.Failures.{Exc, Result, ok, err}
use agora_etl.Delivery.Types.{Value, CheckpointValue, Callback}
use agora_etl.Delivery.World.{World, Engine}
use agora_etl.Delivery.Exec.{Exec, raise, attempt, skip, resume, bind_then, ◌>>=◌, ◌>>◌}
use agora_etl.Delivery.Engine.{write_processed_record, flush_pending_writes, queue_processed_record}
use agora_etl.Middleware.{Middleware, process_outcome}

pub record SourceRecord : Type 0 where
  pub raw : Value
  pub checkpoint : CheckpointValue
  pub on_success : Callback

abbrev pub source_end : Option Exc → Exec (Unit {0})
source_end none = skip
source_end (some e) = raise e

abbrev pub re_raise : Result (Unit {0}) → Exec (Unit {0})
re_raise (ok t) = skip
re_raise (err e) = raise e

abbrev resume_error : Result (Unit {0}) → Exc → Result (Unit {0})
resume_error (ok t) e = err e
resume_error (err x) e = err x

module _ (g : Engine) (ms : List Middleware) (batch_size : ℕ) where
  unfoldable pub run_record : SourceRecord → Exec (Unit {0})
  run_record r = do
    outcome ← process_outcome ms r.raw
    if ltb 1 batch_size
        then queue_processed_record g outcome.0 r.raw r.checkpoint batch_size outcome.1 r.on_success
        else write_processed_record g outcome.0 r.raw r.checkpoint outcome.1 r.on_success

  -- The records that the source gives, then its end or its exception.
  unfoldable pub read_records : List SourceRecord → Option Exc → Exec (Unit {0})
  read_records [] end = source_end end
  read_records (r ∷ rs) end = do run_record r; read_records rs end

  unfoldable pub run_linear : List SourceRecord → Option Exc → Exec (Unit {0})
  run_linear rs end = do
    answer ← attempt (read_records rs end)
    flush_pending_writes g
    re_raise answer

  read_then_end :
      (rs : List SourceRecord) (e : Exc) (w : World)
      → read_records rs (some e) w ≡ (read_records rs none >> raise e) w
  unfolding read_records ◌>>=◌
  read_then_end [] e w = refl
  read_then_end (r ∷ rs) e w =
      bind_then (run_record r) (λ t. read_records rs none) (λ t. raise e) _ w
        (λ t u. read_then_end rs e u)

  -- Between the end of the loop and the error that is raised at last, the pending writes are flushed.
  flush_then :
      (r : Result (Unit {0})) (e : Exc) (w : World)
      → (flush_pending_writes g >> re_raise (resume_error r e)) w
        ≡ ((flush_pending_writes g >> re_raise r) >> raise e) w
  unfolding ◌>>=◌
  flush_then (ok t) e w = ground arith
  flush_then (err x) e w = ground arith

  loop_end :
      (r : Result (Unit {0})) (e : Exc) (w : World)
      → resume r (λ t. raise e) w ≡ (resume_error r e, w)
  unfolding raise
  loop_end (ok t) e w = refl
  loop_end (err x) e w = refl

  -- A run whose source raises after its records is the run whose source ends there, up to its very
  -- last state, with the source's exception raised at the end: nothing that was read is lost.
  pub run_linear-raise :
      (rs : List SourceRecord) (e : Exc) (w : World)
      → run_linear rs (some e) w ≡ (run_linear rs none >> raise e) w
  unfolding run_linear ◌>>=◌
  run_linear-raise rs e w =
      let (r, u) = read_records rs none w in
      simp (read_then_end rs e w ∙ loop_end r e u) (flush_then r e u)
