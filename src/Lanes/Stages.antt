-- ===== src/Lanes/Stages.antt =====
-- The entries of the pipelined paths of core/runtime/_lanes/_batch.py: what a batch of the source
-- submits to the stage, and how its answer is committed. What the stage's `submit_batch` raises and
-- what its futures hold is up to the calls made so far.
use agora_etl.Prelude.{ℕ, String, Bool, Option, none, some, List, [], ◌∷◌}
use agora_etl.Failures.{Exc, Result, ok, err}
use agora_etl.Delivery.Types.{Value, CheckpointValue}
use agora_etl.Delivery.World.{History, Engine}
use agora_etl.Delivery.Exec.{Exec, pure, raise, attempt, gets, ◌>>=◌, ◌>>◌}
use agora_etl.Middleware.{
  Middleware, BatchResult, batch_results, batch_failure, process_batch_range,
}
use agora_etl.Lanes.Arrow.{
  ArrowWriter, ArrowMiddleware, ArrowResult, out_batch, arrow_failure, process_arrow_batch_range,
  finalize_arrow_batch_result,
}
use agora_etl.Lanes.Batches.{present, finalize_list_batch_result}
use agora_etl.Lanes.Pipelined.{Pipeline, answered, limit_of}

-- The pipelined stage, and the middlewares before and after it. A future is named by what was
-- submitted.
pub record ListStage : Type 0 where
  pub name : String
  pub max_in_flight : ℕ
  pub before : List Middleware
  pub after : List Middleware
  pub submit_batch : History → List (Option Value) → Option Exc
  pub is_done : History → List (Option Value) → Bool
  pub future : History → List (Option Value) → Result (List (Option Value))
  pub drain_pending_batches : History → Option Exc

-- An entry of `pending_batches`; its place in the list is its sequence number.
pub record ListEntry : Type 0 where
  pub submitted : List (Option Value)
  pub raw_batch : List Value
  pub checkpoint : CheckpointValue

pub record ArrowStage : Type 0 where
  pub name : String
  pub max_in_flight : ℕ
  pub before : List ArrowMiddleware
  pub after : List ArrowMiddleware
  pub submit_batch : History → List Value → Option Exc
  pub is_done : History → List Value → Bool
  pub future : History → List Value → Result (List Value)
  pub drain_pending_batches : History → Option Exc

pub record ArrowEntry : Type 0 where
  pub submitted : List Value
  pub raw_batch : List Value
  pub checkpoint : CheckpointValue

module _ {A : Type 0} where
  -- A call whose answer depends on the calls made so far, and that is no call of a collaborator of
  -- delivery.
  abbrev returned : Result A → Exec A
  returned (ok a) = pure a
  returned (err e) = raise e

  unfoldable pub ask : (History → Result A) → Exec A
  ask f = do answer ← gets (λ w. f w.log); returned answer

module _ (g : Engine) (s : ListStage) where
  -- An exception of the future or of the chain becomes a failure of the stage.
  abbrev list_result : Result BatchResult → BatchResult
  list_result (ok r) = r
  list_result (err e) = batch_failure (record { exception = e; middleware = s.name })

  unfoldable pub resolve_list : ListEntry → Exec (Unit {0})
  resolve_list e = do
    answer ← attempt do
      stage_result ← ask (λ h. s.future h e.submitted)
      process_batch_range s.after stage_result
    finalize_list_batch_result g (list_result answer) e.raw_batch e.checkpoint

  abbrev submit_list : BatchResult → List Value → CheckpointValue → Exec (Option ListEntry)
  submit_list (batch_failure f) raw_batch c = do
    finalize_list_batch_result g (batch_failure f) raw_batch c
    pure none
  submit_list (batch_results rs) raw_batch c = do
    ask (λ h. answered (s.submit_batch h rs))
    pure (some (record { submitted = rs; raw_batch = raw_batch; checkpoint = c }))

  unfoldable pub arrive_list : List Value × CheckpointValue → Exec (Option ListEntry)
  arrive_list (raw_batch, c) = do
    prefix ← process_batch_range s.before (present raw_batch)
    submit_list prefix raw_batch c

  abbrev pub list_pipeline : Option ℕ → Pipeline ListEntry
  list_pipeline max_buffer_size = record {
    resolve = resolve_list;
    done = λ h e. s.is_done h e.submitted;
    drain = s.drain_pending_batches;
    stage_limit = limit_of s.max_in_flight max_buffer_size;
  }

module _ (g : Engine) (s : ArrowStage) (writer : ArrowWriter) where
  abbrev arrow_result : Result ArrowResult → ArrowResult
  arrow_result (ok r) = r
  arrow_result (err e) = arrow_failure (record { exception = e; middleware = s.name })

  unfoldable pub resolve_arrow : ArrowEntry → Exec (Unit {0})
  resolve_arrow e = do
    answer ← attempt do
      stage_result ← ask (λ h. s.future h e.submitted)
      process_arrow_batch_range s.after stage_result
    finalize_arrow_batch_result g writer (arrow_result answer) e.raw_batch e.checkpoint

  -- A batch of which nothing is left is finalized at once, as one that failed is.
  abbrev submit_arrow : ArrowResult → List Value → CheckpointValue → Exec (Option ArrowEntry)
  submit_arrow (arrow_failure f) raw_batch c = do
    finalize_arrow_batch_result g writer (arrow_failure f) raw_batch c
    pure none
  submit_arrow (out_batch []) raw_batch c = do
    finalize_arrow_batch_result g writer (out_batch []) raw_batch c
    pure none
  submit_arrow (out_batch (v ∷ vs)) raw_batch c = do
    ask (λ h. answered (s.submit_batch h (v ∷ vs)))
    pure (some (record { submitted = v ∷ vs; raw_batch = raw_batch; checkpoint = c }))

  unfoldable pub arrive_arrow : List Value × CheckpointValue → Exec (Option ArrowEntry)
  arrive_arrow (raw_batch, c) = do
    prefix ← process_arrow_batch_range s.before raw_batch
    submit_arrow prefix raw_batch c

  abbrev pub arrow_pipeline : Option ℕ → Pipeline ArrowEntry
  arrow_pipeline max_buffer_size = record {
    resolve = resolve_arrow;
    done = λ h e. s.is_done h e.submitted;
    drain = s.drain_pending_batches;
    stage_limit = limit_of s.max_in_flight max_buffer_size;
  }
