-- ===== src/Middleware.antt =====
-- core/middleware/_chain.py, core/middleware/base.py, core/middleware/_builtins.py (map and filter)
-- and `BatchMiddleware` of core/batch.py: a record, or a list of records, through the middlewares. A
-- middleware's own code is a parameter. Tracing, times and the Rust executor of builtin stages are
-- left out.

mod Losses
mod Tests
use Prim.Native.String.{String}
use text.Mathlib.Text.{◌==◌}
use agora_etl.Prelude.{
  ℕ, suc, ◌+◌, ◌-◌, Bool, true, false, Option, none, some, List, [], ◌∷◌, length, if◌then◌else◌,
}
use agora_etl.Prelude as P
use agora_etl.Failures.{Exc, runtime_error, Result, ok, err}
use agora_etl.Delivery.Types.{Value, MiddlewareFailure, BatchFailure}
use agora_etl.Delivery.World.{World, MiddlewareMetrics}
use agora_etl.Delivery.Exec.{Exec, pure, raise, attempt, modify, skip, ◌>>=◌, ◌>>◌}
use agora_etl.Delivery.Calls.{transfer_success_hooks}

-- How a middleware treats a list of records: one at a time through the chain (`custom`), by the fast
-- loop of a synchronous map or filter, or all at once (`batch_stage`).
pub data Stage : Type 0 where
  custom : (Value → Exec (Option Value)) → Stage
  sync_map : (Value → Exec (Option Value)) → Stage
  sync_filter : (Value → Exec Bool) → Stage
  batch_stage : (List Value → Exec (List (Option Value))) → Stage

pub record Middleware : Type 0 where
  pub name : String
  pub stage : Stage
  pub on_error : Value → Exc → Exec (Unit {0})

-- The value and the failure of `process_outcome`
abbrev pub Outcome : Type 0
Outcome = Option Value × Option MiddlewareFailure

abbrev fresh_metrics : String → MiddlewareMetrics
fresh_metrics n = record {
  name = n;
  records_in = 0;
  records_out = 0;
  records_dropped = 0;
  records_errored = 0;
}

-- `ctx.metrics.middleware(name)` makes the entry where there is none.
abbrev update_metrics :
    String
    → (MiddlewareMetrics → MiddlewareMetrics)
    → List MiddlewareMetrics
    → List MiddlewareMetrics
update_metrics n f [] = f (fresh_metrics n) ∷ []
update_metrics n f (m ∷ ms) =
    let rest = update_metrics n f ms in if m.name == n then f m ∷ ms else m ∷ rest

abbrev pub on_middleware : String → (MiddlewareMetrics → MiddlewareMetrics) → Exec (Unit {0})
on_middleware n f =
    modify (λ w. record w { middleware_metrics = update_metrics n f w.middleware_metrics })

abbrev pub count_in : ℕ → MiddlewareMetrics → MiddlewareMetrics
count_in n m = record m { records_in = m.records_in + n }

abbrev pub count_out : ℕ → MiddlewareMetrics → MiddlewareMetrics
count_out n m = record m { records_out = m.records_out + n }

abbrev pub count_dropped : ℕ → MiddlewareMetrics → MiddlewareMetrics
count_dropped n m = record m { records_dropped = m.records_dropped + n }

abbrev pub count_errored : ℕ → MiddlewareMetrics → MiddlewareMetrics
count_errored n m = record m { records_errored = m.records_errored + n }

-- `BatchMiddleware.process` wraps the one record, and takes the first result.
abbrev first_result : List (Option Value) → Option Value
first_result [] = none
first_result (r ∷ rs) = r

abbrev keep_if : Value → Bool → Option Value
keep_if v true = some v
keep_if v false = none

-- `middleware.process`
unfoldable pub process_stage : Stage → Value → Exec (Option Value)
process_stage (custom f) v = f v
process_stage (sync_map f) v = f v
process_stage (sync_filter p) v = do keep ← p v; pure (keep_if v keep)
process_stage (batch_stage f) v = do results ← f (v ∷ []); pure (first_result results)

abbrev pub middleware_failure : Middleware → Value → Exc → MiddlewareFailure
middleware_failure m v e = record {
  stage = "middleware";
  subject = v;
  middleware = m.name;
  exception = e;
}

-- The end of a round of the chain's loop, for the record that entered the chain and the one that
-- entered the stage; `rest` is what follows.
abbrev pub settle_stage :
    Middleware → Value → Value → (Value → Exec Outcome) → Result (Option Value) → Exec Outcome
settle_stage m subject previous rest (err e) = do
  on_middleware m.name (count_errored 1)
  m.on_error subject e
  pure (none, some (middleware_failure m subject e))
settle_stage m subject previous rest (ok none) = do
  on_middleware m.name (count_dropped 1)
  pure (none, none)
settle_stage m subject previous rest (ok (some v)) = do
  transfer_success_hooks previous v
  on_middleware m.name (count_out 1)
  rest v

-- `_process_range_outcome_no_trace`, on the middlewares of the range
unfoldable pub process_range : List Middleware → Value → Value → Exec Outcome
process_range [] subject current = pure (some current, none)
process_range (m ∷ ms) subject current = do
  on_middleware m.name (count_in 1)
  answer ← attempt (process_stage m.stage current)
  settle_stage m subject current (process_range ms subject) answer

unfoldable pub process_outcome : List Middleware → Value → Exec Outcome
process_outcome ms v = process_range ms v v

abbrev pub active : List (Option Value) → List Value
active [] = []
active (none ∷ rs) = active rs
active (some v ∷ rs) = v ∷ active rs

-- A failure is `BatchProcessResult` with no results.
pub data BatchResult : Type 0 where
  batch_results : List (Option Value) → BatchResult
  batch_failure : BatchFailure → BatchResult

-- `Middleware.apply_in_batch`: a failure of one record leaves `None` in its place.
unfoldable pub apply_each : Middleware → List (Option Value) → Exec (List (Option Value))
apply_each m [] = pure []
apply_each m (none ∷ rs) = do rest ← apply_each m rs; pure (none ∷ rest)
apply_each m (some v ∷ rs) = do
  outcome ← process_range (m ∷ []) v v
  rest ← apply_each m rs
  pure (outcome.0 ∷ rest)

pub record Counts : Type 0 where
  pub written : ℕ
  pub dropped : ℕ
  pub errors : ℕ

abbrev pub tally_result : Option Value → Counts → Counts
tally_result none n = record n { dropped = n.dropped + 1 }
tally_result (some v) n = record n { written = n.written + 1 }

-- One record of the fast loops: an exception goes to `on_error`, and leaves `None`.
abbrev settle_fast :
    Middleware → Value → Counts → Result (Option Value) → Exec (Option Value × Counts)
settle_fast m v n (err e) = do m.on_error v e; pure (none, record n { errors = n.errors + 1 })
settle_fast m v n (ok r) = pure (r, tally_result r n)

unfoldable pub fast_loop :
    Middleware
    → (Value → Exec (Option Value))
    → Counts
    → List (Option Value)
    → Exec (List (Option Value) × Counts)
fast_loop m f n [] = pure ([], n)
fast_loop m f n (none ∷ rs) = do (rest, k) ← fast_loop m f n rs; pure (none ∷ rest, k)
fast_loop m f n (some v ∷ rs) = do
  answer ← attempt (f v)
  (r, k) ← settle_fast m v n answer
  (rest, l) ← fast_loop m f k rs
  pure (r ∷ rest, l)

abbrev pub no_counts : Counts
no_counts = record { written = 0; dropped = 0; errors = 0 }

-- `_apply_sync_map_batch` and `_apply_sync_filter_batch`
unfoldable pub apply_fast :
    Middleware → (Value → Exec (Option Value)) → List (Option Value) → Exec (List (Option Value))
apply_fast m f rs = if P.◌==◌ (length (active rs)) 0 then pure rs else (do
  on_middleware m.name (count_in (length (active rs)))
  (results, n) ← fast_loop m f no_counts rs
  on_middleware m.name
      (λ k. count_out n.written (count_dropped n.dropped (count_errored n.errors k)))
  pure results)

-- The results of a batch stage, put where the records were.
abbrev pub place : List (Option Value) → List (Option Value) → List (Option Value)
place [] results = []
place (none ∷ rs) results = none ∷ place rs results
place (some v ∷ rs) [] = []
place (some v ∷ rs) (r ∷ results) = r ∷ place rs results

abbrev count_none : List (Option Value) → ℕ
count_none [] = 0
count_none (none ∷ rs) = suc (count_none rs)
count_none (some v ∷ rs) = count_none rs

abbrev settle_batch_stage :
    Middleware → List (Option Value) → Result (List (Option Value)) → Exec BatchResult
settle_batch_stage m rs (err e) = do
  on_middleware m.name (count_errored (length (active rs)))
  pure (batch_failure (record { exception = e; middleware = m.name }))
settle_batch_stage m rs (ok results) =
    if P.◌==◌ (length results) (length (active rs))
    then (do
      on_middleware m.name (count_dropped (count_none (place rs results) - count_none rs))
      on_middleware m.name (count_out (length (active (place rs results))))
      pure (batch_results (place rs results)))
    else raise (runtime_error "BatchMiddleware: lengths must match.")

-- `middleware.apply_in_batch`
unfoldable pub apply_in_batch : Middleware → Stage → List (Option Value) → Exec BatchResult
apply_in_batch m (custom f) rs = do results ← apply_each m rs; pure (batch_results results)
apply_in_batch m (sync_map f) rs = do results ← apply_fast m f rs; pure (batch_results results)
apply_in_batch m (sync_filter p) rs = do
  results ← apply_fast m (λ v. p v >>= λ keep. pure (keep_if v keep)) rs
  pure (batch_results results)
apply_in_batch m (batch_stage f) rs = do
  on_middleware m.name (count_in (length rs))
  answer ← attempt (f (active rs))
  settle_batch_stage m rs answer

abbrev go_on : (List (Option Value) → Exec BatchResult) → BatchResult → Exec BatchResult
go_on rest (batch_failure f) = pure (batch_failure f)
go_on rest (batch_results rs) = rest rs

-- `process_batch_range`
unfoldable pub process_batch_range : List Middleware → List (Option Value) → Exec BatchResult
process_batch_range [] rs = pure (batch_results rs)
process_batch_range (m ∷ ms) rs = do
  result ← apply_in_batch m m.stage rs
  go_on (process_batch_range ms) result
