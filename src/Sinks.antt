-- ===== src/Sinks.antt =====
-- core/sink/_writers.py: `SinkFanOut`, without concurrent writes. A sink's methods are parameters:
-- they answer from, and change, a state `S` of their own.
pub mod Paths
pub mod Router
mod Tests
use agora_etl.Prelude.{
  ℕ, ◌+◌, Bool, true, false, Option, none, some, List, [], ◌∷◌, ◌++◌, map, length, ltb, ◌==◌,
  if◌then◌else◌,
}
use agora_etl.Failures.{Exc, runtime_error, Result, ok, err}
use agora_etl.Delivery.Types.{Value, WriteResult}

-- What a native `write_batch` returns.
pub data BatchReturn : Type 0 where
  returned_none : BatchReturn
  returned_results : List WriteResult → BatchReturn
  returned_other : BatchReturn

-- `write_many` is there for a sink whose capabilities and interface say that it writes batches.
pub record Sink (S : Type 0) : Type 0 where
  pub write : Value → S → Option Exc × S
  pub write_many : Option (List Value → S → Result BatchReturn × S)

abbrev pub write_ok_result : WriteResult
write_ok_result = record { written = true; errors = [] }

abbrev pub write_error : Exc → WriteResult
write_error e = record { written = false; errors = e ∷ [] }

abbrev pub repeat {ℓ} : {A : Type ℓ} → A → List Value → List A
repeat a [] = []
repeat a (v ∷ vs) = a ∷ repeat a vs

-- `_normalize_batch_write_results`, for a batch that is given itself in place of its length
unfoldable pub normalize_batch_write_results : BatchReturn → List Value → Result (List WriteResult)
normalize_batch_write_results returned_none records = ok (repeat write_ok_result records)
normalize_batch_write_results (returned_results rs) records =
    if length rs == length records
    then ok rs
    else err (runtime_error "Sink.write_batch() must return one WriteResult per input record.")
normalize_batch_write_results returned_other records =
    err (runtime_error "Sink.write_batch() must return None or a list[WriteResult].")

-- What `write_batch` keeps of one sink's call.
pub data Answer : Type 0 where
  call_raised : Exc → Answer
  write_results : List WriteResult → Answer
  record_errors : List (Option Exc) → Answer

abbrev pub answer_of : Result (List WriteResult) → Answer
answer_of (ok rs) = write_results rs
answer_of (err e) = call_raised e

abbrev pub normalized : Result BatchReturn → List Value → Result (List WriteResult)
normalized (ok r) records = normalize_batch_write_results r records
normalized (err e) records = err e

abbrev pub write_result_of : Option Exc → WriteResult
write_result_of none = write_ok_result
write_result_of (some e) = write_error e

-- `errors_by_record[index].append(error)`, or `written_flags[index] = True`
abbrev pub add_error : Option Exc → WriteResult → WriteResult
add_error none r = record r { written = true }
add_error (some e) r = record r { errors = r.errors ++ e ∷ [] }

abbrev pub add_result : WriteResult → WriteResult → WriteResult
add_result a r = record {
  written = if a.written then true else r.written;
  errors = r.errors ++ a.errors;
}

-- A list of the sink's answers is as long as the batch; where one ended earlier, the other records
-- would be left as they are.
abbrev pub merge_results : List WriteResult → List WriteResult → List WriteResult
merge_results [] rs = rs
merge_results (a ∷ as') [] = []
merge_results (a ∷ as') (r ∷ rs) = add_result a r ∷ merge_results as' rs

abbrev pub merge_errors : List (Option Exc) → List WriteResult → List WriteResult
merge_errors [] rs = rs
merge_errors (e ∷ es) [] = []
merge_errors (e ∷ es) (r ∷ rs) = add_error e r ∷ merge_errors es rs

unfoldable pub merge_answer : Answer → List WriteResult → List WriteResult
merge_answer (call_raised e) rs = map (add_error (some e)) rs
merge_answer (write_results as') rs = merge_results as' rs
merge_answer (record_errors es) rs = merge_errors es rs

abbrev pub merge_answers : List Answer → List WriteResult → List WriteResult
merge_answers [] rs = rs
merge_answers (a ∷ as') rs = merge_answers as' (merge_answer a rs)

abbrev pub untouched : WriteResult
untouched = record { written = false; errors = [] }

abbrev pub batch_results : Result (List WriteResult) → List Value → List WriteResult
batch_results (ok rs) records = rs
batch_results (err e) records = repeat (write_error e) records

-- `successful_writes` and `errors`
pub record Tally : Type 0 where
  pub successful_writes : ℕ
  pub errors : List Exc

abbrev pub tally : Option Exc → Tally → Tally
tally none t = record t { successful_writes = t.successful_writes + 1 }
tally (some e) t = record t { errors = t.errors ++ e ∷ [] }

abbrev pub no_writes : Tally
no_writes = record { successful_writes = 0; errors = [] }

abbrev pub tally_result : Tally → WriteResult
tally_result t = record { written = ltb 0 t.successful_writes; errors = t.errors }

module _ {S : Type 0} where
  -- The loop over the records, an exception as a value.
  unfoldable pub write_each : Sink S → List Value → S → List (Option Exc) × S
  write_each k [] s = ([], s)
  write_each k (v ∷ vs) s =
      let (e, s') = k.write v s in let (es, s'') = write_each k vs s' in (e ∷ es, s'')

  abbrev pub call_many : (List Value → S → Result BatchReturn × S) → List Value → S → Answer × S
  call_many many records s = let (r, s') = many records s in (answer_of (normalized r records), s')

  abbrev pub each_answer : Sink S → List Value → S → Answer × S
  each_answer k records s = let (es, s') = write_each k records s in (record_errors es, s')

  abbrev pub write_batch_in :
      Option (List Value → S → Result BatchReturn × S) → Sink S → List Value → S → Answer × S
  write_batch_in none k records s = each_answer k records s
  write_batch_in (some many) k records s = call_many many records s

  -- `_write_batch_to_sink`, with an exception that it raises as an answer
  unfoldable pub write_batch_to_sink : Sink S → List Value → S → Answer × S
  write_batch_to_sink k records s = write_batch_in k.write_many k records s

  unfoldable pub run_sink_calls : List (Sink S) → List Value → S → List Answer × S
  run_sink_calls [] records s = ([], s)
  run_sink_calls (k ∷ ks) records s =
      let (a, s') = write_batch_to_sink k records s in
      let (as', s'') = run_sink_calls ks records s' in (a ∷ as', s'')

  -- The part of `write_batch` that holds for any number of sinks.
  unfoldable pub write_batch_all : List (Sink S) → List Value → S → List WriteResult × S
  write_batch_all sinks records s =
      let (answers, s') = run_sink_calls sinks records s in
      (merge_answers answers (repeat untouched records), s')

  -- The two short cuts for a sink that is alone.
  unfoldable pub write_batch_alone :
      Option (List Value → S → Result BatchReturn × S)
      → Sink S
      → List Value
      → S
      → List WriteResult × S
  write_batch_alone (some many) k records s =
      let (r, s') = many records s in (batch_results (normalized r records) records, s')
  write_batch_alone none k records s =
      let (es, s') = write_each k records s in (map write_result_of es, s')

  unfoldable pub write_batch : List (Sink S) → List Value → S → List WriteResult × S
  write_batch sinks [] s = ([], s)
  write_batch (k ∷ []) (v ∷ vs) s = write_batch_alone k.write_many k (v ∷ vs) s
  write_batch sinks (v ∷ vs) s = write_batch_all sinks (v ∷ vs) s

  unfoldable pub write_to_all : List (Sink S) → Value → Tally → S → Tally × S
  write_to_all [] v t s = (t, s)
  write_to_all (k ∷ ks) v t s = let (e, s') = k.write v s in write_to_all ks v (tally e t) s'

  unfoldable pub write : List (Sink S) → Value → S → WriteResult × S
  write (k ∷ []) v s = let (e, s') = k.write v s in (write_result_of e, s')
  write sinks v s = let (t, s') = write_to_all sinks v no_writes s in (tally_result t, s')
