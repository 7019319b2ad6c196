-- ===== src/Middleware/Tests.antt =====
-- The middleware theorems at concrete inputs.
use agora_etl.Prelude.{
  true, false, ◌+◌, Option, none, some, [], ◌∷◌, ◌==◌, if◌then◌else◌, ◌≡◌, refl,
}
use agora_etl.Failures.{ok}
use agora_etl.Delivery.Types.{Value}
use agora_etl.Delivery.Exec.{Exec, pure, raise, skip, ◌>>=◌}
use agora_etl.Delivery.Exec.Returns.{Returns, Returns-skip}
use agora_etl.Delivery.Samples.{start, poison}
use agora_etl.Middleware.{
  Middleware, sync_map, sync_filter, batch_results, process_outcome, process_range, process_stage,
  middleware_failure, process_batch_range, apply_in_batch, apply_fast, fast_loop,
}
use agora_etl.Middleware.Losses.{AllPerRecord, HasResults, process_batch_range-HasResults}

-- It fails on record 13, and gives any other record the next number.
abbrev next_number : Value → Exec (Option Value)
next_number v = if v == 13 then raise poison else pure (some (v + 1))

abbrev numbering : Middleware
numbering = record { name = "numbering"; stage = sync_map next_number; on_error = λ v e. skip }

abbrev keep_large : Middleware
keep_large = record {
  name = "large";
  stage = sync_filter (λ v. if v == 2 then pure false else pure true);
  on_error = λ v e. skip;
}

two_stages : AllPerRecord (numbering ∷ keep_large ∷ [])
two_stages = (
  record { per_record = tt; handles = λ v e. Returns-skip },
  (record { per_record = tt; handles = λ v e. Returns-skip }, tt),
)

process_batch_range-HasResults_example :
    Returns
      (process_batch_range (numbering ∷ keep_large ∷ []) (some 1 ∷ some 13 ∷ some 7 ∷ []))
      (HasResults (some 1 ∷ some 13 ∷ some 7 ∷ []))
process_batch_range-HasResults_example =
    process_batch_range-HasResults (numbering ∷ keep_large ∷ []) (some 1 ∷ some 13 ∷ some 7 ∷ [])
      two_stages

-- The record on its own is a failure; in a batch it looks like the record that the filter dropped.
alone :
    (process_outcome (numbering ∷ []) 13 start).0
    ≡ ok (none, some (middleware_failure numbering 13 poison))
unfolding process_outcome process_range process_stage ◌>>=◌
alone = refl

in_batch :
    (process_batch_range (numbering ∷ keep_large ∷ []) (some 1 ∷ some 13 ∷ some 7 ∷ []) start).0
    ≡ ok (batch_results (none ∷ none ∷ some 8 ∷ []))
unfolding process_batch_range apply_in_batch apply_fast fast_loop ◌>>=◌
in_batch = refl
