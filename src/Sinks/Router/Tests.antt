-- ===== src/Sinks/Router/Tests.antt =====
-- A router over a sink that refuses a record and one that takes batches.
use mathlib.Core.Path.{subst}
use agora_etl.Prelude.{
  ℕ, ◌+◌, inl, inr, Bool-cases, Option, none, some, List, [], ◌∷◌, map, length, ltb, ◌==◌,
  if◌then◌else◌, ◌≡◌, refl, ap, arith,
}
use agora_etl.Failures.{Result, ok, runtime_error}
use agora_etl.Delivery.Types.{Value, WriteResult}
use agora_etl.Sinks.{
  BatchReturn, returned_none, Sink, repeat, write_ok_result, write_error, untouched, write_each,
  write_result_of, normalized, normalize_batch_write_results,
}
use agora_etl.Sinks.Router.{
  SinkRouter, write_batch, target, unique_sinks, grouped, write_groups, write_group, write_entries,
  write_entry,
}
use agora_etl.Sinks.Router.Batches.{BatchesEach, write_each_record, write_batch-write}

abbrev picky : Sink ℕ
picky = record {
  write = λ v n. (if v == 13 then some (runtime_error "refused") else none, n + 1);
  write_many = none;
}

abbrev count_all : List Value → ℕ → Result BatchReturn × ℕ
count_all vs n = (ok returned_none, length vs + n)

abbrev bulk : Sink ℕ
bulk = record { write = λ v n. (none, n + 1); write_many = some count_all }

abbrev sinks : ℕ → Sink ℕ
sinks i = if i == 0 then picky else bulk

picky_each : BatchesEach picky
picky_each = record { results = λ many h vs s. cc; state = λ many h vs s. cc }

abbrev from_some {ℓ} : {A : Type ℓ} → A → Option A → A
from_some a none = a
from_some a (some b) = b

each_ok :
    (vs : List Value) (s : ℕ)
    → repeat write_ok_result vs ≡ map write_result_of (write_each bulk vs s).0
unfolding write_each
each_ok [] s = refl
each_ok (v ∷ vs) s = ap (λ (l : List WriteResult). write_ok_result ∷ l) (each_ok vs (s + 1))

each_counted : (vs : List Value) (s : ℕ) → length vs + s ≡ (write_each bulk vs s).1
unfolding write_each
each_counted [] s = omega arith
each_counted (v ∷ vs) s = omega (arith, each_counted vs (s + 1))

bulk_each : BatchesEach bulk
unfolding normalize_batch_write_results
bulk_each = record {
  results = λ many h vs s.
      subst
        (λ (m : List Value → ℕ → Result BatchReturn × ℕ).
          normalized (m vs s).0 vs ≡ ok (map write_result_of (write_each bulk vs s).0))
        (ap (from_some count_all) h) (ap (λ (l : List WriteResult). ok l) (each_ok vs s));
  state = λ many h vs s.
      subst (λ (m : List Value → ℕ → Result BatchReturn × ℕ). (m vs s).1 ≡ (write_each bulk vs s).1)
        (ap (from_some count_all) h) (each_counted vs s);
}

sinks_each : (i : ℕ) → BatchesEach (sinks i)
sinks_each i = elim (Bool-cases (i == 0)) [
  | inl first ↦ simp (first) picky_each
  | inr other ↦ simp (other) bulk_each
]

-- Small records to the first sink, those below 100 to the second, and no default.
abbrev by_size : SinkRouter
by_size = record {
  routes =
      record { predicate = λ v. ltb v 20; sink = 0 }
      ∷ record { predicate = λ v. ltb v 100; sink = 1 }
      ∷ [];
  default = none;
}

abbrev records : List Value
records = 13 ∷ 50 ∷ 7 ∷ 200 ∷ 60 ∷ []

write_batch-write_example :
    write_batch sinks by_size records (λ i. 0) ≡ write_each_record sinks by_size records (λ i. 0)
write_batch-write_example = write_batch-write sinks by_size records (λ i. 0) sinks_each

-- The record that no route takes is neither written nor an error.
results_of_a_batch :
    (write_batch sinks by_size records (λ i. 0)).0
    ≡ write_error (runtime_error "refused")
      ∷ write_ok_result
      ∷ write_ok_result
      ∷ untouched
      ∷ write_ok_result
      ∷ []
unfolding write_batch grouped target write_groups write_group write_entries write_entry
    normalize_batch_write_results
results_of_a_batch = refl

sinks_once : unique_sinks (record by_size { default = some 1 }) ≡ 0 ∷ 1 ∷ []
unfolding unique_sinks
sinks_once = refl
