-- ===== src/Sinks/Tests.antt =====
-- The fan-out's theorems at concrete inputs.
use agora_etl.Prelude.{ℕ, ◌+◌, ◌==◌, none, some, [], ◌∷◌, length, ltb, if◌then◌else◌, ◌≡◌, refl}
use agora_etl.Failures.{Exc, runtime_error, ok}
use agora_etl.Sinks.{
  returned_none, Sink, write_batch, write_batch_all, write_error, write_ok_result, write,
  write_each, write_batch_alone,
}
use agora_etl.Sinks.Paths.{write_batch_general, write_batch-length, write-written}

abbrev refusal : Exc
refusal = runtime_error "refused"

-- It counts its calls and refuses record 13; it has no native `write_batch`.
abbrev picky : Sink ℕ
picky = record { write = λ v n. (if v == 13 then some refusal else none, n + 1); write_many = none }

-- It takes whole batches.
abbrev bulk : Sink ℕ
bulk = record {
  write = λ v n. (none, n + 1);
  write_many = some (λ vs n. (ok returned_none, n + 1));
}

-- The loop of a sink that is alone, run: the second of two records is refused.
write_batch-picky :
    write_batch (picky ∷ []) (12 ∷ 13 ∷ []) 0 ≡ (write_ok_result ∷ write_error refusal ∷ [], 2)
unfolding write_batch write_batch_alone write_each
write_batch-picky = refl

write_batch_general_example :
    write_batch (picky ∷ []) (12 ∷ 13 ∷ []) 0 ≡ write_batch_all (picky ∷ []) (12 ∷ 13 ∷ []) 0
write_batch_general_example = write_batch_general (picky ∷ []) 12 (13 ∷ []) 0

both_sinks_answer : length (write_batch (picky ∷ bulk ∷ []) (12 ∷ 13 ∷ []) 0).0 ≡ 2
both_sinks_answer = write_batch-length (picky ∷ bulk ∷ []) (12 ∷ 13 ∷ []) 0

one_sink_is_enough :
    (write (picky ∷ bulk ∷ []) 13 0).0.written
    ≡ ltb (length (write (picky ∷ bulk ∷ []) 13 0).0.errors) 2
one_sink_is_enough = write-written (picky ∷ bulk ∷ []) 13 0
