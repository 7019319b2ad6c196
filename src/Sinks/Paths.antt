-- ===== src/Sinks/Paths.antt =====
-- The fan-out's short cuts against its general path.
use agora_etl.Prelude.{
  ℕ, suc, ◌+◌, Option, none, some, List, [], ◌∷◌, map, length, ltb, length-map, length-append, ◌≡◌,
  refl, ap, ◌∙◌, arith,
}
use agora_etl.Failures.{Exc, Result, ok, err}
use agora_etl.Delivery.Types.{Value, WriteResult}
use agora_etl.Sinks.{
  BatchReturn, returned_none, returned_results, returned_other, Sink, repeat,
  normalize_batch_write_results, Answer, call_raised, write_results, record_errors, answer_of,
  normalized, write_result_of, add_error, merge_results, merge_errors, merge_answer, merge_answers,
  untouched, write_ok_result, write_error, write_each, write_batch_to_sink, run_sink_calls,
  write_batch_all, batch_results, write_batch_alone, write_batch, Tally, tally, write_to_all,
  no_writes, write,
}

length-repeat {ℓ} : {A : Type ℓ} (a : A) (vs : List Value) → length (repeat a vs) ≡ length vs
length-repeat a [] = refl
length-repeat a (v ∷ vs) = ap suc (length-repeat a vs)

merge_fresh :
    (rs : List WriteResult) (vs : List Value)
    → length rs ≡ length vs
    → merge_results rs (repeat untouched vs) ≡ rs
merge_fresh [] [] h = refl
merge_fresh [] (v ∷ vs) h = ground arith
merge_fresh (r ∷ rs) [] h = ground arith
merge_fresh (r ∷ rs) (v ∷ vs) h = ground (arith, merge_fresh rs vs)

raised_fresh :
    (e : Exc) (vs : List Value)
    → map (add_error (some e)) (repeat untouched vs) ≡ repeat (write_error e) vs
raised_fresh e [] = refl
raised_fresh e (v ∷ vs) = ap (λ rs. write_error e ∷ rs) (raised_fresh e vs)

normalize-length :
    (r : BatchReturn) (vs : List Value) (rs : List WriteResult)
    → normalize_batch_write_results r vs ≡ ok rs
    → length rs ≡ length vs
unfolding normalize_batch_write_results
normalize-length returned_none vs rs h = ground (arith, length-repeat write_ok_result vs)
normalize-length (returned_results as') vs rs h = ground arith
normalize-length returned_other vs rs h = ground arith

settled_fresh :
    (r : Result (List WriteResult)) (vs : List Value)
    → ((rs : List WriteResult) → r ≡ ok rs → length rs ≡ length vs)
    → merge_answer (answer_of r) (repeat untouched vs) ≡ batch_results r vs
unfolding merge_answer
settled_fresh (ok rs) vs h = merge_fresh rs vs (h rs refl)
settled_fresh (err e) vs h = raised_fresh e vs

normalized-length :
    (r : Result BatchReturn) (vs : List Value) (rs : List WriteResult)
    → normalized r vs ≡ ok rs
    → length rs ≡ length vs
normalized-length (ok r) vs rs h = normalize-length r vs rs h
normalized-length (err e) vs rs h = ground arith

each_fresh :
    (es : List (Option Exc)) (vs : List Value)
    → length es ≡ length vs
    → merge_errors es (repeat untouched vs) ≡ map write_result_of es
each_fresh [] [] h = refl
each_fresh [] (v ∷ vs) h = ground arith
each_fresh (e ∷ es) [] h = ground arith
each_fresh (none ∷ es) (v ∷ vs) h = ground (arith, each_fresh es vs)
each_fresh (some e ∷ es) (v ∷ vs) h = ground (arith, each_fresh es vs)

merge_results-length : (as' rs : List WriteResult) → length (merge_results as' rs) ≡ length rs
merge_results-length [] rs = refl
merge_results-length (a ∷ as') [] = refl
merge_results-length (a ∷ as') (r ∷ rs) = ap suc (merge_results-length as' rs)

merge_errors-length :
    (es : List (Option Exc)) (rs : List WriteResult) → length (merge_errors es rs) ≡ length rs
merge_errors-length [] rs = refl
merge_errors-length (e ∷ es) [] = refl
merge_errors-length (e ∷ es) (r ∷ rs) = ap suc (merge_errors-length es rs)

merge_answer-length : (a : Answer) (rs : List WriteResult) → length (merge_answer a rs) ≡ length rs
unfolding merge_answer
merge_answer-length (call_raised e) rs = length-map rs (add_error (some e))
merge_answer-length (write_results as') rs = merge_results-length as' rs
merge_answer-length (record_errors es) rs = merge_errors-length es rs

merge_answers-length :
    (as' : List Answer) (rs : List WriteResult) → length (merge_answers as' rs) ≡ length rs
merge_answers-length [] rs = refl
merge_answers-length (a ∷ as') rs =
    merge_answers-length as' (merge_answer a rs) ∙ merge_answer-length a rs

tally-count :
    (e : Option Exc) (t : Tally)
    → (tally e t).successful_writes + length (tally e t).errors
      ≡ t.successful_writes + length t.errors + 1
tally-count none t = omega arith
tally-count (some e) t = omega (arith, length-append t.errors (e ∷ []))

alone_written :
    (e : Option Exc) → (write_result_of e).written ≡ ltb (length (write_result_of e).errors) 1
alone_written none = refl
alone_written (some e) = refl

all_written :
    (t : Tally) (n : ℕ)
    → t.successful_writes + length t.errors ≡ n
    → ltb 0 t.successful_writes ≡ ltb (length t.errors) n
all_written t n h = ground arith

module _ {S : Type 0} where
  write_each-length :
      (k : Sink S) (vs : List Value) (s : S) → length (write_each k vs s).0 ≡ length vs
  unfolding write_each
  write_each-length k [] s = refl
  write_each-length k (v ∷ vs) s = ap suc (write_each-length k vs (k.write v s).1)

  alone_lem :
      (many : Option (List Value → S → Result BatchReturn × S)) (k : Sink S) (vs : List Value)
      (s : S)
      → k.write_many ≡ many
      → write_batch_alone many k vs s ≡ write_batch_all (k ∷ []) vs s
  unfolding write_batch_alone write_batch_all run_sink_calls write_batch_to_sink merge_answer
  alone_lem none k vs s h =
      simp (h, each_fresh (write_each k vs s).0 vs (write_each-length k vs s)) refl
  alone_lem (some many) k vs s h =
      let r = (many vs s).0 in
      simp (h, settled_fresh (normalized r vs) vs (normalized-length r vs)) refl

  -- The short cuts of `write_batch` for a fan-out of one sink change nothing: for any non-empty batch
  -- the results, and what the sinks' calls do to their state, are those of the path for many sinks.
  pub write_batch_general :
      (sinks : List (Sink S)) (v : Value) (vs : List Value) (s : S)
      → write_batch sinks (v ∷ vs) s ≡ write_batch_all sinks (v ∷ vs) s
  unfolding write_batch
  write_batch_general [] v vs s = refl
  write_batch_general (k ∷ []) v vs s = alone_lem k.write_many k (v ∷ vs) s refl
  write_batch_general (k ∷ l ∷ ks) v vs s = refl

  write_batch_all-length :
      (sinks : List (Sink S)) (vs : List Value) (s : S)
      → length (write_batch_all sinks vs s).0 ≡ length vs
  unfolding write_batch_all
  write_batch_all-length sinks vs s =
      merge_answers-length (run_sink_calls sinks vs s).0 (repeat untouched vs)
      ∙ length-repeat untouched vs

  -- Whatever the sinks return or raise, `write_batch` gives one result for each record, which is what
  -- the delivery engine asks of a writer before it commits a batch.
  pub write_batch-length :
      (sinks : List (Sink S)) (vs : List Value) (s : S)
      → length (write_batch sinks vs s).0 ≡ length vs
  unfolding write_batch
  write_batch-length sinks [] s = refl
  write_batch-length sinks (v ∷ vs) s =
      ap (λ r. length r.0) (write_batch_general sinks v vs s)
      ∙ write_batch_all-length sinks (v ∷ vs) s

  write_to_all-count :
      (sinks : List (Sink S)) (v : Value) (t : Tally) (s : S)
      → (write_to_all sinks v t s).0.successful_writes + length (write_to_all sinks v t s).0.errors
        ≡ t.successful_writes + length t.errors + length sinks
  unfolding write_to_all
  write_to_all-count [] v t s = omega arith
  write_to_all-count (k ∷ ks) v t s =
      let (e, s') = k.write v s in
      omega (arith, write_to_all-count ks v (tally e t) s', tally-count e t)

  -- One record to all sinks: it counts as written exactly if fewer sinks raised than there are, and
  -- every exception is kept. So a record that no sink took carries one error for each sink.
  pub write-written :
      (sinks : List (Sink S)) (v : Value) (s : S)
      → (write sinks v s).0.written ≡ ltb (length (write sinks v s).0.errors) (length sinks)
  unfolding write
  write-written [] v s = all_written _ 0 (write_to_all-count [] v no_writes s)
  write-written (k ∷ []) v s = alone_written (k.write v s).0
  write-written (k ∷ l ∷ ks) v s =
      all_written _ (length (k ∷ l ∷ ks))
        (omega (arith, write_to_all-count (k ∷ l ∷ ks) v no_writes s))
