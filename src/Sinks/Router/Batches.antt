-- ===== src/Sinks/Router/Batches.antt =====
-- To write a batch by sinks is to write its records one by one.
use mathlib.Core.Path.{fun_ext}
use agora_etl.Prelude.{
  ℕ, suc, ◌≤◌, ◌<◌, true, Option, none, some, List, [], ◌∷◌, ◌++◌, map, length, ◌≡◌, refl, sym, ap,
  ◌∙◌, arith,
}
use agora_etl.Failures.{Exc, Result, ok}
use agora_etl.Delivery.Types.{Value, WriteResult}
use agora_etl.Sinks.{
  Sink, BatchReturn, normalized, write_each, add_error, add_result, untouched, write_result_of,
}
use agora_etl.Sinks.Router.Groups.{write_next, write_in_turn, grouped-write, in_turn_before}
use agora_etl.Sinks.Router.{
  SinkRouter, target, update, Entry, Board, collect, values_of, add_results, write_entry,
  write_entries, write_group, write_group_in, add_answer, write_groups, collected, write_batch,
  write_to, write,
}

-- A native `write_batch` does what its sink does record by record.
pub record BatchesEach {S : Type 0} (k : Sink S) : Type 0 where
  pub results :
      (many : List Value → S → Result BatchReturn × S)
      → k.write_many ≡ some many
      → (vs : List Value) (s : S)
      → normalized (many vs s).0 vs ≡ ok (map write_result_of (write_each k vs s).0)
  pub state :
      (many : List Value → S → Result BatchReturn × S)
      → k.write_many ≡ some many
      → (vs : List Value) (s : S) → (many vs s).1 ≡ (write_each k vs s).1

append-nil : (xs : List Exc) → xs ++ [] ≡ xs
append-nil [] = refl
append-nil (x ∷ xs) = ap (λ (l : List Exc). x ∷ l) (append-nil xs)

add_result-add_error :
    (e : Option Exc) (r : WriteResult) → add_result (write_result_of e) r ≡ add_error e r
add_result-add_error none r = λ k. record { written = true; errors = append-nil r.errors k }
add_result-add_error (some x) r = refl

update_self : {S : Type 0} (i : ℕ) (f : ℕ → S) → update i (f i) f ≡ f
update_self i f = fun_ext λ j. ground (arith, ap f)

update_twice : {S : Type 0} (i : ℕ) (a b : S) (f : ℕ → S) → update i b (update i a f) ≡ update i b f
update_twice i a b f = fun_ext λ j. ground arith

update_at : {S : Type 0} (i : ℕ) (a : S) (f : ℕ → S) → update i a f i ≡ a
update_at i a f = ground arith

update_away : {A : Type 0} (i j : ℕ) (a : A) (f : ℕ → A) → i < j → update i a f j ≡ f j
update_away i j a f lt = ground (arith, lt)

length-write_each :
    {S : Type 0} (k : Sink S) (vs : List Value) (s : S) → length (write_each k vs s).0 ≡ length vs
unfolding write_each
length-write_each k [] s = refl
length-write_each k (v ∷ vs) s = ap suc (length-write_each k vs (k.write v s).1)

module _ {S : Type 0} (sinks : ℕ → Sink S) where
  -- One record after the other, with `write`.
  abbrev pub write_each_record : SinkRouter → List Value → (ℕ → S) → List WriteResult × (ℕ → S)
  write_each_record r [] states = ([], states)
  write_each_record r (v ∷ vs) states =
      let (w, states') = write sinks r v states in
      let (ws, states'') = write_each_record r vs states' in (w ∷ ws, states'')

  entries_each :
      (i : ℕ) (es : List Entry) (b : Board S)
      → write_entries sinks i es b ≡ record {
        states = update i (write_each (sinks i) (values_of es) (b.states i)).1 b.states;
        results =
            add_results es
              (map write_result_of (write_each (sinks i) (values_of es) (b.states i)).0)
              b.results;
      }
  unfolding write_entries write_each write_entry
  entries_each i [] b = λ k. record { states = sym (update_self i b.states) k; results = b.results }
  entries_each i ((n, v) ∷ es) b = entries_each i es (write_entry sinks i (n, v) b) ∙ λ k. record {
    states = states k;
    results = results k;
  }
    where
      wrote_one : Option Exc × S
      wrote_one = (sinks i).write v (b.states i)

      new : ℕ → S
      new = update i wrote_one.1 b.states

      states :
          update i (write_each (sinks i) (values_of es) (new i)).1 new
          ≡ update i (write_each (sinks i) (values_of es) wrote_one.1).1 b.states
      states =
          ap (λ (t : S). update i (write_each (sinks i) (values_of es) t).1 new)
            (update_at i wrote_one.1 b.states)
          ∙ update_twice i wrote_one.1 (write_each (sinks i) (values_of es) wrote_one.1).1 b.states

      results :
          add_results es
            (map write_result_of (write_each (sinks i) (values_of es) (new i)).0)
            (update n (add_error wrote_one.0 (b.results n)) b.results)
          ≡ add_results es
              (map write_result_of (write_each (sinks i) (values_of es) wrote_one.1).0)
              (update n (add_result (write_result_of wrote_one.0) (b.results n)) b.results)
      results =
          ap
            (λ (t : S).
              add_results es (map write_result_of (write_each (sinks i) (values_of es) t).0)
                (update n (add_error wrote_one.0 (b.results n)) b.results))
            (update_at i wrote_one.1 b.states)
          ∙ ap
              (λ (w : WriteResult).
                add_results es
                  (map write_result_of (write_each (sinks i) (values_of es) wrote_one.1).0)
                  (update n w b.results))
              (sym (add_result-add_error wrote_one.0 (b.results n)))

  by_entries :
      ((j : ℕ) → BatchesEach (sinks j))
      → (i : ℕ) (es : List Entry) (b : Board S)
      → write_group sinks i es b ≡ write_entries sinks i es b
  unfolding write_group
  by_entries laws i es b = native (sinks i).write_many refl
    where
      native :
          (many : Option (List Value → S → Result BatchReturn × S))
          → (sinks i).write_many ≡ many
          → write_group_in sinks many i es b ≡ write_entries sinks i es b
      native none h = refl
      native (some many) h =
          (λ k. record {
            states = update i ((laws i).state many h (values_of es) (b.states i) k) b.states;
            results =
                add_answer es ((laws i).results many h (values_of es) (b.states i) k) b.results;
          })
          ∙ sym (entries_each i es b)

  -- From a board on which nothing is known of the records to come.
  record SameAsEach (r : SinkRouter) (n : ℕ) (vs : List Value) (b : Board S) : Type 0 where
    results :
        collect n vs (write_in_turn sinks r n vs b).results ≡ (write_each_record r vs b.states).0
    states : (write_in_turn sinks r n vs b).states ≡ (write_each_record r vs b.states).1

  abbrev IsUnknown : ℕ → Board S → Type 0
  IsUnknown n b = (m : ℕ) → n ≤ m → b.results m ≡ untouched

  next-IsUnknown :
      (o : Option ℕ) (n : ℕ) (v : Value) (b : Board S)
      → IsUnknown n b
      → IsUnknown (suc n) (write_next sinks o n v b)
  unfolding write_entry
  next-IsUnknown none n v b h m le = h m (omega (arith, le))
  next-IsUnknown (some i) n v b h m le =
      update_away n m (add_error ((sinks i).write v (b.states i)).0 (b.results n)) b.results
        (omega (arith, le))
      ∙ h m (omega (arith, le))

  next_states :
      (o : Option ℕ) (n : ℕ) (v : Value) (b : Board S)
      → (write_next sinks o n v b).states ≡ (write_to sinks o v b.states).1
  unfolding write_entry
  next_states none n v b = refl
  next_states (some i) n v b = refl

  next_result :
      (o : Option ℕ) (n : ℕ) (v : Value) (b : Board S)
      → b.results n ≡ untouched
      → (write_next sinks o n v b).results n ≡ (write_to sinks o v b.states).0
  unfolding write_entry
  next_result none n v b h = h
  next_result (some i) n v b h =
      update_at n (add_error ((sinks i).write v (b.states i)).0 (b.results n)) b.results
      ∙ ap (add_error ((sinks i).write v (b.states i)).0) h
      ∙ first_error ((sinks i).write v (b.states i)).0
    where
      first_error : (e : Option Exc) → add_error e untouched ≡ write_result_of e
      first_error none = refl
      first_error (some x) = refl

  in_turn_each :
      (r : SinkRouter) (n : ℕ) (vs : List Value) (b : Board S) → IsUnknown n b → SameAsEach r n vs b
  unfolding write
  in_turn_each r n [] b h = record { results = refl; states = refl }
  in_turn_each r n (v ∷ vs) b h =
      let b1 = write_next sinks (target r v) n v b in
      let rest = in_turn_each r (suc n) vs b1 (next-IsUnknown (target r v) n v b h) in
      let same : b1.states ≡ (write_to sinks (target r v) v b.states).1 =
        next_states (target r v) n v b in
      record {
        results =
            ap
              (λ (w : WriteResult).
                w ∷ collect (suc n) vs (write_in_turn sinks r (suc n) vs b1).results)
              (in_turn_before sinks r (suc n) n vs b1 (omega arith)
                ∙ next_result (target r v) n v b (h n (omega arith)))
            ∙ ap (λ (ws : List WriteResult). (write_to sinks (target r v) v b.states).0 ∷ ws)
                (rest.results ∙ ap (λ (f : ℕ → S). (write_each_record r vs f).0) same);
        states = rest.states ∙ ap (λ (f : ℕ → S). (write_each_record r vs f).1) same;
      }

  -- Where every native `write_batch` of a sink does what the sink does record by record, the router's
  -- `write_batch`, which hands every sink its records together, gives the results of writing the
  -- records one after the other with `write`, in their order, and leaves every sink in the same state.
  pub write_batch-write :
      (r : SinkRouter) (vs : List Value) (states : ℕ → S)
      → ((i : ℕ) → BatchesEach (sinks i))
      → write_batch sinks r vs states ≡ write_each_record r vs states
  unfolding write_batch write_groups
  write_batch-write r vs states laws =
      let start : Board S = record { states = states; results = λ n. untouched } in
      let same = in_turn_each r 0 vs start (λ m le. refl) in
      ap (collected sinks vs) (grouped-write sinks (by_entries laws) r 0 vs [] start tt tt) ∙ λ k.
      (same.results k, same.states k)
