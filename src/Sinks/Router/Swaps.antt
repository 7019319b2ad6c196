-- ===== src/Sinks/Router/Swaps.antt =====
-- Writes of records to different sinks can change places.
use mathlib.Core.Path.{fun_ext}
use agora_etl.Prelude.{
  ℕ, ◌<◌, inl, inr, Bool-cases, Bool, true, false, List, [], ◌∷◌, ◌++◌, ◌==◌, ==_iff, if◌then◌else◌,
  ◌≡◌, refl, sym, ap, ◌∙◌, arith,
}
use agora_etl.Delivery.Types.{Value}
use agora_etl.Sinks.{Sink, add_error}
use agora_etl.Sinks.Router.{
  update, Entry, Groups, add_entry, Board, write_entry, write_entries, write_group, write_groups,
}

update_comm {ℓ} :
    {A : Type ℓ} (i j : ℕ) (a b : A) (f : ℕ → A)
    → (i == j) ≡ false
    → update i a (update j b f) ≡ update j b (update i a f)
update_comm i j a b f apart = fun_ext λ k. ground (arith, apart)

pub update_other {ℓ} :
    {A : Type ℓ} (i j : ℕ) (a : A) (f : ℕ → A) → (i == j) ≡ false → update i a f j ≡ f j
update_other i j a f apart = ground (arith, apart)

-- The sinks of the groups, and that none has two groups.
abbrev pub in_groups : ℕ → Groups → Bool
in_groups i [] = false
in_groups i ((j, es) ∷ gs) = if j == i then true else in_groups i gs

abbrev pub IsGrouped : Groups → Type 0
IsGrouped [] = Unit {0}
IsGrouped ((i, es) ∷ gs) = (in_groups i gs ≡ false) × IsGrouped gs

abbrev pub AllBelow : ℕ → List Entry → Type 0
AllBelow n [] = Unit {0}
AllBelow n ((m, v) ∷ es) = (m < n) × AllBelow n es

abbrev pub GroupsBelow : ℕ → Groups → Type 0
GroupsBelow n [] = Unit {0}
GroupsBelow n ((i, es) ∷ gs) = AllBelow n es × GroupsBelow n gs

module _ {S : Type 0} (sinks : ℕ → Sink S) where
  -- Records of two sinks with two indices.
  write_entry_comm :
      (i j n m : ℕ) (v u : Value) (b : Board S)
      → (i == j) ≡ false
      → m < n
      → write_entry sinks i (n, v) (write_entry sinks j (m, u) b)
        ≡ write_entry sinks j (m, u) (write_entry sinks i (n, v) b)
  unfolding write_entry
  write_entry_comm i j n m v u b apart lt =
      let apart' : (j == i) ≡ false = ground (arith, apart) in
      let later : (n == m) ≡ false = ground (arith, lt) in
      let later' : (m == n) ≡ false = ground (arith, lt) in
      let (e, s) = (sinks i).write v (b.states i) in
      let (f, t) = (sinks j).write u (b.states j) in
      simp (apart, apart', later, later')
        (λ k. record {
          states = update_comm i j s t b.states apart k;
          results =
              update_comm n m (add_error e (b.results n)) (add_error f (b.results m)) b.results
                later k;
        })

  -- An entry of another sink can wait for a whole group, and for all groups.
  entries_comm :
      (i j n : ℕ) (v : Value) (es : List Entry) (b : Board S)
      → (i == j) ≡ false
      → AllBelow n es
      → write_entry sinks i (n, v) (write_entries sinks j es b)
        ≡ write_entries sinks j es (write_entry sinks i (n, v) b)
  unfolding write_entries
  entries_comm i j n v [] b apart lt = refl
  entries_comm i j n v ((m, u) ∷ es) b apart lt =
      entries_comm i j n v es (write_entry sinks j (m, u) b) apart lt.1
      ∙ ap (write_entries sinks j es) (write_entry_comm i j n m v u b apart lt.0)

  entries-append :
      (i : ℕ) (e : Entry) (es : List Entry) (b : Board S)
      → write_entries sinks i (es ++ e ∷ []) b ≡ write_entry sinks i e (write_entries sinks i es b)
  unfolding write_entries
  entries-append i e [] b = refl
  entries-append i e (d ∷ es) b = entries-append i e es (write_entry sinks i d b)

  -- Every group is written entry by entry.
  module _
      (by_entries : (i : ℕ) (es : List Entry) (b : Board S)
        → write_group sinks i es b ≡ write_entries sinks i es b) where
    groups_comm :
        (i n : ℕ) (v : Value) (gs : Groups) (b : Board S)
        → in_groups i gs ≡ false
        → GroupsBelow n gs
        → write_entry sinks i (n, v) (write_groups sinks gs b)
          ≡ write_groups sinks gs (write_entry sinks i (n, v) b)
    unfolding write_groups
    groups_comm i n v [] b out lt = refl
    groups_comm i n v ((j, es) ∷ gs) b out lt = elim (Bool-cases (j == i)) [
      | inl same ↦ absurd_of (ground (arith, same, out))
      | inr other ↦
          groups_comm i n v gs (write_group sinks j es b) (ground (arith, other, out)) lt.1
          ∙ ap (write_groups sinks gs) (
              ap (write_entry sinks i (n, v)) (by_entries j es b)
              ∙ entries_comm i j n v es b (ground (arith, other)) lt.0
              ∙ sym (by_entries j es (write_entry sinks i (n, v) b)))
    ]
      where
        absurd_of :
            true ≡ false
            → write_entry sinks i (n, v) (write_groups sinks ((j, es) ∷ gs) b)
              ≡ write_groups sinks ((j, es) ∷ gs) (write_entry sinks i (n, v) b)
        absurd_of h = cc

    pub add_entry-write :
        (i n : ℕ) (v : Value) (gs : Groups) (b : Board S)
        → IsGrouped gs
        → GroupsBelow n gs
        → write_groups sinks (add_entry i (n, v) gs) b
          ≡ write_entry sinks i (n, v) (write_groups sinks gs b)
    unfolding write_groups
    add_entry-write i n v [] b g lt = by_entries i ((n, v) ∷ []) b ∙ one
      where
        one : write_entries sinks i ((n, v) ∷ []) b ≡ write_entry sinks i (n, v) b
        one = unfold write_entries in refl
    add_entry-write i n v ((j, es) ∷ gs) b g lt = elim (Bool-cases (j == i)) [
      | inl same ↦ simp (same) (
          ap (write_groups sinks gs) (
            by_entries j (es ++ (n, v) ∷ []) b
            ∙ entries-append j (n, v) es b
            ∙ ap (write_entry sinks j (n, v)) (sym (by_entries j es b)))
          ∙ sym (groups_comm j n v gs (write_group sinks j es b) g.0 lt.1)
          ∙ ap
              (λ (k : ℕ).
                write_entry sinks k (n, v) (write_groups sinks gs (write_group sinks j es b)))
              ((==_iff j i).0 same))
      | inr other ↦ simp (other) (add_entry-write i n v gs (write_group sinks j es b) g.1 lt.1)
    ]
