-- ===== src/Sinks/Router/Groups.antt =====
-- To write by groups is to write entry by entry in the order of the records.
use agora_etl.Prelude.{
  ℕ, suc, ◌≤◌, ◌<◌, inl, inr, Bool-cases, false, Option, none, some, List, [], ◌∷◌, ◌++◌, ◌==◌, ◌≡◌,
  refl, ap, ◌∙◌, arith,
}
use agora_etl.Delivery.Types.{Value}
use agora_etl.Sinks.{Sink, add_error}
use agora_etl.Sinks.Router.Swaps.{
  in_groups, IsGrouped, AllBelow, GroupsBelow, add_entry-write, update_other,
}
use agora_etl.Sinks.Router.{
  SinkRouter, target, Entry, Groups, add_entry, add_to, grouped, Board, write_entry, write_entries,
  write_group, write_groups,
}

below_later : (n m : ℕ) (es : List Entry) → n ≤ m → AllBelow n es → AllBelow m es
below_later n m [] h a = tt
below_later n m ((k, v) ∷ es) h a = (omega (arith, h, a.0), below_later n m es h a.1)

groups_later : (n m : ℕ) (gs : Groups) → n ≤ m → GroupsBelow n gs → GroupsBelow m gs
groups_later n m [] h a = tt
groups_later n m ((i, es) ∷ gs) h a = (below_later n m es h a.0, groups_later n m gs h a.1)

below-append :
    (n : ℕ) (v : Value) (es : List Entry) → AllBelow n es → AllBelow (suc n) (es ++ (n, v) ∷ [])
below-append n v [] a = (omega arith, tt)
below-append n v ((m, u) ∷ es) a = (omega (arith, a.0), below-append n v es a.1)

add_entry-GroupsBelow :
    (i n : ℕ) (v : Value) (gs : Groups)
    → GroupsBelow n gs
    → GroupsBelow (suc n) (add_entry i (n, v) gs)
add_entry-GroupsBelow i n v [] a = ((omega arith, tt), tt)
add_entry-GroupsBelow i n v ((j, es) ∷ gs) a = elim (Bool-cases (j == i)) [
  | inl same ↦ simp (same) (below-append n v es a.0, groups_later n (suc n) gs (omega arith) a.1)
  | inr other ↦
      simp (other) (below_later n (suc n) es (omega arith) a.0, add_entry-GroupsBelow i n v gs a.1)
]

in_groups-add_entry :
    (i j : ℕ) (e : Entry) (gs : Groups)
    → (i == j) ≡ false
    → in_groups j gs ≡ false
    → in_groups j (add_entry i e gs) ≡ false
in_groups-add_entry i j e [] d h = ground (arith, d)
in_groups-add_entry i j e ((k, es) ∷ gs) d h = ground (arith, d, h, in_groups-add_entry i j e gs)

add_entry-IsGrouped :
    (i : ℕ) (e : Entry) (gs : Groups) → IsGrouped gs → IsGrouped (add_entry i e gs)
add_entry-IsGrouped i e [] g = (refl, tt)
add_entry-IsGrouped i e ((j, es) ∷ gs) g = elim (Bool-cases (j == i)) [
  | inl same ↦ simp (same) g
  | inr other ↦
      simp (other)
        (in_groups-add_entry i j e gs (ground (arith, other)) g.0, add_entry-IsGrouped i e gs g.1)
]

module _ {S : Type 0} (sinks : ℕ → Sink S) where
  abbrev pub write_next : Option ℕ → ℕ → Value → Board S → Board S
  write_next none n v b = b
  write_next (some i) n v b = write_entry sinks i (n, v) b

  -- The records from an index on, each to its sink as it comes.
  abbrev pub write_in_turn : SinkRouter → ℕ → List Value → Board S → Board S
  write_in_turn r n [] b = b
  write_in_turn r n (v ∷ vs) b = write_in_turn r (suc n) vs (write_next (target r v) n v b)

  module _
      (by_entries : (i : ℕ) (es : List Entry) (b : Board S)
        → write_group sinks i es b ≡ write_entries sinks i es b) where
    pub grouped-write :
        (r : SinkRouter) (n : ℕ) (vs : List Value) (gs : Groups) (b : Board S)
        → IsGrouped gs
        → GroupsBelow n gs
        → write_groups sinks (grouped r n vs gs) b ≡ write_in_turn r n vs (write_groups sinks gs b)
    unfolding grouped
    grouped-write r n [] gs b g lt = refl
    grouped-write r n (v ∷ vs) gs b g lt =
        next (target r v) (λ gs2 g2 lt2. grouped-write r (suc n) vs gs2 b g2 lt2)
      where
        next :
            (o : Option ℕ)
            → ((gs2 : Groups)
                → IsGrouped gs2
                → GroupsBelow (suc n) gs2
                → write_groups sinks (grouped r (suc n) vs gs2) b
                  ≡ write_in_turn r (suc n) vs (write_groups sinks gs2 b))
            → write_groups sinks (grouped r (suc n) vs (add_to o (n, v) gs)) b
              ≡ write_in_turn r (suc n) vs (write_next o n v (write_groups sinks gs b))
        next none ih = ih gs g (groups_later n (suc n) gs (omega arith) lt)
        next (some i) ih =
            ih (add_entry i (n, v) gs) (add_entry-IsGrouped i (n, v) gs g)
              (add_entry-GroupsBelow i n v gs lt)
            ∙ ap (write_in_turn r (suc n) vs) (add_entry-write sinks by_entries i n v gs b g lt)

  -- What is known of the records before an index is kept.
  pub in_turn_before :
      (r : SinkRouter) (n m : ℕ) (vs : List Value) (b : Board S)
      → m < n
      → (write_in_turn r n vs b).results m ≡ b.results m
  in_turn_before r n m [] b lt = refl
  in_turn_before r n m (v ∷ vs) b lt =
      in_turn_before r (suc n) m vs (write_next (target r v) n v b) (omega (arith, lt))
      ∙ here (target r v)
    where
      here : (o : Option ℕ) → (write_next o n v b).results m ≡ b.results m
      here none = refl
      here (some i) =
          unfold write_entry in
          update_other n m (add_error ((sinks i).write v (b.states i)).0 (b.results n)) b.results
            (ground (arith, lt))
