-- ===== src/Membership/Keys.antt =====
-- A namespace puts one prefix before every key.
use Prim.Native.String.{String, ◌++◌}
use text.Mathlib.Text.{◌==◌}
use text.Mathlib.TextEquality.{eq_iff}
use text.Mathlib.TextLemmas.{append_cancel_left}
use agora_etl.Prelude.{true, inl, inr, Bool-cases, ◌≡◌, sym, ap, ◌∙◌, arith}
use agora_etl.Membership.{MembershipKeyStore, prefix, full_key}

-- Keys differ in a namespace as they differ outside.
pub full_key-eq :
    (s : MembershipKeyStore) (k j : String) → (full_key s k == full_key s j) ≡ (k == j)
unfolding full_key
full_key-eq s k j = elim (Bool-cases (k == j)) [
  | inl same ↦
      (eq_iff (prefix s ++ k) (prefix s ++ j)).1
        (ap (λ (x : String). prefix s ++ x) ((eq_iff k j).0 same))
      ∙ sym same
  | inr other ↦ elim (Bool-cases (prefix s ++ k == prefix s ++ j)) [
    | inl same ↦
        let back : (k == j) ≡ true =
          (eq_iff k j).1
            (append_cancel_left (prefix s) k j ((eq_iff (prefix s ++ k) (prefix s ++ j)).0 same)) in
        ground (arith, other, back)
    | inr apart ↦ apart ∙ sym other
  ]
]
