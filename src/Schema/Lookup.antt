-- ===== src/Schema/Lookup.antt =====
-- The merged columns by name, under EVOLVE.
use agora_etl.Prelude.{
  ℕ, false, Option, none, some, List, [], ◌∷◌, ◌==◌, if◌then◌else◌, ◌≡◌, refl, sym, ap, ◌∙◌, arith,
}
use mathlib.Core.Path.{subst}
use agora_etl.Schema.{string, widen_type, Column, Columns, get_column, set_column}
use agora_etl.Schema.Evolution.{
  evolve, SchemaChange, Schema, Evolve, resume, record_change, merged_column, merge_with,
  merge_existing, add_unless, handle_new_column, merge_added, merge_columns, merge,
}
use agora_etl.Schema.Widening.{get_column-set_column, get_column_same}
use agora_etl.Schema.Merging.{departs, merge_column-widen_type}

-- A dictionary has each key once.
abbrev pub IsDict : Columns → Type 0
IsDict [] = Unit {0}
IsDict ((n, c) ∷ cs) = (get_column n cs ≡ none) × IsDict cs

-- What a name stands for after the merge, from what it stood for in both schemas.
abbrev pub kept : Column → Option Column → Column
kept old none = old
kept old (some new) =
    merged_column
      (if departs old.data_type new.data_type
        then string
        else widen_type old.data_type new.data_type)
      old new

abbrev pub merged_lookup : Option Column → Option Column → Option Column
merged_lookup none new = new
merged_lookup (some old) new = some (kept old new)

merge_with_lem :
    (new : Option Column) (old : Column) (ch : List SchemaChange)
    → (merge_with evolve new old ch).0 ≡ some (kept old new)
merge_with_lem none old ch = refl
merge_with_lem (some new) old ch = merge_column-widen_type evolve old new ch refl

-- The first loop: a name of the rest of the old columns, or what was merged before.
abbrev over : Columns → ℕ → Option Column → Option Column → Option Column
over new n none before = before
over new n (some old) before = some (kept old (get_column n new))

abbrev Gives : Option Columns → (ℕ → Option Column) → Type 0
Gives none f = ⊥
Gives (some m) f = (n : ℕ) → get_column n m ≡ f n

resume-Gives :
    {A : Type 0} (r : Option A × List SchemaChange) (a : A) (k : A → Evolve Columns)
    (f : ℕ → Option Column)
    → r.0 ≡ some a
    → Gives (k a r.1).0 f
    → Gives (resume r.0 k r.1).0 f
resume-Gives (r, ch) a k f same h = subst (λ o. Gives (resume o k ch).0 f) (sym same) h

Gives-other :
    (o : Option Columns) (f f' : ℕ → Option Column)
    → ((n : ℕ) → f n ≡ f' n)
    → Gives o f
    → Gives o f'
Gives-other none f f' same h = h
Gives-other (some m) f f' same h = λ n. h n ∙ same n

over_step :
    (new merged cs : Columns) (k n : ℕ) (c : Column)
    → get_column k cs ≡ none
    → over new n (get_column n cs) (get_column n (set_column k (kept c (get_column k new)) merged))
      ≡ over new n (get_column n ((k, c) ∷ cs)) (get_column n merged)
over_step new merged cs k n c fresh =
    simp (get_column-set_column n k (kept c (get_column k new)) merged)
      (ground (arith, fresh, get_column_same n k cs, get_column_same n k new))

merge_existing-Gives :
    (cs new merged : Columns) (ch : List SchemaChange)
    → IsDict cs
    → Gives
        (merge_existing evolve cs new merged ch).0
        (λ n. over new n (get_column n cs) (get_column n merged))
unfolding merge_existing
merge_existing-Gives [] new merged ch h = λ n. refl
merge_existing-Gives ((k, c) ∷ cs) new merged ch (fresh, h) =
    resume-Gives (merge_with evolve (get_column k new) c ch) (kept c (get_column k new)) _ _
      (merge_with_lem (get_column k new) c ch)
      (Gives-other _ _ _ (λ n. over_step new merged cs k n c fresh)
        (merge_existing-Gives cs new (set_column k (kept c (get_column k new)) merged) _ h))

-- The second loop: a new name is added, a name that the old columns have is passed over.
abbrev added : Option Column → Option Column → Option Column → Option Column
added (some o) new before = before
added none none before = before
added none (some c) before = some c

abbrev next : Option Column → ℕ → Column → Columns → Columns
next none k c merged = set_column k c merged
next (some o) k c merged = merged

add_unless_lem :
    (o : Option Column) (k : ℕ) (c : Column) (merged : Columns) (ch : List SchemaChange)
    → (add_unless evolve o k c merged ch).0 ≡ some (next o k c merged)
unfolding handle_new_column record_change
add_unless_lem none k c merged ch = refl
add_unless_lem (some o) k c merged ch = refl

get_column-next :
    (o : Option Column) (k n : ℕ) (c : Column) (merged : Columns)
    → get_column n (next o k c merged)
      ≡ (if n == k then added o (some c) (get_column n merged) else get_column n merged)
get_column-next none k n c merged = get_column-set_column n k c merged
get_column-next (some o) k n c merged = ground arith

added_step :
    (old merged cs : Columns) (k n : ℕ) (c : Column)
    → get_column k cs ≡ none
    → added (get_column n old) (get_column n cs) (get_column n (next (get_column k old) k c merged))
      ≡ added (get_column n old) (get_column n ((k, c) ∷ cs)) (get_column n merged)
added_step old merged cs k n c fresh =
    simp (get_column-next (get_column k old) k n c merged)
      (ground (arith, fresh, get_column_same n k cs, get_column_same n k old))

merge_added-Gives :
    (old cs merged : Columns) (ch : List SchemaChange)
    → IsDict cs
    → Gives
        (merge_added evolve old cs merged ch).0
        (λ n. added (get_column n old) (get_column n cs) (get_column n merged))
unfolding merge_added
merge_added-Gives old [] merged ch h = λ n. ground arith
merge_added-Gives old ((k, c) ∷ cs) merged ch (fresh, h) =
    resume-Gives (add_unless evolve (get_column k old) k c merged ch)
      (next (get_column k old) k c merged) _ _ (add_unless_lem (get_column k old) k c merged ch)
      (Gives-other _ _ _ (λ n. added_step old merged cs k n c fresh)
        (merge_added-Gives old cs (next (get_column k old) k c merged) _ h))

abbrev pub HasColumns : Option Schema → (ℕ → Option Column) → Type 0
HasColumns none f = ⊥
HasColumns (some s) f = (n : ℕ) → get_column n s.columns ≡ f n

bind-HasColumns :
    (r : Option Columns × List SchemaChange) (k : Columns → Evolve Schema) (f g : ℕ → Option Column)
    → Gives r.0 f
    → ((m : Columns) (ch : List SchemaChange)
        → ((n : ℕ) → get_column n m ≡ f n)
        → HasColumns (k m ch).0 g)
    → HasColumns (resume r.0 k r.1).0 g
bind-HasColumns (none, ch) k f g h step = elim h [ ]
bind-HasColumns (some m, ch) k f g h step = step m ch h

lookup_both :
    (old new : Option Column) (n : ℕ) (columns : Columns)
    → get_column n columns ≡ new
    → added old new (over columns n old none) ≡ merged_lookup old new
lookup_both none none n columns h = refl
lookup_both none (some c) n columns h = refl
lookup_both (some o) new n columns h = ap (λ c. some (kept o c)) h

merge_columns-HasColumns :
    (compute_hash : ℕ → Columns → ℕ) (old new : Schema)
    → IsDict old.columns
    → IsDict new.columns
    → HasColumns
        (merge_columns evolve compute_hash old new []).0
        (λ n. merged_lookup (get_column n old.columns) (get_column n new.columns))
merge_columns-HasColumns compute_hash old new h k =
    bind-HasColumns (merge_existing evolve old.columns new.columns [] []) _ _ _
      (merge_existing-Gives old.columns new.columns [] [] h)
      (λ m ch first.
        bind-HasColumns (merge_added evolve old.columns new.columns m ch) _ _ _
          (merge_added-Gives old.columns new.columns m ch k)
          (λ all ch' second n.
            second n
            ∙ ap (added (get_column n old.columns) (get_column n new.columns)) (first n)
            ∙ lookup_both (get_column n old.columns) (get_column n new.columns) n new.columns refl))

-- Under EVOLVE, schemas of different content merge without an error, and each name stands for what
-- its columns in the two schemas make: a column of one schema alone is kept as it is, and a column of
-- both has the widened type, a string type in the cases where the merge departs from `widen_type`.
pub merge-HasColumns :
    (compute_hash : ℕ → Columns → ℕ) (old new : Schema)
    → IsDict old.columns
    → IsDict new.columns
    → (old.hash == new.hash) ≡ false
    → HasColumns
        (merge evolve compute_hash old new).0
        (λ n. merged_lookup (get_column n old.columns) (get_column n new.columns))
unfolding merge
merge-HasColumns compute_hash old new h k differ =
    simp differ (merge_columns-HasColumns compute_hash old new h k)
