-- ===== src/Sources/JsonLines/Chunks.antt =====
-- What the batches of a stream are by its records alone.
use agora_etl.Prelude.{
  ℕ, List, [], ◌∷◌, ◌++◌, length, leb, if◌then◌else◌, Option, some, none, ◌≡◌, refl, sym, ap, ◌∙◌,
  Bool-cases, inl, inr,
}
use agora_etl.Sources.{Stream, finished, failed, yields, values, end_error}
use agora_etl.Sources.JsonLines.{JsonLinesSource, SourceError}
use agora_etl.Sources.JsonLines.Grouping.{grouped}
use agora_etl.Sources.JsonLines.Resuming.{SameItems}

-- The batches that `grouped` makes of these records; an error leaves the last ones unbatched.
abbrev chunks : {T : Type 0} → ℕ → List T → List T → Option SourceError → List (List T)
chunks size batch [] (some e) = []
chunks size [] [] none = []
chunks size (b ∷ bs) [] none = (b ∷ bs) ∷ []
chunks size batch (r ∷ rs) e =
    let full = (batch ++ r ∷ []) ∷ chunks size [] rs e in
    let more = chunks size (batch ++ r ∷ []) rs e in
    if leb size (length (batch ++ r ∷ [])) then full else more

module _ {T : Type 0} where
  grouped-chunks :
      (size : ℕ) (batch : List T) (st : Stream JsonLinesSource SourceError T)
      → (values (grouped size batch st) ≡ chunks size batch (values st) (end_error st))
        × (end_error (grouped size batch st) ≡ end_error st)
  grouped-chunks size [] (finished s) = (refl, refl)
  grouped-chunks size (b ∷ bs) (finished s) = (refl, refl)
  grouped-chunks size batch (failed e s) = (refl, refl)
  grouped-chunks size batch (yields r s st) =
      elim (Bool-cases (leb size (length (batch ++ r ∷ [])))) [
        | inl full ↦
            let (vs, e) = grouped-chunks size [] st in
            rw full (ap (λ (l : List (List T)). (batch ++ r ∷ []) ∷ l) vs, e)
        | inr more ↦ rw more (grouped-chunks size (batch ++ r ∷ []) st)
      ]

  pub grouped_same :
      (size : ℕ) (batch : List T) (a b : Stream JsonLinesSource SourceError T)
      → SameItems a b
      → SameItems (grouped size batch a) (grouped size batch b)
  grouped_same size batch a b (vs, e) =
      let (va, ea) = grouped-chunks size batch a in
      let (vb, eb) = grouped-chunks size batch b in
      (va ∙ (λ i. chunks size batch (vs i) (e i)) ∙ sym vb, ea ∙ e ∙ sym eb)
