-- ===== src/Sources/JsonLines/Batches.antt =====
-- Resuming after whole batches.
use mathlib.Core.Path.{subst}
use agora_etl.Prelude.{
  ℕ, zero, suc, ◌≤◌, ◌<◌, List, [], ◌∷◌, ◌++◌, length, leb, if◌then◌else◌, Option, some, ◌≡◌, refl,
  sym, ap, ◌∙◌, Bool, true, false, Bool-cases, ◌⊎◌, inl, inr, arith,
}
use agora_etl.Prelude.{none}
use agora_etl.Failures.{Exc, Result}
use agora_etl.Sources.{Stream, yields, values, end_error, end_state, SourceIdentity}
use agora_etl.Sources.JsonLines.{
  Line, JsonLinesSource, SourceError, last_batch, Turn, passed, emitted, stopped, read_line,
  read_text, after_batch_turn, appended, batches_from, stream_batches, start, at_line, strip,
  prepare_resume, sync_from,
}
use agora_etl.Sources.JsonLines.Grouping.{turn_state, read_text-Moves, moved, batches_from-grouped}
use agora_etl.Sources.JsonLines.Resuming.{SameItems, items_same}
use agora_etl.Sources.JsonLines.Saved.{saved, prepares}
use agora_etl.Sources.Limited.{limit_items}
use agora_etl.Sources.JsonLines.Chunks.{grouped_same}

module _ {T Json : Type 0} (loads : Line → Result Json) (row_mapper : Json → Result (Option T))
    (unreadable : Option Exc) where
  abbrev Batches : Type 0
  Batches = Stream JsonLinesSource SourceError (List T)

  abbrev batched : ℕ → List T → List Line → JsonLinesSource → Batches
  batched n batch lines s = batches_from loads row_mapper unreadable n batch lines s

  batches_same :
      (n : ℕ) (lines : List Line) (r r' l l' a b a' b' : ℕ) (s : JsonLinesSource)
      → r ≤ n
      → r' ≤ n
      → SameItems (batched n [] lines (moved r l a b s)) (batched n [] lines (moved r' l' a' b' s))
  batches_same n lines r r' l l' a b a' b' s h h' =
      let same = λ (r1 l1 a1 b1 : ℕ).
        batches_from-grouped loads row_mapper unreadable n [] lines (moved r1 l1 a1 b1 s) in
      let (vs, e) =
        grouped_same s.emit_batch_size []
          (sync_from loads row_mapper unreadable n lines (moved r l a b s))
          (sync_from loads row_mapper unreadable n lines (moved r' l' a' b' s))
          (items_same loads row_mapper unreadable n lines r r' l l' a b a' b' s h h') in
      (
        ap (λ (t : Batches). values t) (same r l a b)
            ∙ vs
            ∙ ap (λ (t : Batches). values t) (sym (same r' l' a' b')),
        ap (λ (t : Batches). end_error t) (same r l a b)
            ∙ e
            ∙ ap (λ (t : Batches). end_error t) (sym (same r' l' a' b')),
      )

  module _ (l c d : ℕ) where
    abbrev place : ℕ → JsonLinesSource → Batches → ℕ
    place k s0 st = (end_state (limit_items (suc k) s0 st)).last_line_number

    abbrev resumed : ℕ → List Line → ℕ → JsonLinesSource → Batches
    resumed n lines m s = batched n [] lines (moved m l c d s)

    -- After `k + 1` batches of `st`; a batch that is held already reaches to line `n`.
    abbrev Resumes :
        ℕ → List T → List Line → ℕ → JsonLinesSource → JsonLinesSource → Batches → Type 0
    Resumes n batch lines k s s0 st =
        (n ≤ place k s0 st)
        × (batch ≡ [] → n < place k s0 st)
        × (values (limit_items (suc k) s0 st) ++ values (resumed n lines (place k s0 st) s)
            ≡ values st)
        × (end_error (resumed n lines (place k s0 st) s) ≡ end_error st)

    skipped :
        (n m : ℕ) (line : Line) (lines : List Line) (s : JsonLinesSource)
        → n < m
        → resumed (suc n) lines m s ≡ resumed n (line ∷ lines) m s
    unfolding batches_from read_line
    skipped n m line lines s h = let past : leb (suc n) m ≡ true = ground (arith, h) in rw past refl

    one_line_more :
        (n k : ℕ) (batch later : List T) (line : Line) (lines : List Line) (s s0 : JsonLinesSource)
        (st : Batches)
        → Resumes (suc n) later lines k s s0 st
        → Resumes n batch (line ∷ lines) k s s0 st
    one_line_more n k batch later line lines s s0 st (le, lt, vs, e) =
        let same = skipped n (place k s0 st) line lines s (omega (arith, le)) in
        (
          omega (arith, le),
          λ h. omega (arith, le),
          ap (λ (t : Batches). values (limit_items (suc k) s0 st) ++ values t) (sym same) ∙ vs,
          ap (λ (t : Batches). end_error t) (sym same) ∙ e,
        )

    first :
        (x batch : List T) (n a b : ℕ) (line : Line) (lines : List Line) (s s0 : JsonLinesSource)
        → s.resume_line_number ≤ suc n
        → Resumes n batch (line ∷ lines) zero s s0 (
            yields x
              (moved s.resume_line_number (suc n) a b s)
              (batched (suc n) [] lines (moved s.resume_line_number (suc n) a b s)))
    unfolding limit_items
    first x batch n a b line lines s s0 le =
        let same = skipped n (suc n) line lines s (omega arith) in
        let (vs, e) =
          batches_same (suc n) lines (suc n) s.resume_line_number l (suc n) c d a b s (omega arith)
            le in
        (
          omega arith,
          λ h. omega arith,
          ap (λ (l' : List (List T)). x ∷ l') (ap (λ (t : Batches). values t) (sym same) ∙ vs),
          ap (λ (t : Batches). end_error t) (sym same) ∙ e,
        )

    further :
        (x : List T) (n k : ℕ) (batch later : List T) (lines : List Line)
        (s s0 new : JsonLinesSource) (st : Batches)
        → Resumes n batch lines k s new st
        → Resumes n batch lines (suc k) s s0 (yields x new st)
    unfolding limit_items
    further x n k batch later lines s s0 new st (le, lt, vs, e) =
        (le, lt, ap (λ (l' : List (List T)). x ∷ l') vs, e)

    -- The lines of the records that are held have been read up to `n`.
    abbrev Held : ℕ → List T → JsonLinesSource → Type 0
    Held n batch s = (batch ≡ []) ⊎ ((s.last_line_number ≡ n) × (s.resume_line_number ≤ n))

    abbrev Rest : ℕ → List Line → Type 0
    Rest n lines =
        (k : ℕ) (batch : List T) (s s0 : JsonLinesSource)
        → Held n batch s
        → k < length (values (batched n batch lines s))
        → Resumes n batch lines k s s0 (batched n batch lines s)

    abbrev go_on : ℕ → List Line → List T → JsonLinesSource → Batches
    go_on n lines batch s = batched (suc n) batch lines s

    module _ (n a b : ℕ) (line : Line) (lines : List Line) (s : JsonLinesSource)
        (le : s.resume_line_number ≤ suc n) (rest : Rest (suc n) lines) where
      abbrev new : JsonLinesSource
      new = moved s.resume_line_number (suc n) a b s

      -- The batch with the record that was read, at a size.
      filled :
          (k : ℕ) (held batch : List T) (full : Bool) (s0 : JsonLinesSource)
          → k
            < length (
                values (
                  if full
                  then yields batch new (go_on n lines [] new)
                  else go_on n lines batch new))
          → Resumes n held
              (line ∷ lines)
              k
              s
              s0
              (if full then yields batch new (go_on n lines [] new) else go_on n lines batch new)
      filled zero held batch true s0 lt = first batch held n a b line lines s s0 le
      filled (suc k) held batch true s0 lt =
          further batch n k held [] (line ∷ lines) s s0 new (go_on n lines [] new) (
            one_line_more n k held [] line lines s new (go_on n lines [] new)
              (rest k [] new new (inl refl) (omega (arith, lt))))
      filled k held batch false s0 lt =
          one_line_more n k held batch line lines s s0 (go_on n lines batch new)
            (rest k batch new s0 (inr (refl, le)) lt)

      moved_turn :
          (t : Turn T) (k : ℕ) (held : List T) (s0 : JsonLinesSource)
          → turn_state t ≡ new
          → k
            < length (values (after_batch_turn loads row_mapper unreadable held t (go_on n lines)))
          → Resumes n held
              (line ∷ lines)
              k
              s
              s0
              (after_batch_turn loads row_mapper unreadable held t (go_on n lines))
      moved_turn (passed s') k held s0 e lt =
          subst
            (λ (x : JsonLinesSource).
              k < length (values (go_on n lines held x))
              → Resumes n held (line ∷ lines) k s s0 (go_on n lines held x))
            (sym e) (λ lt'. filled k held held false s0 lt') lt
      moved_turn (emitted r s') k held s0 e lt =
          subst
            (λ (x : JsonLinesSource).
              k
                < length (
                    values
                      (appended loads row_mapper unreadable (held ++ r ∷ []) x (go_on n lines)))
              → Resumes n held (line ∷ lines) k s s0
                  (appended loads row_mapper unreadable (held ++ r ∷ []) x (go_on n lines)))
            (sym e)
            (filled k held (held ++ r ∷ []) (leb s.emit_batch_size (length (held ++ r ∷ []))) s0) lt
      moved_turn (stopped err' s') k held s0 e lt = absurd (omega (arith, lt))

    at_end :
        (u : Option Exc) (n k : ℕ) (batch : List T) (s s0 : JsonLinesSource)
        → u ≡ unreadable
        → Held n batch s
        → k < length (values (last_batch u batch s))
        → Resumes n batch [] k s s0 (last_batch u batch s)
    unfolding batches_from limit_items
    at_end (some e) n k batch s s0 same held lt = absurd (omega (arith, lt))
    at_end none n k [] s s0 same held lt = absurd (omega (arith, lt))
    at_end none n k (b ∷ bs) s s0 same (inl e) lt = absurd cc
    at_end none n zero (b ∷ bs) s s0 same (inr (e, le)) lt =
        let rest = moved s.last_line_number l c d s in
        (
          omega (arith, e),
          λ h. absurd cc,
          ap (λ (u' : Option Exc). (b ∷ bs) ∷ values (last_batch {T = T} u' [] rest)) (sym same),
          ap (λ (u' : Option Exc). end_error (last_batch {T = T} u' [] rest)) (sym same),
        )
    at_end none n (suc k) (b ∷ bs) s s0 same (inr (e, le)) lt = absurd (omega (arith, lt))

    -- A line is passed by only while no record is held.
    batch_is_empty :
        (n : ℕ) (batch : List T) (s : JsonLinesSource)
        → Held n batch s
        → leb (suc n) s.resume_line_number ≡ true
        → batch ≡ []
    batch_is_empty n batch s (inl e) skip = e
    batch_is_empty n batch s (inr (e, le)) skip = absurd (ground arith)

    stops : (lines : List Line) (n : ℕ) → Rest n lines
    unfolding batches_from read_line
    stops [] n k batch s s0 held = λ lt. at_end unreadable n k batch s s0 refl held lt
    stops (line ∷ lines) n k batch s s0 held =
        elim (Bool-cases (leb (suc n) s.resume_line_number)) [
          | inl skip ↦ rw skip (λ lt.
              one_line_more n k batch batch line lines s s0 (go_on n lines batch s)
                (stops lines (suc n) k batch s s0 (inl (batch_is_empty n batch s held skip)) lt))
          | inr fresh ↦
              let (a, b, same) =
                read_text-Moves loads row_mapper unreadable (strip line) (at_line (suc n) s) in
              rw fresh (
                moved_turn n a b line lines s (ground arith) (stops lines (suc n))
                  (read_text loads row_mapper unreadable (strip line) (at_line (suc n) s)) k batch
                  s0 same)
        ]

  -- The source that resumes from the checkpoint of the `k`-th batch, and what it hands over.
  abbrev pub ResumesAfter : SourceIdentity → List Line → JsonLinesSource → ℕ → Type 0
  ResumesAfter here lines s k =
      let st = stream_batches loads row_mapper unreadable lines s in
      (again : JsonLinesSource) × (prepare_resume here
          (some (saved here (end_state (limit_items k s st)))) s
        ≡ some again)
      × (values (limit_items k s st)
            ++ values (stream_batches loads row_mapper unreadable lines again)
          ≡ values st)
      × (end_error (stream_batches loads row_mapper unreadable lines again) ≡ end_error st)

  -- A run that stops after `k` batches, and a run of the same source that resumes from the checkpoint
  -- saved with the last of them, over the unchanged file: the checkpoint is accepted, the batches of
  -- the two runs are the batches of one run to the end, and the second ends as that run does.
  pub stream_batches-prepare_resume :
      (here : SourceIdentity) (lines : List Line) (s : JsonLinesSource) (k : ℕ)
      → 0 < k
      → k ≤ length (values (stream_batches loads row_mapper unreadable lines s))
      → ResumesAfter here lines s k
  unfolding stream_batches
  stream_batches-prepare_resume here lines s zero pos le = absurd (omega (arith, pos))
  stream_batches-prepare_resume here lines s (suc k) pos le =
      let st = batches_from loads row_mapper unreadable 0 [] lines (start s) in
      let left = end_state (limit_items (suc k) s st) in
      let (n, lt, vs, e) = stops s.last_line_number 0 0 lines 0 k [] (start s) s (inl refl) le in
      (
        record s { resume_line_number = left.last_line_number },
        prepares here s left (lt refl),
        vs,
        e,
      )
