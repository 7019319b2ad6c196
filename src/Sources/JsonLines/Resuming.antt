-- ===== src/Sources/JsonLines/Resuming.antt =====
-- A run that ended after some records, and one that resumes from the checkpoint it left.
use mathlib.Core.Path.{subst}
use agora_etl.Prelude.{
  ℕ, zero, suc, ◌+◌, ◌≤◌, ◌<◌, List, [], ◌∷◌, ◌++◌, length, leb, Option, some, none, ◌≡◌, refl, sym,
  ap, ◌∙◌, true, false, Bool-cases, inl, inr, arith,
}
use agora_etl.Failures.{Exc, Result, ok, err}
use agora_etl.Sources.{Stream, yields, values, end_error, end_state, SourceIdentity}
use agora_etl.Sources.JsonLines.{
  Line, JsonLinesSource, SourceError, end_of_file, SourceRecordFailurePolicy, Turn, prepare_resume,
  passed, emitted, stopped, on_error, on_record, read_text, read_line, after_turn, sync_from,
  stream_sync_batches, start, map_row, at_line, strip,
}
use agora_etl.Sources.JsonLines.Grouping.{turn_state, read_text-Moves, moved}
use agora_etl.Sources.Limited.{limit_items}
use agora_etl.Sources.JsonLines.Saved.{saved, prepares}

-- What the consumer sees of a stream that does not look at the source's state.
abbrev pub SameItems :
    {T : Type 0}
    → Stream JsonLinesSource SourceError T
    → Stream JsonLinesSource SourceError T
    → Type 0
SameItems a b = (values a ≡ values b) × (end_error a ≡ end_error b)

end_same :
    {T : Type 0} (u : Option Exc) (s t : JsonLinesSource)
    → SameItems {T = T} (end_of_file u s) (end_of_file u t)
end_same none s t = (refl, refl)
end_same (some e) s t = (refl, refl)

no_items_left :
    (T : Type 0) (u : Option Exc) (s : JsonLinesSource) (k : ℕ)
    → ¬ (k < length (values {A = T} (end_of_file u s)))
no_items_left T none s k lt = absurd (omega (arith, lt))
no_items_left T (some e) s k lt = absurd (omega (arith, lt))

module _ {T Json : Type 0} (loads : Line → Result Json) (row_mapper : Json → Result (Option T))
    (unreadable : Option Exc) where
  abbrev Records : Type 0
  Records = Stream JsonLinesSource SourceError T

  abbrev read : Line → JsonLinesSource → Turn T
  read text s = read_text loads row_mapper unreadable text s

  abbrev synced : ℕ → List Line → JsonLinesSource → Records
  synced n lines s = sync_from loads row_mapper unreadable n lines s

  -- Where the source was to resume, and its counts, do not show in what a line read gives.
  module _ (r r' n : ℕ) (s : JsonLinesSource) (go : JsonLinesSource → Records)
      (rest : (a b a' b' : ℕ) → SameItems (go (moved r n a b s)) (go (moved r' n a' b' s))) where
    error_turn :
        (p : SourceRecordFailurePolicy) (e : Exc) (text : Line) (a b a' b' : ℕ)
        → SameItems
            (after_turn loads row_mapper unreadable (on_error p e text (moved r n a b s)) go)
            (after_turn loads row_mapper unreadable (on_error p e text (moved r' n a' b' s)) go)
    error_turn SourceRecordFailurePolicy.fail_closed e text a b a' b' = (refl, refl)
    error_turn SourceRecordFailurePolicy.log_and_continue e text a b a' b' =
        rest a (b + 1) a' (b' + 1)

    record_turn :
        (o : Result (Option T)) (text : Line) (a b a' b' : ℕ)
        → SameItems
            (after_turn loads row_mapper unreadable (on_record o text (moved r n a b s)) go)
            (after_turn loads row_mapper unreadable (on_record o text (moved r' n a' b' s)) go)
    record_turn (ok (some x)) text a b a' b' =
        let (v, e) = rest a b a' b' in (ap (λ (l : List T). x ∷ l) v, e)
    record_turn (ok none) text a b a' b' = rest a (b + 1) a' (b' + 1)
    record_turn (err e) text a b a' b' = error_turn s.on_record_error e text (a + 1) b (a' + 1) b'

    text_turn :
        (text : Line) (a b a' b' : ℕ)
        → SameItems
            (after_turn loads row_mapper unreadable (read text (moved r n a b s)) go)
            (after_turn loads row_mapper unreadable (read text (moved r' n a' b' s)) go)
    text_turn [] a b a' b' = rest a b a' b'
    text_turn (c ∷ cs) a b a' b' =
        record_turn (map_row loads row_mapper unreadable (loads (c ∷ cs))) (c ∷ cs) a b a' b'

  pub items_same :
      (n : ℕ) (lines : List Line) (r r' l l' a b a' b' : ℕ) (s : JsonLinesSource)
      → r ≤ n
      → r' ≤ n
      → SameItems (synced n lines (moved r l a b s)) (synced n lines (moved r' l' a' b' s))
  unfolding sync_from read_line
  items_same n [] r r' l l' a b a' b' s h h' =
      end_same unreadable (moved r l a b s) (moved r' l' a' b' s)
  items_same n (line ∷ lines) r r' l l' a b a' b' s h h' =
      let here : leb (suc n) r ≡ false = ground (arith, h) in
      let there : leb (suc n) r' ≡ false = ground (arith, h') in
      rw (here, there)
        (text_turn r r' (suc n) s (λ s'. synced (suc n) lines s')
          (λ a1 b1 a2 b2.
            items_same (suc n) lines r r' (suc n) (suc n) a1 b1 a2 b2 s (omega arith) (omega arith))
          (strip line) a b a' b')

  -- After `k + 1` records of `st`, a source that resumes where the last of them was hands over the
  -- others.
  module _ (l c d : ℕ) where
    abbrev place : ℕ → JsonLinesSource → Records → ℕ
    place k s0 st = (end_state (limit_items (suc k) s0 st)).last_line_number

    abbrev resumed : ℕ → List Line → ℕ → JsonLinesSource → Records
    resumed n lines m s = synced n lines (moved m l c d s)

    abbrev Resumes : ℕ → List Line → ℕ → JsonLinesSource → JsonLinesSource → Records → Type 0
    Resumes n lines k s s0 st =
        (n < place k s0 st)
        × (values (limit_items (suc k) s0 st) ++ values (resumed n lines (place k s0 st) s)
            ≡ values st)
        × (end_error (resumed n lines (place k s0 st) s) ≡ end_error st)

    skipped :
        (n m : ℕ) (line : Line) (lines : List Line) (s : JsonLinesSource)
        → n < m
        → resumed (suc n) lines m s ≡ resumed n (line ∷ lines) m s
    unfolding sync_from read_line
    skipped n m line lines s h = let past : leb (suc n) m ≡ true = ground (arith, h) in rw past refl

    one_line_more :
        (n k : ℕ) (line : Line) (lines : List Line) (s s0 : JsonLinesSource) (st : Records)
        → Resumes (suc n) lines k s s0 st
        → Resumes n (line ∷ lines) k s s0 st
    one_line_more n k line lines s s0 st (lt, vs, e) =
        let same = skipped n (place k s0 st) line lines s (omega (arith, lt)) in
        (
          omega (arith, lt),
          ap (λ (t : Records). values (limit_items (suc k) s0 st) ++ values t) (sym same) ∙ vs,
          ap (λ (t : Records). end_error t) (sym same) ∙ e,
        )

    -- Every number of records that the rest hands over may be taken from it.
    abbrev Rest : ℕ → List Line → Type 0
    Rest n lines =
        (k : ℕ) (s s0 : JsonLinesSource)
        → k < length (values (synced n lines s))
        → Resumes n lines k s s0 (synced n lines s)

    first :
        (x : T) (n a b : ℕ) (line : Line) (lines : List Line) (s s0 : JsonLinesSource)
        → s.resume_line_number ≤ suc n
        → Resumes n (line ∷ lines) zero s s0 (
            yields x
              (moved s.resume_line_number (suc n) a b s)
              (synced (suc n) lines (moved s.resume_line_number (suc n) a b s)))
    unfolding limit_items
    first x n a b line lines s s0 le =
        let same = skipped n (suc n) line lines s (omega arith) in
        let (vs, e) =
          items_same (suc n) lines (suc n) s.resume_line_number l (suc n) c d a b s (omega arith)
            le in
        (
          omega arith,
          ap (λ (l' : List T). x ∷ l') (ap (λ (t : Records). values t) (sym same) ∙ vs),
          ap (λ (t : Records). end_error t) (sym same) ∙ e,
        )

    further :
        (x : T) (n k : ℕ) (line : Line) (lines : List Line) (s s0 new : JsonLinesSource)
        → Resumes n (line ∷ lines) k s new (synced (suc n) lines new)
        → Resumes n (line ∷ lines) (suc k) s s0 (yields x new (synced (suc n) lines new))
    unfolding limit_items
    further x n k line lines s s0 new (lt, vs, e) = (lt, ap (λ (l' : List T). x ∷ l') vs, e)

    moved_turn :
        (t : Turn T) (n k a b : ℕ) (line : Line) (lines : List Line) (s s0 : JsonLinesSource)
        → turn_state t ≡ moved s.resume_line_number (suc n) a b s
        → s.resume_line_number ≤ suc n
        → Rest (suc n) lines
        → k
          < length
              (values (after_turn loads row_mapper unreadable t (λ s'. synced (suc n) lines s')))
        → Resumes n
            (line ∷ lines)
            k
            s
            s0
            (after_turn loads row_mapper unreadable t (λ s'. synced (suc n) lines s'))
    moved_turn (passed s') n k a b line lines s s0 e le rest lt =
        subst
          (λ (x : JsonLinesSource).
            k < length (values (synced (suc n) lines x))
            → Resumes n (line ∷ lines) k s s0 (synced (suc n) lines x))
          (sym e)
          (λ lt'.
            let new = moved s.resume_line_number (suc n) a b s in
            one_line_more n k line lines s s0 (synced (suc n) lines new) (rest k new s0 lt'))
          lt
    moved_turn (emitted x s') n zero a b line lines s s0 e le rest lt =
        subst
          (λ (y : JsonLinesSource).
            Resumes n (line ∷ lines) zero s s0 (yields x y (synced (suc n) lines y)))
          (sym e) (first x n a b line lines s s0 le)
    moved_turn (emitted x s') n (suc k) a b line lines s s0 e le rest lt =
        subst
          (λ (y : JsonLinesSource).
            suc k < length (values (yields x y (synced (suc n) lines y)))
            → Resumes n (line ∷ lines) (suc k) s s0 (yields x y (synced (suc n) lines y)))
          (sym e)
          (λ lt'.
            let new = moved s.resume_line_number (suc n) a b s in
            further x n k line lines s s0 new (
              one_line_more n k line lines s new (synced (suc n) lines new)
                (rest k new new (omega (arith, lt')))))
          lt
    moved_turn (stopped err' s') n k a b line lines s s0 e le rest lt = absurd (omega (arith, lt))

    stops : (lines : List Line) (n : ℕ) → Rest n lines
    unfolding sync_from read_line
    stops [] n k s s0 = λ lt. absurd (no_items_left T unreadable s k lt)
    stops (line ∷ lines) n k s s0 = elim (Bool-cases (leb (suc n) s.resume_line_number)) [
      | inl skip ↦ rw skip (λ lt.
          one_line_more n k line lines s s0 (synced (suc n) lines s)
            (stops lines (suc n) k s s0 lt))
      | inr fresh ↦
          let (a, b, same) =
            read_text-Moves loads row_mapper unreadable (strip line) (at_line (suc n) s) in
          rw fresh (
            moved_turn (read (strip line) (at_line (suc n) s)) n k a b line lines s s0 same
              (ground arith) (stops lines (suc n)))
    ]

  -- A run that stops after `k` records, and a run of the same source that resumes from the checkpoint
  -- saved with the last of them, over the unchanged file: the checkpoint is accepted, and the two runs
  -- together hand over the records of one run to the end, in its order, none of them twice, and the
  -- second ends as that run does, with the same error if there is one.
  pub stream-prepare_resume :
      (here : SourceIdentity) (lines : List Line) (s : JsonLinesSource) (k : ℕ)
      → 0 < k
      → k ≤ length (values (stream_sync_batches loads row_mapper unreadable lines s))
      → (again : JsonLinesSource) × (prepare_resume here
            (some (
              saved here (
                end_state
                  (limit_items k s (stream_sync_batches loads row_mapper unreadable lines s)))))
            s
          ≡ some again)
        × (values (limit_items k s (stream_sync_batches loads row_mapper unreadable lines s))
              ++ values (stream_sync_batches loads row_mapper unreadable lines again)
            ≡ values (stream_sync_batches loads row_mapper unreadable lines s))
        × (end_error (stream_sync_batches loads row_mapper unreadable lines again)
            ≡ end_error (stream_sync_batches loads row_mapper unreadable lines s))
  unfolding stream_sync_batches
  stream-prepare_resume here lines s zero pos le = absurd (omega (arith, pos))
  stream-prepare_resume here lines s (suc k) pos le =
      let st = sync_from loads row_mapper unreadable 0 lines (start s) in
      let left = end_state (limit_items (suc k) s st) in
      let (lt, vs, e) = stops s.last_line_number 0 0 lines 0 k (start s) s le in
      (record s { resume_line_number = left.last_line_number }, prepares here s left lt, vs, e)
