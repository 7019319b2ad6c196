-- ===== src/Sources/JsonLines/Reading.antt =====
-- `read_records`, which reads lines ahead in batches, against the plain loop of `stream_sync_batches`.
use agora_etl.Prelude.{
  ℕ, zero, suc, ◌+◌, ◌<◌, List, [], ◌∷◌, length, leb, if◌then◌else◌, Option, ◌≡◌, refl, ap, ◌∙◌,
  true, false, Bool-cases, ◌⊎◌, inl, inr, arith, some, none, ◌++◌, sym,
}
use mathlib.Core.Path.{subst}
use agora_etl.Failures.{Exc, Result}
use agora_etl.Sources.{values, end_error, Stream, yields}
use agora_etl.Sources.JsonLines.{
  Line, JsonLinesSource, SourceError, read_error, end_of_file, Turn, passed, emitted, stopped,
  read_text, read_line, after_turn, sync_from, stream_sync_batches, start, at_line, strip, Row,
  row_of, ReadBatch, with_row, after_row, read_batch, read_rows, on_parsed, after_read, read_from,
  read_records,
}
use agora_etl.Sources.JsonLines.ReadAhead.{Ends, Stops, read_batch-Ends, read_batch-Stops}
use agora_etl.Sources.JsonLines.Grouping.{turn_state, read_text-Moves}

module _ {T Json : Type 0} (loads : Line → Result Json) (row_mapper : Json → Result (Option T))
    (unreadable : Option Exc) where
  abbrev Records : Type 0
  Records = Stream JsonLinesSource SourceError T

  abbrev synced : ℕ → List Line → JsonLinesSource → Records
  synced n lines s = sync_from loads row_mapper unreadable n lines s

  abbrev rows_then_sync : ReadBatch Json → JsonLinesSource → Records
  rows_then_sync b s =
      read_rows loads row_mapper unreadable b.rows s (λ s'. synced b.line_number b.unread s')

  after_turn_same :
      (t : Turn T) (g h : JsonLinesSource → Records)
      → g (turn_state t) ≡ h (turn_state t)
      → after_turn loads row_mapper unreadable t g ≡ after_turn loads row_mapper unreadable t h
  after_turn_same (passed s) g h p = p
  after_turn_same (emitted r s) g h p = ap (yields r s) p
  after_turn_same (stopped e s) g h p = refl

  one_row :
      (size count n : ℕ) (text : Line) (lines : List Line) (s : JsonLinesSource)
      (go : ℕ → ReadBatch Json)
      → ((c : ℕ) (s' : JsonLinesSource)
          → s'.resume_line_number ≡ s.resume_line_number
          → rows_then_sync (go c) s' ≡ synced n lines s')
      → rows_then_sync (after_row loads row_mapper unreadable size count n text lines go) s
        ≡ after_turn loads row_mapper unreadable
            (read_text loads row_mapper unreadable text (at_line n s))
            (λ s'. synced n lines s')
  unfolding read_rows
  one_row size count n [] lines s go rest = rest (count + 1) (at_line n s) refl
  one_row size count n (c ∷ cs) lines s go rest =
      elim (leb size (count + 1))
        as (λ b.
          rows_then_sync
            (if b
              then record {
                rows = row_of loads row_mapper unreadable n (c ∷ cs) ∷ [];
                line_number = n;
                unread = lines;
                raised = none;
              }
              else with_row (row_of loads row_mapper unreadable n (c ∷ cs)) (go (count + 1)))
            s
          ≡ after_turn loads row_mapper unreadable
              (read_text loads row_mapper unreadable (c ∷ cs) (at_line n s))
              (λ s'. synced n lines s')) [
                | true ↦ refl
                | false ↦
                    let (errors, drops, same) =
                      read_text-Moves loads row_mapper unreadable (c ∷ cs) (at_line n s) in
                    after_turn_same (read_text loads row_mapper unreadable (c ∷ cs) (at_line n s))
                      (λ s'. rows_then_sync (go (count + 1)) s') (λ s'. synced n lines s')
                      (rest (count + 1) _ (ap (λ (t : JsonLinesSource). t.resume_line_number) same))
              ]

  batch_then_sync :
      (resume size count n : ℕ) (lines : List Line) (s : JsonLinesSource)
      → s.resume_line_number ≡ resume
      → rows_then_sync (read_batch loads row_mapper unreadable resume size count n lines) s
        ≡ synced n lines s
  unfolding read_batch sync_from read_line read_rows
  batch_then_sync resume size count n [] s h = refl
  batch_then_sync resume size count n (line ∷ lines) s h = elim (Bool-cases (leb (suc n) resume)) [
    | inl skip ↦
        let skip' : leb (suc n) s.resume_line_number ≡ true =
          ap (λ (r : ℕ). leb (suc n) r) h ∙ skip in
        rw (skip, skip') (batch_then_sync resume size count (suc n) lines s h)
    | inr read ↦
        let read' : leb (suc n) s.resume_line_number ≡ false =
          ap (λ (r : ℕ). leb (suc n) r) h ∙ read in
        rw (read, read')
          (one_row size count (suc n) (strip line) lines s
            (λ c. read_batch loads row_mapper unreadable resume size c (suc n) lines)
            (λ c s' p. batch_then_sync resume size c (suc n) lines s' (p ∙ h)))
  ]

  -- The same; or the file is not read to its end, and the last records are missing.
  abbrev pub LosesLast : Records → Records → Type 0
  LosesLast a b =
      (e : Exc) × (lost : List T) × (unreadable ≡ some e)
      × (values b ≡ values a ++ lost)
      × (end_error a ≡ some (read_error e))

  abbrev pub Ahead : Records → Records → Type 0
  Ahead a b = (a ≡ b) ⊎ LosesLast a b

  yields-Ahead :
      (r : T) (s : JsonLinesSource) (a b : Records)
      → Ahead a b
      → Ahead (yields r s a) (yields r s b)
  yields-Ahead r s a b (inl same) = inl (ap (yields r s) same)
  yields-Ahead r s a b (inr (e, lost, u, vs, ended)) =
      inr (e, lost, u, ap (λ (l : List T). r ∷ l) vs, ended)

  after_turn-Ahead :
      (t : Turn T) (g h : JsonLinesSource → Records)
      → ((s : JsonLinesSource) → Ahead (g s) (h s))
      → Ahead
          (after_turn loads row_mapper unreadable t g)
          (after_turn loads row_mapper unreadable t h)
  after_turn-Ahead (passed s) g h p = p s
  after_turn-Ahead (emitted r s) g h p = yields-Ahead r s (g s) (h s) (p s)
  after_turn-Ahead (stopped e s) g h p = inl refl

  read_rows-Ahead :
      (rows : List (Row Json)) (s : JsonLinesSource) (g h : JsonLinesSource → Records)
      → ((s' : JsonLinesSource) → Ahead (g s') (h s'))
      → Ahead
          (read_rows loads row_mapper unreadable rows s g)
          (read_rows loads row_mapper unreadable rows s h)
  unfolding read_rows
  read_rows-Ahead [] s g h p = p s
  read_rows-Ahead (row ∷ rows) s g h p =
      after_turn-Ahead
        (on_parsed loads row_mapper unreadable row.parsed row.text (at_line row.line_num s))
        (λ s'. read_rows loads row_mapper unreadable rows s' g)
        (λ s'. read_rows loads row_mapper unreadable rows s' h)
        (λ s'. read_rows-Ahead rows s' g h p)

  abbrev batch_of : Option Exc → List (Row Json) → ℕ → List Line → ReadBatch Json
  batch_of raised rows n rest = record {
    rows = rows;
    line_number = n;
    unread = rest;
    raised = raised;
  }

  next_batch :
      (raised : Option Exc) (fuel : ℕ) (lines : List Line) (rows : List (Row Json)) (n : ℕ)
      (rest : List Line) (s : JsonLinesSource)
      → Stops loads row_mapper unreadable (batch_of raised rows n rest)
      → Ends loads row_mapper unreadable (batch_of raised rows n rest) lines
      → length lines < suc fuel
      → ((n' : ℕ) (rest' : List Line) (s' : JsonLinesSource)
          → length rest' < fuel
          → Ahead (read_from loads row_mapper unreadable fuel n' rest' s') (synced n' rest' s'))
      → Ahead
          (after_read loads row_mapper unreadable
            (batch_of raised rows n rest)
            s
            (λ n' rest' s'. read_from loads row_mapper unreadable fuel n' rest' s'))
          (rows_then_sync (batch_of raised rows n rest) s)
  unfolding sync_from read_rows
  next_batch (some e) fuel lines rows n rest s (inl h) ends lt ih = absurd cc
  next_batch (some e) fuel lines rows n rest s (inr h) ends lt ih =
      inr (e, values (rows_then_sync (batch_of (some e) rows n rest) s), sym h, refl, refl)
  next_batch none fuel lines [] n [] s stops (inl (x, y, same)) lt ih =
      inl (ap (λ (u : Option Exc). end_of_file u s) same)
  next_batch none fuel lines [] n (line ∷ rest) s stops (inl (x, y, same)) lt ih = absurd cc
  next_batch none fuel lines [] n rest s stops (inr (some_row, less)) lt ih = absurd (some_row refl)
  next_batch none fuel lines (r ∷ rs) n rest s stops (inl (x, y, same)) lt ih = absurd cc
  next_batch none fuel lines (r ∷ rs) n rest s stops (inr (some_row, less)) lt ih =
      read_rows-Ahead (r ∷ rs) s (λ s'. read_from loads row_mapper unreadable fuel n rest s')
        (λ s'. synced n rest s') (λ s'. ih n rest s' (omega arith))

  reads_all :
      (fuel n : ℕ) (lines : List Line) (s : JsonLinesSource)
      → length lines < fuel
      → Ahead (read_from loads row_mapper unreadable fuel n lines s) (synced n lines s)
  unfolding read_from
  reads_all zero n lines s h = absurd (omega arith)
  reads_all (suc fuel) n lines s h =
      let b = read_batch loads row_mapper unreadable s.resume_line_number s.batch_size 0 n lines in
      subst
        (λ (st : Records). Ahead (read_from loads row_mapper unreadable (suc fuel) n lines s) st)
        (batch_then_sync s.resume_line_number s.batch_size 0 n lines s refl)
        (next_batch b.raised fuel lines b.rows b.line_number b.unread s
          (read_batch-Stops loads row_mapper unreadable s.resume_line_number s.batch_size 0 n lines)
          (read_batch-Ends loads row_mapper unreadable s.resume_line_number s.batch_size 0 n lines)
          h (λ n' rest s' lt. reads_all fuel n' rest s' lt))

  -- `read_records`, which reads and parses `batch_size` lines ahead, hands over what
  -- `stream_sync_batches` does: the same records, each with the same checkpoint and counts, to the
  -- same end, an error with its record and checkpoint included. The one exception is a file whose
  -- iteration raises: `read_records` may then end with that exception and without the last of the
  -- records that `stream_sync_batches` hands over.
  pub read_records-stream_sync_batches :
      (lines : List Line) (s : JsonLinesSource)
      → Ahead
          (read_records loads row_mapper unreadable lines s)
          (stream_sync_batches loads row_mapper unreadable lines s)
  unfolding read_records stream_sync_batches
  read_records-stream_sync_batches lines s =
      reads_all (suc (length lines)) 0 lines (start s) (omega arith)
