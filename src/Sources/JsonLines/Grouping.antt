-- ===== src/Sources/JsonLines/Grouping.antt =====
-- The batches are the records, grouped: `stream_batches` against `stream_sync_batches`.
use agora_etl.Prelude.{
  ℕ, suc, List, [], ◌∷◌, ◌++◌, length, leb, if◌then◌else◌, Option, some, none, ◌≡◌, refl, ap, ◌∙◌,
  true, false,
}
use agora_etl.Failures.{Exc, Result, ok, err}
use agora_etl.Sources.{Stream, finished, failed, yields}
use agora_etl.Sources.JsonLines.{
  Line, JsonLinesSource, SourceError, end_of_file, last_batch, SourceRecordFailurePolicy, Turn,
  passed, emitted, stopped, count_error, on_error, on_record, read_text, read_line, after_turn,
  sync_from, stream_sync_batches, appended, after_batch_turn, batches_from, stream_batches, start,
  map_row, at_line, strip,
}

abbrev pub turn_state : {T : Type 0} → Turn T → JsonLinesSource
turn_state (passed s) = s
turn_state (emitted r s) = s
turn_state (stopped e s) = s

-- A source with another place in the file and other counts.
abbrev pub moved : (resume last errors drops : ℕ) → JsonLinesSource → JsonLinesSource
moved resume last errors drops s = record s {
  resume_line_number = resume;
  last_line_number = last;
  record_error_count = errors;
  record_drop_count = drops;
}

-- What a turn that reads a line changes in the source.
abbrev pub Moves : {T : Type 0} → JsonLinesSource → Turn T → Type 0
Moves s t =
    (errors : ℕ) × (drops : ℕ) × (turn_state t
      ≡ moved s.resume_line_number s.last_line_number errors drops s)

on_error-Moves :
    (T : Type 0) (p : SourceRecordFailurePolicy) (e : Exc) (text : Line) (s : JsonLinesSource)
    → Moves s (on_error {T = T} p e text s)
on_error-Moves T SourceRecordFailurePolicy.fail_closed e text s = (_, _, refl)
on_error-Moves T SourceRecordFailurePolicy.log_and_continue e text s = (_, _, refl)

on_record-Moves :
    {T : Type 0} (r : Result (Option T)) (text : Line) (s : JsonLinesSource)
    → Moves s (on_record r text s)
on_record-Moves (ok (some r)) text s = (_, _, refl)
on_record-Moves (ok none) text s = (_, _, refl)
on_record-Moves (err e) text s =
    let (errors, drops, same) = on_error-Moves _ s.on_record_error e text (count_error s) in
    (errors, drops, same)

-- Items in batches of a size, after those that are held already.
abbrev pub grouped :
    {T : Type 0}
    → ℕ
    → List T
    → Stream JsonLinesSource SourceError T
    → Stream JsonLinesSource SourceError (List T)
grouped size batch (finished s) = elim batch [
  | [] ↦ finished s
  | r ∷ rs ↦ yields (r ∷ rs) s (finished s)
]
grouped size batch (failed e s) = failed e s
grouped size batch (yields r s st) =
    let full = yields (batch ++ r ∷ []) s (grouped size [] st) in
    let open_batch = grouped size (batch ++ r ∷ []) st in
    if leb size (length (batch ++ r ∷ [])) then full else open_batch

last_batch-grouped :
    {T : Type 0} (u : Option Exc) (size : ℕ) (batch : List T) (s : JsonLinesSource)
    → last_batch u batch s ≡ grouped size batch (end_of_file u s)
last_batch-grouped none size [] s = refl
last_batch-grouped none size (r ∷ rs) s = refl
last_batch-grouped (some e) size batch s = refl

module _ {T Json : Type 0} (loads : Line → Result Json) (row_mapper : Json → Result (Option T))
    (unreadable : Option Exc) where
  pub read_text-Moves :
      (text : Line) (s : JsonLinesSource) → Moves s (read_text loads row_mapper unreadable text s)
  read_text-Moves [] s = (_, _, refl)
  read_text-Moves (c ∷ cs) s =
      on_record-Moves (map_row loads row_mapper unreadable (loads (c ∷ cs))) (c ∷ cs) s

  read_line-size :
      (n : ℕ) (line : Line) (s : JsonLinesSource)
      → (turn_state (read_line loads row_mapper unreadable n line s)).emit_batch_size
        ≡ s.emit_batch_size
  unfolding read_line
  read_line-size n line s =
      elim (leb n s.resume_line_number)
        as (λ b.
          (turn_state (
            if b
            then passed s
            else read_text loads row_mapper unreadable (strip line) (at_line n s))).emit_batch_size
          ≡ s.emit_batch_size) [
            | true ↦ refl
            | false ↦
                let (errors, drops, same) = read_text-Moves (strip line) (at_line n s) in
                ap (λ (t : JsonLinesSource). t.emit_batch_size) same
          ]

  grouped_turn :
      (n : ℕ) (batch : List T) (lines : List Line) (t : Turn T) (size : ℕ)
      → (turn_state t).emit_batch_size ≡ size
      → ((b : List T) (s : JsonLinesSource)
          → batches_from loads row_mapper unreadable n b lines s
            ≡ grouped s.emit_batch_size b (sync_from loads row_mapper unreadable n lines s))
      → after_batch_turn loads row_mapper unreadable batch t
          (λ b s. batches_from loads row_mapper unreadable n b lines s)
        ≡ grouped size batch (
            after_turn loads row_mapper unreadable t
              (λ s. sync_from loads row_mapper unreadable n lines s))
  grouped_turn n batch lines (passed s) size h rest =
      rest batch s
      ∙ ap (λ (k : ℕ). grouped k batch (sync_from loads row_mapper unreadable n lines s)) h
  grouped_turn n batch lines (emitted r s) size h rest =
      (λ i. appended loads row_mapper unreadable (batch ++ r ∷ []) s (λ b s'. rest b s' i))
      ∙ ap
          (λ (k : ℕ).
            grouped k batch (yields r s (sync_from loads row_mapper unreadable n lines s)))
          h
  grouped_turn n batch lines (stopped e s) size h rest = refl

  pub batches_from-grouped :
      (n : ℕ) (batch : List T) (lines : List Line) (s : JsonLinesSource)
      → batches_from loads row_mapper unreadable n batch lines s
        ≡ grouped s.emit_batch_size batch (sync_from loads row_mapper unreadable n lines s)
  unfolding batches_from sync_from
  batches_from-grouped n batch [] s = last_batch-grouped unreadable s.emit_batch_size batch s
  batches_from-grouped n batch (line ∷ lines) s =
      grouped_turn (suc n) batch lines (read_line loads row_mapper unreadable (suc n) line s)
        s.emit_batch_size (read_line-size (suc n) line s)
        (λ b s'. batches_from-grouped (suc n) b lines s')

  -- The batches of `stream_batches` are the records of `stream_sync_batches` in groups of
  -- `emit_batch_size`, the last one shorter: each handed over where its last record was, with the same
  -- checkpoint and counts, the last at the end of the file. An error ends both alike, and the records
  -- that were not yet a batch are not handed over.
  pub stream_batches-grouped :
      (lines : List Line) (s : JsonLinesSource)
      → stream_batches loads row_mapper unreadable lines s
        ≡ grouped s.emit_batch_size [] (stream_sync_batches loads row_mapper unreadable lines s)
  unfolding stream_batches stream_sync_batches
  stream_batches-grouped lines s = batches_from-grouped 0 [] lines (start s)
