-- ===== src/Sources/JsonLines.antt =====
-- src/agora/sources/file/jsonlines.py: `JsonLinesSource` over the lines of its file, with its three
-- ways of reading. The JSON parser and the row mapper are parameters, and so is what iterating over the
-- file raises after these lines, such as a UnicodeDecodeError.
pub mod ReadAhead
pub mod Reading
pub mod Grouping
pub mod Saved
pub mod Resuming
pub mod Chunks
pub mod Batches
pub mod Cut
use mathlib.Core.List.{reverse}
use Prim.Native.String.{String}
use agora_etl.Prelude.{
  ℕ, zero, suc, ◌+◌, max, Bool, true, false, ◌&&◌, ◌||◌, Option, none, some, List, [], ◌∷◌, ◌++◌,
  length, leb, ltb, ◌==◌, if◌then◌else◌,
}
use agora_etl.Failures.{Exc, Result, ok, err}
use agora_etl.Sources.{
  Stream, finished, failed, yields, SourceIdentity, SourceIdentityMismatchPolicy, Checkpoint,
  Accepted, accepted, declined, refused, accept_checkpoint_identity,
}

-- A line as its code points.
abbrev pub Line : Type 0
Line = List ℕ

pub data SourceRecordFailurePolicy : Type 0 where
  fail_closed log_and_continue : SourceRecordFailurePolicy

pub record SourceRecordError : Type 0 where
  pub original : Exc
  pub record_text : Line
  pub checkpoint : Option ℕ

-- What a reading raises: an error of a record, or what the iteration over the file raised.
pub data SourceError : Type 0 where
  record_error : SourceRecordError → SourceError
  read_error : Exc → SourceError

pub record JsonLinesSource : Type 0 where
  pub batch_size : ℕ
  pub emit_batch_size : ℕ
  pub emit_batches : Bool
  pub on_record_error : SourceRecordFailurePolicy
  pub identity_policy : SourceIdentityMismatchPolicy
  pub resume_line_number : ℕ
  pub last_line_number : ℕ
  pub record_error_count : ℕ
  pub record_drop_count : ℕ

abbrev pub json_lines_source :
    (batch_size emit_batch_size : ℕ)
    → Bool
    → SourceRecordFailurePolicy
    → SourceIdentityMismatchPolicy
    → JsonLinesSource
json_lines_source batch_size emit_batch_size emit p i = record {
  batch_size = max batch_size 1;
  emit_batch_size = max emit_batch_size 1;
  emit_batches = emit;
  on_record_error = p;
  identity_policy = i;
  resume_line_number = 0;
  last_line_number = 0;
  record_error_count = 0;
  record_drop_count = 0;
}

abbrev pub current_checkpoint : JsonLinesSource → Option ℕ
current_checkpoint s = if s.last_line_number == 0 then none else some s.last_line_number

abbrev line_of : Option Checkpoint → ℕ
line_of none = 0
line_of (some c) = elim c.line_number [ none ↦ 0 | some n ↦ n ]

-- `none` is SourceIdentityMismatchError.
unfoldable pub prepare_resume :
    SourceIdentity → Option Checkpoint → JsonLinesSource → Option JsonLinesSource
unfolding accept_checkpoint_identity
prepare_resume current c s = elim (accept_checkpoint_identity s.identity_policy current c) [
  | accepted ↦ some (record s { resume_line_number = line_of c })
  | declined ↦ some (record s { resume_line_number = 0 })
  | refused ↦ none
]

-- What `str.isspace` holds of.
abbrev is_space : ℕ → Bool
is_space c =
    (leb 9 c && leb c 13)
    || (leb 28 c && leb c 32)
    || (c == 133)
    || (c == 160)
    || (c == 5760)
    || (leb 8192 c && leb c 8202)
    || (c == 8232)
    || (c == 8233)
    || (c == 8239)
    || (c == 8287)
    || (c == 12288)

unfoldable pub drop_spaces : Line → Line
drop_spaces [] = []
drop_spaces (c ∷ cs) = if is_space c then drop_spaces cs else c ∷ cs

unfoldable pub strip : Line → Line
unfolding drop_spaces
strip line = reverse (drop_spaces (reverse (drop_spaces line)))

abbrev pub is_empty : {A : Type 0} → List A → Bool
is_empty [] = true
is_empty (x ∷ xs) = false

abbrev pub start : JsonLinesSource → JsonLinesSource
start s = record s { record_error_count = 0; record_drop_count = 0 }

abbrev pub at_line : ℕ → JsonLinesSource → JsonLinesSource
at_line n s = record s { last_line_number = n }

abbrev pub count_drop : JsonLinesSource → JsonLinesSource
count_drop s = record s { record_drop_count = s.record_drop_count + 1 }

abbrev pub count_error : JsonLinesSource → JsonLinesSource
count_error s = record s { record_error_count = s.record_error_count + 1 }

-- One turn of a reading loop.
pub data Turn (T : Type 0) : Type 0 where
  passed : JsonLinesSource → Turn T
  emitted : T → JsonLinesSource → Turn T
  stopped : SourceRecordError → JsonLinesSource → Turn T

abbrev on_error : {T : Type 0} → SourceRecordFailurePolicy → Exc → Line → JsonLinesSource → Turn T
on_error SourceRecordFailurePolicy.log_and_continue e text s = passed (count_drop s)
on_error SourceRecordFailurePolicy.fail_closed e text s =
    stopped (record { original = e; record_text = text; checkpoint = current_checkpoint s }) s

abbrev on_record : {T : Type 0} → Result (Option T) → Line → JsonLinesSource → Turn T
on_record (ok (some r)) text s = emitted r s
on_record (ok none) text s = passed (count_drop s)
on_record (err e) text s = on_error s.on_record_error e text (count_error s)

abbrev pub end_of_file :
    {A : Type 0} → Option Exc → JsonLinesSource → Stream JsonLinesSource SourceError A
end_of_file none s = finished s
end_of_file (some e) s = failed (read_error e) s

-- `if batch: yield batch`, where the file was read to its end.
abbrev pub last_batch :
    {T : Type 0}
    → Option Exc
    → List T
    → JsonLinesSource
    → Stream JsonLinesSource SourceError (List T)
last_batch (some e) batch s = failed (read_error e) s
last_batch none [] s = finished s
last_batch none (r ∷ rs) s = yields (r ∷ rs) s (finished s)

-- A row of `_read_batch`: its line number, its stripped text, and the parser's answer if it has text.
pub record Row (Json : Type 0) : Type 0 where
  pub line_num : ℕ
  pub text : Line
  pub parsed : Option (Result Json)

-- `raised` is an exception of the iteration, with which the rows are lost.
pub record ReadBatch (Json : Type 0) : Type 0 where
  pub rows : List (Row Json)
  pub line_number : ℕ
  pub unread : List Line
  pub raised : Option Exc

abbrev pub with_row : {Json : Type 0} → Row Json → ReadBatch Json → ReadBatch Json
with_row row b = record b { rows = row ∷ b.rows }

module _ {T Json : Type 0} (loads : Line → Result Json) (row_mapper : Json → Result (Option T))
    (unreadable : Option Exc) where
  abbrev map_row : Result Json → Result (Option T)
  map_row (ok json) = row_mapper json
  map_row (err e) = err e

  -- A turn of `stream_sync_batches` and of `stream_batches`.
  abbrev pub read_text : Line → JsonLinesSource → Turn T
  read_text text s = if is_empty text then passed s else on_record (map_row (loads text)) text s

  unfoldable pub read_line : ℕ → Line → JsonLinesSource → Turn T
  read_line n line s =
      if leb n s.resume_line_number then passed s else read_text (strip line) (at_line n s)

  abbrev pub after_turn :
      Turn T
      → (JsonLinesSource → Stream JsonLinesSource SourceError T)
      → Stream JsonLinesSource SourceError T
  after_turn (passed s) go = go s
  after_turn (emitted r s) go = yields r s (go s)
  after_turn (stopped e s) go = failed (record_error e) s

  unfoldable pub sync_from : ℕ → List Line → JsonLinesSource → Stream JsonLinesSource SourceError T
  unfolding read_line
  sync_from n [] s = end_of_file unreadable s
  sync_from n (line ∷ lines) s =
      after_turn (read_line (suc n) line s) (λ s'. sync_from (suc n) lines s')

  unfoldable pub stream_sync_batches :
      List Line → JsonLinesSource → Stream JsonLinesSource SourceError T
  unfolding sync_from
  stream_sync_batches lines s = sync_from 0 lines (start s)

  abbrev pub Batches : Type 0
  Batches = Stream JsonLinesSource SourceError (List T)

  abbrev pub appended : List T → JsonLinesSource → (List T → JsonLinesSource → Batches) → Batches
  appended batch s go =
      if leb s.emit_batch_size (length batch) then yields batch s (go [] s) else go batch s

  abbrev pub after_batch_turn : List T → Turn T → (List T → JsonLinesSource → Batches) → Batches
  after_batch_turn batch (passed s) go = go batch s
  after_batch_turn batch (emitted r s) go = appended (batch ++ r ∷ []) s go
  after_batch_turn batch (stopped e s) go = failed (record_error e) s

  unfoldable pub batches_from : ℕ → List T → List Line → JsonLinesSource → Batches
  unfolding read_line
  batches_from n batch [] s = last_batch unreadable batch s
  batches_from n batch (line ∷ lines) s =
      after_batch_turn batch (read_line (suc n) line s)
        (λ batch' s'. batches_from (suc n) batch' lines s')

  unfoldable pub stream_batches : List Line → JsonLinesSource → Batches
  unfolding batches_from
  stream_batches lines s = batches_from 0 [] lines (start s)

  abbrev pub row_of : ℕ → Line → Row Json
  row_of n text = record {
    line_num = n;
    text = text;
    parsed = if is_empty text then none else some (loads text);
  }

  -- A blank line is not followed by the test of the size.
  abbrev pub after_row : ℕ → ℕ → ℕ → Line → List Line → (ℕ → ReadBatch Json) → ReadBatch Json
  after_row size count n text lines go =
      if is_empty text
      then with_row (row_of n text) (go (count + 1))
      else if leb size (count + 1)
      then record { rows = row_of n text ∷ []; line_number = n; unread = lines; raised = none }
      else with_row (row_of n text) (go (count + 1))

  unfoldable pub read_batch : (resume size count n : ℕ) → List Line → ReadBatch Json
  read_batch resume size count n [] = record {
    rows = [];
    line_number = n;
    unread = [];
    raised = unreadable;
  }
  read_batch resume size count n (line ∷ lines) =
      let go = λ (c : ℕ). read_batch resume size c (suc n) lines in
      if leb (suc n) resume then go count else after_row size count (suc n) (strip line) lines go

  abbrev pub on_parsed : Option (Result Json) → Line → JsonLinesSource → Turn T
  on_parsed none text s = passed s
  on_parsed (some parsed) text s = on_record (map_row parsed) text s

  unfoldable pub read_rows :
      List (Row Json)
      → JsonLinesSource
      → (JsonLinesSource → Stream JsonLinesSource SourceError T)
      → Stream JsonLinesSource SourceError T
  read_rows [] s go = go s
  read_rows (row ∷ rows) s go =
      after_turn (on_parsed row.parsed row.text (at_line row.line_num s))
        (λ s'. read_rows rows s' go)

  abbrev pub after_read :
      ReadBatch Json
      → JsonLinesSource
      → (ℕ → List Line → JsonLinesSource → Stream JsonLinesSource SourceError T)
      → Stream JsonLinesSource SourceError T
  after_read b s go = elim b.raised [
    | some e ↦ failed (read_error e) s
    | none ↦
        if is_empty b.rows
        then finished s
        else read_rows b.rows s (λ s'. go b.line_number b.unread s')
  ]

  unfoldable pub read_from :
      ℕ → ℕ → List Line → JsonLinesSource → Stream JsonLinesSource SourceError T
  unfolding read_batch read_rows
  read_from zero n lines s = finished s
  read_from (suc fuel) n lines s =
      after_read (read_batch s.resume_line_number s.batch_size 0 n lines) s
        (λ n' lines' s'. read_from fuel n' lines' s')

  unfoldable pub read_records : List Line → JsonLinesSource → Stream JsonLinesSource SourceError T
  unfolding read_from
  read_records lines s = read_from (suc (length lines)) 0 lines (start s)
