-- ===== src/Sources/Tests.antt =====
-- Readings of small files. A line's JSON is its first code point; '-' is no JSON, '#' is not mapped.
use agora_etl.Prelude.{
  ℕ, ◌≤◌, Option, some, none, List, [], ◌∷◌, ◌++◌, length, true, take, ◌==◌, if◌then◌else◌, ◌≡◌,
  refl, arith,
}
use agora_etl.Failures.{Exc, Result, ok, err, value_error}
use agora_etl.Sources.{
  Stream, yields, values, end_error, end_state, SourceIdentity, SourceIdentityMismatchPolicy,
}
use agora_etl.Sources.JsonLines.{
  Line, JsonLinesSource, SourceRecordFailurePolicy, json_lines_source, stream_sync_batches,
  stream_batches, read_records, prepare_resume, strip,
}
use agora_etl.Sources.JsonLines.Grouping.{grouped, stream_batches-grouped}
use agora_etl.Sources.JsonLines.Reading.{Ahead, read_records-stream_sync_batches}
use agora_etl.Sources.JsonLines.Saved.{saved}
use agora_etl.Sources.JsonLines.Cut.{limit_batches_loses}
use agora_etl.Sources.JsonLines.Resuming.{stream-prepare_resume}
use agora_etl.Sources.JsonLines.Batches.{ResumesAfter, stream_batches-prepare_resume}
use agora_etl.Sources.Limited.{limit_items, limit_batches}
use agora_etl.Sources.Limited.Laws.{concat, concat-limit_batches}

abbrev loads : Line → Result ℕ
loads [] = err (value_error "empty")
loads (c ∷ cs) = if c == b'-' then err (value_error "not JSON") else ok c

abbrev row_mapper : ℕ → Result (Option ℕ)
row_mapper c = if c == b'#' then ok none else ok (some c)

abbrev lines : List Line
lines =
    (b' ' ∷ b'a' ∷ 10 ∷ [])
    ∷ (10 ∷ [])
    ∷ (b'b' ∷ 10 ∷ [])
    ∷ (b'#' ∷ 10 ∷ [])
    ∷ (b'c' ∷ 10 ∷ [])
    ∷ (b'd' ∷ [])
    ∷ []

abbrev jsonl : JsonLinesSource
jsonl =
    json_lines_source 2 3 true SourceRecordFailurePolicy.fail_closed
      SourceIdentityMismatchPolicy.fail_closed

abbrev here : SourceIdentity
here = record {
  uri = "file:///in.jsonl";
  size_bytes = 16;
  modified_time_ns = 7;
  device = some 1;
  inode = none;
}

abbrev undecodable : Exc
undecodable = value_error "invalid start byte"

strips : strip (b' ' ∷ b'a' ∷ b' ' ∷ b'b' ∷ 10 ∷ []) ≡ b'a' ∷ b' ' ∷ b'b' ∷ []
unfolding strip
strips = refl

streams :
    values (stream_sync_batches loads row_mapper none lines jsonl) ≡ b'a' ∷ b'b' ∷ b'c' ∷ b'd' ∷ []
unfolding stream_sync_batches strip
streams = refl

batches :
    values (stream_batches loads row_mapper none lines jsonl)
    ≡ (b'a' ∷ b'b' ∷ b'c' ∷ []) ∷ (b'd' ∷ []) ∷ []
unfolding stream_batches strip
batches = refl

reads_ahead :
    values (read_records loads row_mapper none lines jsonl) ≡ b'a' ∷ b'b' ∷ b'c' ∷ b'd' ∷ []
unfolding read_records strip
reads_ahead = refl

-- A batch that an error interrupts is not handed over.
interrupted :
    values (stream_batches loads row_mapper none ((b'a' ∷ []) ∷ (b'-' ∷ []) ∷ []) jsonl) ≡ []
unfolding stream_batches strip
interrupted = refl

refuses_other_file :
    prepare_resume (record here { size_bytes = 17 }) (some (saved here jsonl)) jsonl ≡ none
unfolding prepare_resume
refuses_other_file = refl

stream_batches-grouped_example :
    stream_batches loads row_mapper none lines jsonl
    ≡ grouped 3 [] (stream_sync_batches loads row_mapper none lines jsonl)
stream_batches-grouped_example = stream_batches-grouped loads row_mapper none lines jsonl

read_records-stream_sync_batches_example :
    Ahead loads row_mapper
      (some undecodable)
      (read_records loads row_mapper (some undecodable) lines jsonl)
      (stream_sync_batches loads row_mapper (some undecodable) lines jsonl)
read_records-stream_sync_batches_example =
    read_records-stream_sync_batches loads row_mapper (some undecodable) lines jsonl

-- Where the file cannot be decoded after these lines, the last of the four records is lost.
reads_less :
    (values (read_records loads row_mapper (some undecodable) lines jsonl)
      ≡ b'a' ∷ b'b' ∷ b'c' ∷ [])
    × (values (stream_sync_batches loads row_mapper (some undecodable) lines jsonl)
        ≡ b'a' ∷ b'b' ∷ b'c' ∷ b'd' ∷ [])
unfolding read_records stream_sync_batches strip
reads_less = (refl, refl)

four_records : 2 ≤ length (values (stream_sync_batches loads row_mapper none lines jsonl))
unfolding stream_sync_batches strip
four_records = omega arith

two_batches : 1 ≤ length (values (stream_batches loads row_mapper none lines jsonl))
unfolding stream_batches strip
two_batches = omega arith

stream-prepare_resume_example :
    (again : JsonLinesSource) × (prepare_resume here
        (some (
          saved here (
            end_state
              (limit_items 2 jsonl (stream_sync_batches loads row_mapper none lines jsonl)))))
        jsonl
      ≡ some again)
    × (values (limit_items 2 jsonl (stream_sync_batches loads row_mapper none lines jsonl))
          ++ values (stream_sync_batches loads row_mapper none lines again)
        ≡ values (stream_sync_batches loads row_mapper none lines jsonl))
    × (end_error (stream_sync_batches loads row_mapper none lines again)
        ≡ end_error (stream_sync_batches loads row_mapper none lines jsonl))
stream-prepare_resume_example =
    stream-prepare_resume loads row_mapper none here lines jsonl 2 (omega arith) four_records

stream_batches-prepare_resume_example : ResumesAfter loads row_mapper none here lines jsonl 1
stream_batches-prepare_resume_example =
    stream_batches-prepare_resume loads row_mapper none here lines jsonl 1 (omega arith) two_batches

concat-limit_batches_example :
    concat (values (limit_batches 2 jsonl (stream_batches loads row_mapper none lines jsonl)))
    ≡ take 2 (concat (values (stream_batches loads row_mapper none lines jsonl)))
concat-limit_batches_example =
    concat-limit_batches 2 jsonl (stream_batches loads row_mapper none lines jsonl)

abbrev read_to : ℕ → ℕ → JsonLinesSource
read_to n drops = record jsonl { last_line_number = n; record_drop_count = drops }

first_batch :
    stream_batches loads row_mapper none lines jsonl
    ≡ yields
        (b'a' ∷ b'b' ∷ b'c' ∷ [])
        (read_to 5 1)
        (yields (b'd' ∷ []) (read_to 6 1) (Stream.finished (read_to 6 1)))
unfolding stream_batches strip
first_batch = refl

-- Of the records a, b, c and d, a limit of 1 hands over a, and the run that resumes hands over d.
limit_batches_loses_example :
    (again : JsonLinesSource) × (prepare_resume here
        (some (
          saved here
            (end_state (limit_batches 1 jsonl (stream_batches loads row_mapper none lines jsonl)))))
        jsonl
      ≡ some again)
    × (concat (values (limit_batches 1 jsonl (stream_batches loads row_mapper none lines jsonl)))
          ++ concat (values (stream_batches loads row_mapper none lines again))
        ≡ b'a' ∷ b'd' ∷ [])
limit_batches_loses_example =
    limit_batches_loses loads row_mapper none here lines jsonl (read_to 5 1) 1
      (b'a' ∷ b'b' ∷ b'c' ∷ []) (yields (b'd' ∷ []) (read_to 6 1) (Stream.finished (read_to 6 1)))
      first_batch (omega arith) (omega arith)
