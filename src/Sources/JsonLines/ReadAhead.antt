-- ===== src/Sources/JsonLines/ReadAhead.antt =====
-- What `_read_batch` leaves of the lines, and what it raises.
use agora_etl.Prelude.{
  ℕ, suc, ◌+◌, ◌≤◌, ◌<◌, List, [], ◌∷◌, length, leb, if◌then◌else◌, Option, ◌≡◌, refl, true, false,
  Bool-cases, ◌⊎◌, inl, inr, ◌≢◌, arith, none,
}
use agora_etl.Failures.{Exc, Result}
use agora_etl.Sources.JsonLines.{Line, strip, row_of, ReadBatch, with_row, after_row, read_batch}

module _ {T Json : Type 0} (loads : Line → Result Json) (row_mapper : Json → Result (Option T))
    (unreadable : Option Exc) where
  after_row-length :
      (size count n : ℕ) (text : Line) (lines : List Line) (go : ℕ → ReadBatch Json)
      → ((c : ℕ) → length (go c).unread ≤ length lines)
      → length (after_row loads row_mapper unreadable size count n text lines go).unread
        ≤ length lines
  after_row-length size count n [] lines go h = h (count + 1)
  after_row-length size count n (c ∷ cs) lines go h =
      elim (leb size (count + 1))
        as (λ b.
          length
            (if b
              then record {
                rows = row_of loads row_mapper unreadable n (c ∷ cs) ∷ [];
                line_number = n;
                unread = lines;
                raised = none;
              }
              else with_row (row_of loads row_mapper unreadable n (c ∷ cs)) (go (count + 1))).unread
          ≤ length lines) [ true ↦ omega arith | false ↦ h (count + 1) ]

  after_row-rows :
      (size count n : ℕ) (text : Line) (lines : List Line) (go : ℕ → ReadBatch Json)
      → (after_row loads row_mapper unreadable size count n text lines go).rows ≢ []
  after_row-rows size count n [] lines go = λ e. cc
  after_row-rows size count n (c ∷ cs) lines go = ground arith

  read_batch-length :
      (resume size count n : ℕ) (lines : List Line)
      → length (read_batch loads row_mapper unreadable resume size count n lines).unread
        ≤ length lines
  unfolding read_batch
  read_batch-length resume size count n [] = omega arith
  read_batch-length resume size count n (line ∷ lines) = elim (Bool-cases (leb (suc n) resume)) [
    | inl skip ↦ rw skip (omega (arith, read_batch-length resume size count (suc n) lines))
    | inr read ↦ rw read (
        omega (
          arith,
          after_row-length size count (suc n) (strip line) lines
              (λ c. read_batch loads row_mapper unreadable resume size c (suc n) lines)
              (λ c. read_batch-length resume size c (suc n) lines),
        ))
  ]

  -- A batch with no row has read the file to its end, any other has read a line.
  abbrev pub Ends : ReadBatch Json → List Line → Type 0
  Ends b lines =
      ((b.rows ≡ []) × (b.unread ≡ []) × (b.raised ≡ unreadable))
      ⊎ ((b.rows ≢ []) × (length b.unread < length lines))

  later-Ends :
      (b : ReadBatch Json) (line : Line) (lines : List Line) → Ends b lines → Ends b (line ∷ lines)
  later-Ends b line lines (inl h) = inl h
  later-Ends b line lines (inr (some_row, h)) = inr (some_row, omega arith)

  pub read_batch-Ends :
      (resume size count n : ℕ) (lines : List Line)
      → Ends (read_batch loads row_mapper unreadable resume size count n lines) lines
  unfolding read_batch
  read_batch-Ends resume size count n [] = inl (refl, refl, refl)
  read_batch-Ends resume size count n (line ∷ lines) = elim (Bool-cases (leb (suc n) resume)) [
    | inl skip ↦ rw skip (
        later-Ends (read_batch loads row_mapper unreadable resume size count (suc n) lines) line
          lines (read_batch-Ends resume size count (suc n) lines))
    | inr read ↦ rw read (
        inr (
          after_row-rows size count (suc n) (strip line) lines
              (λ c. read_batch loads row_mapper unreadable resume size c (suc n) lines),
          omega (
            arith,
            after_row-length size count (suc n) (strip line) lines
                (λ c. read_batch loads row_mapper unreadable resume size c (suc n) lines)
                (λ c. read_batch-length resume size c (suc n) lines),
          ),
        ))
  ]

  -- What the iteration raised, if a batch ends with it.
  abbrev pub Stops : ReadBatch Json → Type 0
  Stops b = (b.raised ≡ none) ⊎ (b.raised ≡ unreadable)

  after_row-Stops :
      (size count n : ℕ) (text : Line) (lines : List Line) (go : ℕ → ReadBatch Json)
      → ((c : ℕ) → Stops (go c))
      → Stops (after_row loads row_mapper unreadable size count n text lines go)
  after_row-Stops size count n [] lines go h = h (count + 1)
  after_row-Stops size count n (c ∷ cs) lines go h = elim (Bool-cases (leb size (count + 1))) [
    | inl full ↦ rw full (inl refl)
    | inr more ↦ rw more (h (count + 1))
  ]

  pub read_batch-Stops :
      (resume size count n : ℕ) (lines : List Line)
      → Stops (read_batch loads row_mapper unreadable resume size count n lines)
  unfolding read_batch
  read_batch-Stops resume size count n [] = inr refl
  read_batch-Stops resume size count n (line ∷ lines) = elim (Bool-cases (leb (suc n) resume)) [
    | inl skip ↦ rw skip (read_batch-Stops resume size count (suc n) lines)
    | inr read ↦ rw read (
        after_row-Stops size count (suc n) (strip line) lines
          (λ c. read_batch loads row_mapper unreadable resume size c (suc n) lines)
          (λ c. read_batch-Stops resume size c (suc n) lines))
  ]
