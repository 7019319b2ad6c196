-- ===== src/Sources/JsonLines/Cut.antt =====
-- Resuming after a batch that a limit cut.
use mathlib.Core.Path.{subst}
use agora_etl.Prelude.{
  ℕ, zero, suc, ◌≤◌, ◌<◌, List, ◌++◌, length, take, leb, Option, some, ◌≡◌, sym, false, arith,
}
use agora_etl.Failures.{Exc, Result}
use agora_etl.Sources.{Stream, yields, values, end_state, SourceIdentity}
use agora_etl.Sources.JsonLines.{Line, JsonLinesSource, SourceError, stream_batches, prepare_resume}
use agora_etl.Sources.JsonLines.Saved.{saved}
use agora_etl.Sources.Limited.{limit_items, limit_batches}
use agora_etl.Sources.Limited.Laws.{concat, append-nil}
use agora_etl.Sources.JsonLines.Batches.{stream_batches-prepare_resume}

module _ {T Json : Type 0} (loads : Line → Result Json) (row_mapper : Json → Result (Option T))
    (unreadable : Option Exc) where
  abbrev Batches : Type 0
  Batches = Stream JsonLinesSource SourceError (List T)

  cut_first :
      (here : SourceIdentity) (lines : List Line) (s s' : JsonLinesSource) (n : ℕ) (batch : List T)
      (later : Batches)
      → stream_batches loads row_mapper unreadable lines s ≡ yields batch s' later
      → 0 < n
      → n < length batch
      → (again : JsonLinesSource) × (prepare_resume here
            (some (saved here (end_state (limit_batches n s (yields batch s' later)))))
            s
          ≡ some again)
        × (concat (values (limit_batches n s (yields batch s' later)))
              ++ concat (values (stream_batches loads row_mapper unreadable lines again))
            ≡ take n batch ++ concat (values later))
  unfolding limit_batches limit_items
  cut_first here lines s s' zero batch later h pos lt = absurd (omega (arith, pos))
  cut_first here lines s s' (suc n) batch later h pos lt =
      let all : Batches = stream_batches loads row_mapper unreadable lines s in
      let (again, ready, vs, e) =
        stream_batches-prepare_resume loads row_mapper unreadable here lines s 1 (omega arith)
          (subst (λ (st : Batches). 1 ≤ length (values st)) (sym h) (omega arith)) in
      let cut : leb (length batch) (suc n) ≡ false = ground (arith, lt) in
      let ready' =
        subst
          (λ (st : Batches).
            prepare_resume here (some (saved here (end_state (limit_items 1 s st)))) s ≡ some again)
          h ready in
      let vs' =
        subst
          (λ (st : Batches).
            values (limit_items 1 s st)
              ++ values (stream_batches loads row_mapper unreadable lines again)
            ≡ values st)
          h vs in
      let same : values (stream_batches loads row_mapper unreadable lines again) ≡ values later =
        cc (vs') in
      rw cut (again, ready', (λ i. append-nil (take (suc n) batch) i ++ concat (same i)))

  -- Where a limit cuts the first batch, the records cut off are in no later run either: a source that
  -- resumes from the checkpoint of the cut batch hands over the batches after it.
  pub limit_batches_loses :
      (here : SourceIdentity) (lines : List Line) (s s' : JsonLinesSource) (n : ℕ) (batch : List T)
      (later : Batches)
      → stream_batches loads row_mapper unreadable lines s ≡ yields batch s' later
      → 0 < n
      → n < length batch
      → (again : JsonLinesSource) × (prepare_resume here
            (some (
              saved here (
                end_state
                  (limit_batches n s (stream_batches loads row_mapper unreadable lines s)))))
            s
          ≡ some again)
        × (concat (values (limit_batches n s (stream_batches loads row_mapper unreadable lines s)))
              ++ concat (values (stream_batches loads row_mapper unreadable lines again))
            ≡ take n batch ++ concat (values later))
  limit_batches_loses here lines s s' n batch later h pos lt =
      subst
        (λ (st : Batches).
          (again : JsonLinesSource) × (prepare_resume here
              (some (saved here (end_state (limit_batches n s st)))) s
            ≡ some again)
          × (concat (values (limit_batches n s st))
                ++ concat (values (stream_batches loads row_mapper unreadable lines again))
              ≡ take n batch ++ concat (values later)))
        (sym h) (cut_first here lines s s' n batch later h pos lt)
