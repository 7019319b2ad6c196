-- ===== src/Dedup/Recent.antt =====
-- `InMemoryStore` with a maximal size against the history of its calls, which forgets nothing.
use Prim.Native.String.{String}
use mathlib.Core.Path.{subst}
use agora_etl.Prelude.{
  ℕ, zero, suc, ◌<◌, Bool, true, false, not, inl, inr, Bool-cases, none, some, List, [], ◌∷◌, take,
  if◌then◌else◌, ◌≡◌, refl, sym, ap, ◌∙◌, arith,
}
use agora_etl.Memory.Counts.{IsApart}
use agora_etl.Memory.Finds.{mem}
use agora_etl.Membership.{add}
use agora_etl.Dedup.{remove}
use agora_etl.Dedup.Order.{
  touch-IsApart, take-touch, mem-touch, touch_within, mem-touch_within, length-remove, take-IsApart,
  length-take,
}
use agora_etl.Dedup.Trim.{trim-Kept}
use agora_etl.Dedup.Marks.{seen_if, members, Marks, contains-Marks, add-Marks}
use agora_etl.Dedup.InMemory.{
  InMemoryStore, exists_in_lru, remember_with_lru, mark_absent, exists, add_seen, mark_seen,
}

-- The calls, each at its time. A `mark` is `mark_if_new`.
pub data Call : Type 0 where
  asks adds marks_new : String → Call

pub data Answer : Type 0 where
  seen : Bool → Answer
  stored : Answer
  marked : Bool → Answer

abbrev pub answer_seen : Bool × InMemoryStore → Answer × InMemoryStore
answer_seen (b, s) = (seen b, s)

abbrev pub answer_marked : Bool × InMemoryStore → Answer × InMemoryStore
answer_marked (b, s) = (marked b, s)

-- The history has every key that was ever stored, the one that was used last first. A key is
-- remembered if it is among the first `n`, and to ask for one that is remembered is a use.
abbrev pub in_history : ℕ → Call → List String → Answer × List String
in_history n (asks k) h = (seen (mem k (take n h)), if mem k (take n h) then k ∷ remove k h else h)
in_history n (adds k) h = (stored, k ∷ remove k h)
in_history n (marks_new k) h = (marked (not (mem k (take n h))), k ∷ remove k h)

abbrev pub history_answers : ℕ → List (ℕ × Call) → List String → List Answer
history_answers n [] h = []
history_answers n ((now, c) ∷ cs) h =
    (in_history n c h).0 ∷ history_answers n cs (in_history n c h).1

module _ (namespace : String) where
  -- The `OrderedDict` is the start of the history, and the backend has its keys.
  record Tracks (n : ℕ) (h : List String) (s : InMemoryStore) : Type 0 where
    lru : s.lru ≡ take n h
    marks : Marks namespace s.backend (λ j. mem j (take n h))
    apart : IsApart h

  remember-Tracks :
      (n now : ℕ) (k : String) (h : List String) (s : InMemoryStore)
      → 0 < n
      → Tracks n h s
      → Tracks n (k ∷ remove k h) (remember_with_lru (members namespace) n now k none s)
  unfolding remember_with_lru
  remember-Tracks n now k h s pos t =
      let a = take-IsApart n h t.apart in
      let l : List String = k ∷ remove k (take n h) in
      let added : Marks namespace (add (members namespace) now k none s.backend) (λ j. mem j l) =
        λ j.
          add-Marks namespace now k s.backend (λ i. mem i (take n h)) t.marks j
          ∙ ap seen_if (sym (mem-touch k j (take n h) a)) in
      let r =
        trim-Kept namespace n l (add (members namespace) now k none s.backend) pos
          (touch-IsApart k (take n h) a)
          (omega (arith, length-remove k (take n h), length-take n h)) added in
      rw (t.lru) (record {
        lru = r.lru ∙ take-touch n k h pos;
        marks = λ j. r.marks j ∙ ap (λ (q : List String). seen_if (mem j q)) (take-touch n k h pos);
        apart = touch-IsApart k h t.apart;
      })

  record AskTracks (n : ℕ) (k : String) (h : List String) (r : Bool × InMemoryStore) : Type 0 where
    answer : r.0 ≡ mem k (take n h)
    tracks : Tracks n (if mem k (take n h) then k ∷ remove k h else h) r.1

  exists-AskTracks :
      (n now : ℕ) (k : String) (h : List String) (s : InMemoryStore)
      → 0 < n
      → Tracks n h s
      → AskTracks n k h (exists_in_lru (members namespace) now k s)
  unfolding exists_in_lru
  exists-AskTracks n now k h s pos t = rw (t.lru) (elim (Bool-cases (mem k (take n h))) [
    | inl here ↦
        simp (here, contains-Marks namespace now k s.backend (λ j. mem j (take n h)) t.marks)
          (record {
            answer = sym here;
            tracks = simp (here) (record {
              lru = touch_within n k h pos here;
              marks = λ j. t.marks j ∙ ap seen_if (mem-touch_within n k j h pos t.apart here);
              apart = touch-IsApart k h t.apart;
            });
          })
    | inr away ↦ simp (away) (record {
      answer = sym away;
      tracks = simp (away) (record { lru = refl; marks = t.marks; apart = t.apart });
    })
  ])

  abbrev pub step : ℕ → ℕ → Call → InMemoryStore → Answer × InMemoryStore
  step n now (asks k) s = answer_seen (exists (members namespace) (some n) now k s)
  step n now (adds k) s = (stored, add_seen (members namespace) (some n) now k s)
  step n now (marks_new k) s = answer_marked (mark_seen (members namespace) (some n) now k none s)

  abbrev pub answers : ℕ → List (ℕ × Call) → InMemoryStore → List Answer
  answers n [] s = []
  answers n ((now, c) ∷ cs) s = (step n now c s).0 ∷ answers n cs (step n now c s).1

  record StepTracks (n : ℕ) (a : Answer × InMemoryStore) (b : Answer × List String) : Type 0 where
    answer : a.0 ≡ b.0
    tracks : Tracks n b.1 a.1

  ask-StepTracks :
      (n : ℕ) (k : String) (h : List String) (r : Bool × InMemoryStore)
      → AskTracks n k h r
      → StepTracks n (answer_seen r) (in_history n (asks k) h)
  ask-StepTracks n k h (b, s) t = record { answer = ap seen t.answer; tracks = t.tracks }

  mark-StepTracks :
      (n now : ℕ) (k : String) (h : List String) (r : Bool × InMemoryStore)
      → 0 < n
      → AskTracks n k h r
      → StepTracks n
          (answer_marked (mark_absent (members namespace) n now k none r))
          (in_history n (marks_new k) h)
  mark-StepTracks n now k h (true, s) pos t = record {
    answer = ap (λ (b : Bool). marked (not b)) t.answer;
    tracks =
        subst (λ (b : Bool). Tracks n (if b then k ∷ remove k h else h) s) (sym t.answer) t.tracks;
  }
  mark-StepTracks n now k h (false, s) pos t = record {
    answer = ap (λ (b : Bool). marked (not b)) t.answer;
    tracks = remember-Tracks n now k h s pos (
        subst (λ (b : Bool). Tracks n (if b then k ∷ remove k h else h) s) (sym t.answer) t.tracks);
  }

  step-StepTracks :
      (n now : ℕ) (c : Call) (h : List String) (s : InMemoryStore)
      → 0 < n
      → Tracks n h s
      → StepTracks n (step n now c s) (in_history n c h)
  unfolding exists add_seen mark_seen
  step-StepTracks n now (asks k) h s pos t =
      ask-StepTracks n k h (exists_in_lru (members namespace) now k s)
        (exists-AskTracks n now k h s pos t)
  step-StepTracks n now (adds k) h s pos t = record {
    answer = refl;
    tracks = remember-Tracks n now k h s pos t;
  }
  step-StepTracks n now (marks_new k) h s pos t =
      mark-StepTracks n now k h (exists_in_lru (members namespace) now k s) pos
        (exists-AskTracks n now k h s pos t)

  answers-Tracks :
      (n : ℕ) (cs : List (ℕ × Call)) (h : List String) (s : InMemoryStore)
      → 0 < n
      → Tracks n h s
      → answers n cs s ≡ history_answers n cs h
  answers-Tracks n [] h s pos t = refl
  answers-Tracks n ((now, c) ∷ cs) h s pos t =
      let r = step-StepTracks n now c h s pos t in
      ap (λ (a : Answer). a ∷ answers n cs (step n now c s).1) r.answer
      ∙ ap (λ (l : List Answer). (in_history n c h).0 ∷ l)
          (answers-Tracks n cs (in_history n c h).1 (step n now c s).1 pos r.tracks)

  -- An `InMemoryStore` with a maximal size above zero that starts empty, whatever calls of `exists`,
  -- `add` and `mark_if_new` (with no time to live) follow each other at whatever times, answers as
  -- if it had kept every key and looked only at the `max_size` keys that were used last: a key is
  -- forgotten only for keys that were used after it.
  pub answers-history_answers :
      (max_size : ℕ) (cs : List (ℕ × Call))
      → 0 < max_size
      → answers max_size cs (record { lru = []; backend = [] }) ≡ history_answers max_size cs []
  answers-history_answers zero cs pos = absurd (omega (arith, pos))
  answers-history_answers (suc n) cs pos =
      answers-Tracks (suc n) cs [] (record { lru = []; backend = [] }) pos
        (record { lru = refl; marks = λ j. refl; apart = tt })
