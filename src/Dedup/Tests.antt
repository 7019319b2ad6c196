-- ===== src/Dedup/Tests.antt =====
-- Records with equal keys, and stores that forget.
use agora_etl.Prelude.{ℕ, true, false, none, some, List, [], ◌∷◌, ◌++◌, ◌≡◌, refl, arith}
use agora_etl.Memory.Counts.{IsApart}
use agora_etl.Dedup.{Config, fail_closed, skipped, process}
use agora_etl.Dedup.InMemory.{InMemoryStore, in_memory, exists, mark_seen}
use agora_etl.Dedup.Marks.{members}
use agora_etl.Dedup.Stores.{Holds, in_memory-Remembers}
use agora_etl.Dedup.Recent.{
  Call, asks, adds, marks_new, seen, stored, marked, answers, history_answers,
  answers-history_answers,
}
use agora_etl.Dedup.Exact.{arrives, commits, discards, Event, new_run, run, Verdict, run-Verdict}

abbrev by_key : Config
by_key = record { strategy = none; max_fuzzy_keys = 100; store_failure_policy = fail_closed }

abbrev no_keys : InMemoryStore
no_keys = record { lru = []; backend = [] }

-- "a" is delivered, and comes again while "b" is in flight.
abbrev events : List (ℕ × Event)
events =
    (0, arrives "a")
    ∷ (1, arrives "b")
    ∷ (2, arrives "a")
    ∷ (3, commits "a")
    ∷ (4, arrives "a")
    ∷ []

run-Verdict_example :
    let r = run (in_memory (members "dedup") none) by_key events (new_run no_keys) in
    IsApart (r.in_flight ++ r.delivered)
    × Verdict "a" r (process (in_memory (members "dedup") none) by_key 5 "a" r.dedup).0
run-Verdict_example =
    run-Verdict (in_memory (members "dedup") none) by_key refl (Holds "dedup")
      (in_memory-Remembers "dedup") no_keys (λ j. refl) events 5 "a"

delivered_once :
    (run (in_memory (members "dedup") none) by_key events (new_run no_keys)).delivered ≡ "a" ∷ []
unfolding process agora_etl.Dedup.process_exact agora_etl.Dedup.commit agora_etl.Dedup.discard
    agora_etl.Dedup.register_commit_marker in_memory exists agora_etl.Dedup.InMemory.add_seen
    agora_etl.Membership.contains agora_etl.Membership.add agora_etl.Memory.get agora_etl.Memory.set
    agora_etl.Membership.full_key agora_etl.Membership.prefix agora_etl.Membership.expires_at
delivered_once = refl

-- The second record is dropped for the first, which is then given up: neither is delivered.
lost_to_a_discard :
    (run
      (in_memory (members "dedup") none)
      by_key
      ((0, arrives "a") ∷ (1, arrives "a") ∷ (2, discards "a") ∷ [])
      (new_run no_keys)).delivered
    ≡ []
unfolding process agora_etl.Dedup.process_exact agora_etl.Dedup.commit agora_etl.Dedup.discard
    agora_etl.Dedup.register_commit_marker in_memory exists agora_etl.Dedup.InMemory.add_seen
    agora_etl.Membership.contains agora_etl.Memory.get agora_etl.Membership.full_key
    agora_etl.Membership.prefix
lost_to_a_discard = refl

-- With room for two keys, "b" was used longer ago than "a" when "c" is stored.
abbrev uses : List (ℕ × Call)
uses =
    (0, adds "a")
    ∷ (1, adds "b")
    ∷ (2, asks "a")
    ∷ (3, marks_new "c")
    ∷ (4, asks "b")
    ∷ (5, asks "a")
    ∷ []

answers-history_answers_example : answers "dedup" 2 uses no_keys ≡ history_answers 2 uses []
answers-history_answers_example = answers-history_answers "dedup" 2 uses (omega arith)

least_recent_is_forgotten :
    history_answers 2 uses []
    ≡ stored ∷ stored ∷ seen true ∷ marked true ∷ seen false ∷ seen true ∷ []
least_recent_is_forgotten = refl

-- A key that was marked for five seconds is still there a hundred seconds later.
time_to_live_is_lost :
    (exists
      (members "dedup")
      none
      100
      "a"
      (mark_seen (members "dedup") none 0 "a" (some 5) no_keys).1).0
    ≡ true
unfolding exists mark_seen agora_etl.Membership.contains agora_etl.Membership.mark_if_new
    agora_etl.Memory.set_if_absent agora_etl.Memory.get agora_etl.Membership.full_key
    agora_etl.Membership.prefix agora_etl.Membership.expires_at
time_to_live_is_lost = refl
