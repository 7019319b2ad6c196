-- ===== src/Memory/Tests.antt =====
-- An entry that expires, and what the store keeps of it.
use agora_etl.Prelude.{true, false, none, some, [], ◌∷◌, ◌≡◌, refl}
use agora_etl.Memory.{
  StoredValue, get, set, gets, sets, adds, deletes, counts, deletes_prefix, found, added, counted,
  removed, done,
}
use agora_etl.Memory.Refines.{Calls, answers_of, Follows, answers_of-Follows}

-- Expires at 15.
abbrev short_lived : StoredValue
short_lived = record { value = 1; expires_at = some 15 }

abbrev lasting : StoredValue
lasting = record { value = 2; expires_at = none }

-- From 10 on: at 18 the first entry has expired, and is replaced.
abbrev calls : Calls
calls =
    (0, sets "seen:a" short_lived)
    ∷ (3, adds "seen:a" lasting)
    ∷ (1, gets "seen:a")
    ∷ (4, counts "seen:")
    ∷ (0, adds "seen:a" lasting)
    ∷ (9, gets "seen:a")
    ∷ (0, deletes_prefix "seen:")
    ∷ (0, gets "seen:a")
    ∷ []

answers_of-Follows_example : Follows 10 calls (λ j. none) (answers_of 10 calls [])
answers_of-Follows_example = answers_of-Follows 10 calls

calls_are_answered :
    answers_of 10 calls []
    ≡ done
      ∷ added false
      ∷ found (some short_lived)
      ∷ counted 0
      ∷ added true
      ∷ found (some lasting)
      ∷ removed 1
      ∷ found none
      ∷ []
unfolding agora_etl.Memory.step agora_etl.Memory.set agora_etl.Memory.get
    agora_etl.Memory.set_if_absent agora_etl.Memory.count_prefix agora_etl.Memory.delete_prefix
calls_are_answered = refl

expired_at_its_time : get 15 "a" (("a", short_lived) ∷ []) ≡ (none, [])
unfolding get
expired_at_its_time = refl
