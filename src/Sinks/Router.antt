-- ===== src/Sinks/Router.antt =====
-- core/sink/_writers.py: `SinkRouter`, without concurrent writes, for predicates that return. Sinks are
-- known by number, as the source knows them by `id`; each has a state of its own.
pub mod Swaps
pub mod Groups
pub mod Batches
mod Tests
use mathlib.Core.Path.{fun_ext}
use agora_etl.Prelude.{
  ℕ, zero, suc, ◌+◌, Bool, true, false, Option, none, some, List, [], ◌∷◌, ◌++◌, map, length, ◌==◌,
  if◌then◌else◌,
}
use agora_etl.Failures.{Exc, Result, ok, err}
use agora_etl.Delivery.Types.{Value, WriteResult}
use agora_etl.Sinks.{
  Sink, BatchReturn, normalized, add_error, add_result, untouched, write_result_of,
}

pub record SinkRoute : Type 0 where
  pub predicate : Value → Bool
  pub sink : ℕ

pub record SinkRouter : Type 0 where
  pub routes : List SinkRoute
  pub default : Option ℕ

abbrev pub first_route : Value → List SinkRoute → Option ℕ → Option ℕ
first_route v [] default = default
first_route v (r ∷ rs) default =
    let rest = first_route v rs default in if r.predicate v then some r.sink else rest

unfoldable pub target : SinkRouter → Value → Option ℕ
target r v = first_route v r.routes r.default

abbrev pub update {ℓ} : {A : Type ℓ} → ℕ → A → (ℕ → A) → ℕ → A
update i a f j = if i == j then a else f j

abbrev mem : ℕ → List ℕ → Bool
mem i [] = false
mem i (j ∷ js) = if j == i then true else mem i js

abbrev unique_from : List SinkRoute → Option ℕ → List ℕ → List ℕ
unique_from [] none seen = []
unique_from [] (some d) seen = if mem d seen then [] else d ∷ []
unique_from (r ∷ rs) default seen =
    let again = unique_from rs default seen in
    let first = r.sink ∷ unique_from rs default (r.sink ∷ seen) in
    if mem r.sink seen then again else first

-- `_unique_sinks`, the order in which sinks are opened, flushed and closed
unfoldable pub unique_sinks : SinkRouter → List ℕ
unique_sinks r = unique_from r.routes r.default []

abbrev pub Entry : Type 0
Entry = ℕ × Value

abbrev pub Groups : Type 0
Groups = List (ℕ × List Entry)

-- `grouped`: a dictionary by sink, in the order of the first record of each.
abbrev pub add_entry : ℕ → Entry → Groups → Groups
add_entry i e [] = (i, e ∷ []) ∷ []
add_entry i e ((j, es) ∷ gs) =
    let rest = add_entry i e gs in if j == i then (j, es ++ e ∷ []) ∷ gs else (j, es) ∷ rest

abbrev pub add_to : Option ℕ → Entry → Groups → Groups
add_to none e gs = gs
add_to (some i) e gs = add_entry i e gs

unfoldable pub grouped : SinkRouter → ℕ → List Value → Groups → Groups
grouped r index [] gs = gs
grouped r index (v ∷ vs) gs = grouped r (suc index) vs (add_to (target r v) (index, v) gs)

-- The states of the sinks, and `written_flags` and `errors_by_record` by index.
pub record Board (S : Type 0) : Type 0 where
  pub states : ℕ → S
  pub results : ℕ → WriteResult

abbrev pub collect : ℕ → List Value → (ℕ → WriteResult) → List WriteResult
collect index [] results = []
collect index (v ∷ vs) results = results index ∷ collect (suc index) vs results

abbrev pub values_of : List Entry → List Value
values_of [] = []
values_of ((n, v) ∷ es) = v ∷ values_of es

abbrev pub add_results : List Entry → List WriteResult → (ℕ → WriteResult) → ℕ → WriteResult
add_results [] rs f = f
add_results (e ∷ es) [] f = f
add_results ((n, v) ∷ es) (r ∷ rs) f = add_results es rs (update n (add_result r (f n)) f)

abbrev pub add_error_to_all : List Entry → Exc → (ℕ → WriteResult) → ℕ → WriteResult
add_error_to_all [] x f = f
add_error_to_all ((n, v) ∷ es) x f = add_error_to_all es x (update n (add_error (some x) (f n)) f)

abbrev pub add_answer : List Entry → Result (List WriteResult) → (ℕ → WriteResult) → ℕ → WriteResult
add_answer es (ok rs) f = add_results es rs f
add_answer es (err x) f = add_error_to_all es x f

module _ {S : Type 0} (sinks : ℕ → Sink S) where
  abbrev pub wrote : ℕ → ℕ → Option Exc × S → Board S → Board S
  wrote i index (e, s) b = record {
    states = update i s b.states;
    results = update index (add_error e (b.results index)) b.results;
  }

  -- One record, in a group.
  unfoldable pub write_entry : ℕ → Entry → Board S → Board S
  write_entry i (index, v) b = wrote i index ((sinks i).write v (b.states i)) b

  unfoldable pub write_entries : ℕ → List Entry → Board S → Board S
  write_entries i [] b = b
  write_entries i (e ∷ es) b = write_entries i es (write_entry i e b)

  abbrev pub wrote_many : ℕ → List Entry → Result BatchReturn × S → Board S → Board S
  wrote_many i es (r, s) b = record {
    states = update i s b.states;
    results = add_answer es (normalized r (values_of es)) b.results;
  }

  abbrev pub write_group_in :
      Option (List Value → S → Result BatchReturn × S) → ℕ → List Entry → Board S → Board S
  write_group_in none i es b = write_entries i es b
  write_group_in (some many) i es b = wrote_many i es (many (values_of es) (b.states i)) b

  unfoldable pub write_group : ℕ → List Entry → Board S → Board S
  write_group i es b = write_group_in (sinks i).write_many i es b

  unfoldable pub write_groups : Groups → Board S → Board S
  write_groups [] b = b
  write_groups ((i, es) ∷ gs) b = write_groups gs (write_group i es b)

  abbrev pub collected : List Value → Board S → List WriteResult × (ℕ → S)
  collected vs b = (collect 0 vs b.results, b.states)

  unfoldable pub write_batch : SinkRouter → List Value → (ℕ → S) → List WriteResult × (ℕ → S)
  write_batch r vs states =
      collected vs
        (write_groups (grouped r 0 vs []) (record { states = states; results = λ n. untouched }))

  abbrev pub write_to : Option ℕ → Value → (ℕ → S) → WriteResult × (ℕ → S)
  write_to none v states = (untouched, states)
  write_to (some i) v states =
      let (e, s) = (sinks i).write v (states i) in (write_result_of e, update i s states)

  unfoldable pub write : SinkRouter → Value → (ℕ → S) → WriteResult × (ℕ → S)
  write r v states = write_to (target r v) v states
