-- ===== src/Pending.antt =====
-- core/runtime/_delivery_pending.py: the task that owns the pending writes of a run, beside the
-- producer that queues them (`queue_success_record` and `flush_pending_writes` of
-- core/runtime/_delivery.py). A step is what one of the two does between two awaits, so a run is any
-- order of their steps. What a flush does with its batch is Delivery/Engine.antt; here it ends or
-- raises. A pending write is any value.
pub mod Invariant
pub mod Drains
mod Tests
use agora_etl.Prelude.{
  ℕ, ◌<◌, Bool, true, false, not, ◌&&◌, Option, none, some, List, [], ◌∷◌, ◌++◌, length, ltb, leb,
  if◌then◌else◌, ◌≡◌,
}
use agora_etl.Failures.{Exc}

-- `uses_pending_write_owner`
unfoldable pub uses_pending_write_owner : ℕ → Option ℕ → Bool
uses_pending_write_owner writer_batch_size none = false
uses_pending_write_owner writer_batch_size (some interval) =
    ltb 1 writer_batch_size && ltb 0 interval

-- Where the owner task is: about to test, in `notify.wait()` with or without a timeout, in
-- `flush_once`, or at its end, after an error with the batch that it was writing.
pub data Place (A : Type 0) : Type 0 where
  top : Place A
  waiting : Bool → Place A
  flushing : List A → Place A
  ended : Place A
  failed : Exc → List A → Place A

-- `RunState`, as far as the two use it; `flushed` and `queued` keep what was written and queued.
pub record Owner (A : Type 0) : Type 0 where
  pub place : Place A
  pub pending_writes : List A
  pub notify : Bool
  pub stop : Bool
  pub flushed : List (List A)
  pub queued : List A

-- What the owner does next.
pub data Turn : Type 0 where
  leave flush again : Turn
  wait : Bool → Turn

module _ {A : Type 0} where
  abbrev pub any : List A → Bool
  any [] = false
  any (x ∷ xs) = true

  -- `ensure_pending_write_owner`
  abbrev pub new_owner : Owner A
  new_owner = record {
    place = top;
    pending_writes = [];
    notify = false;
    stop = false;
    flushed = [];
    queued = [];
  }

  -- The loop's body up to its wait; a wait has a timeout where something is pending.
  unfoldable pub before_wait : ℕ → Owner A → Turn
  before_wait batch_size o =
      if o.stop && not (any o.pending_writes)
      then leave
      else (if leb batch_size (length o.pending_writes) then flush else wait (any o.pending_writes))

  -- And after it.
  unfoldable pub after_wait : Bool → Owner A → Turn
  after_wait timed_out o =
      if (o.stop && any o.pending_writes)
      then flush
      else (if timed_out && any o.pending_writes then flush else again)

  -- `flush_once` takes the pending writes first.
  abbrev pub take_turn : Turn → Owner A → Owner A
  take_turn leave o = record o { place = ended }
  take_turn flush o = record o { place = flushing o.pending_writes; pending_writes = [] }
  take_turn again o = record o { place = top }
  take_turn (wait timed) o = record o { place = waiting timed }

  -- The wait ended, and `notify` is cleared.
  abbrev pub woken : Bool → Owner A → Owner A
  woken timed_out o =
      let cleared = record o { notify = false } in take_turn (after_wait timed_out cleared) cleared

  abbrev pub written : List A → Owner A → Owner A
  written batch o = record o { place = top; flushed = o.flushed ++ batch ∷ [] }

  abbrev pub queue_write : A → Owner A → Owner A
  queue_write x o = record o {
    pending_writes = o.pending_writes ++ x ∷ [];
    notify = true;
    queued = o.queued ++ x ∷ [];
  }

  -- `close_pending_write_owner` and the `notify.set()` before it
  abbrev pub close : Owner A → Owner A
  close o = record o { stop = true; notify = true }

  -- A step of the owner task that does not raise.
  pub data OwnerStep (batch_size : ℕ) : Owner A → Owner A → Type 0 where
    turn :
        (o : Owner A)
        → o.place ≡ top
        → OwnerStep batch_size o (take_turn (before_wait batch_size o) o)
    notified :
        (o : Owner A) (timed : Bool)
        → o.place ≡ waiting timed
        → o.notify ≡ true
        → OwnerStep batch_size o (woken false o)
    timed_out : (o : Owner A) → o.place ≡ waiting true → OwnerStep batch_size o (woken true o)
    wrote :
        (o : Owner A) (batch : List A)
        → o.place ≡ flushing batch
        → OwnerStep batch_size o (written batch o)

  -- A step of the run. The producer waits for capacity before it goes on to queue another write.
  pub data Step (batch_size : ℕ) : Owner A → Owner A → Type 0 where
    owner : {o o' : Owner A} → OwnerStep batch_size o o' → Step batch_size o o'
    raised_error :
        (o : Owner A) (batch : List A) (e : Exc)
        → o.place ≡ flushing batch
        → Step batch_size o (record o { place = failed e batch })
    queues :
        (o : Owner A) (x : A)
        → o.stop ≡ false
        → length o.pending_writes < batch_size
        → Step batch_size o (queue_write x o)
    closes : (o : Owner A) → Step batch_size o (close o)

  pub data Run (batch_size : ℕ) : Owner A → Owner A → Type 0 where
    no_step : {o : Owner A} → Run batch_size o o
    step_and : {o p q : Owner A} → Step batch_size o p → Run batch_size p q → Run batch_size o q
