-- ===== src/Pending/Tests.antt =====
-- A run of the owner and the producer.
use agora_etl.Prelude.{ℕ, true, false, length, ◌<◌, ◌≡◌, refl, arith}
use agora_etl.Pending.{
  Owner, waiting, new_owner, before_wait, take_turn, queue_write, close, turn, owner, queues,
  closes, Run, no_step, step_and,
}
use agora_etl.Pending.Invariant.{IsKept, reached-IsKept}
use agora_etl.Pending.Drains.{Alive, Drained, owner_drains}

-- One write is queued, the owner tests and waits, another is queued, and the run is closed.
abbrev one : Owner ℕ
one = queue_write 4 new_owner

abbrev asleep : Owner ℕ
asleep = take_turn (before_wait 3 one) one

asleep_waits : asleep.place ≡ waiting true
unfolding before_wait
asleep_waits = refl

abbrev closing : Owner ℕ
closing = close (queue_write 6 asleep)

asleep_open : (asleep.stop ≡ false) × (length asleep.pending_writes < 3)
unfolding before_wait
asleep_open = (refl, omega arith)

closing_stops : closing.stop ≡ true
unfolding before_wait
closing_stops = refl

the_run : Run 3 new_owner closing
the_run = step_and (queues new_owner 4 refl (omega arith)) (
    step_and (owner (turn one refl)) (
      step_and (queues asleep 6 asleep_open.0 asleep_open.1)
        (step_and (closes (queue_write 6 asleep)) no_step)))

reached-IsKept_example : IsKept 3 closing
reached-IsKept_example = reached-IsKept 3 the_run

closing-Alive : Alive 3 closing.place
unfolding before_wait
closing-Alive = tt

owner_drains_example : Drained 3 closing
owner_drains_example = owner_drains 3 closing the_run closing_stops closing-Alive
