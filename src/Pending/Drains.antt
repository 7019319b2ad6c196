-- ===== src/Pending/Drains.antt =====
-- Closing the run drains the pending writes.
use agora_etl.Prelude.{
  ℕ, Bool, true, false, ◌&&◌, ◌||◌, List, [], ◌∷◌, ◌++◌, length, leb, if◌then◌else◌, ◌≡◌, inl, inr,
  refl, sym, ap, ◌∙◌, arith, Bool-cases,
}
use mathlib.Core.List.{append-nil}
use mathlib.Core.Path.{subst}
use agora_etl.Pending.{
  Place, top, waiting, flushing, ended, failed, Owner, Turn, Run, new_owner, leave, flush, again,
  wait, any, before_wait, after_wait, take_turn, woken, written, OwnerStep, turn, notified,
  timed_out, wrote,
}
use agora_etl.Pending.Invariant.{Heard, is_due, IsKept, reached-IsKept, owner-IsKept, joined}

again_if : (b : Bool) → (if b && false then flush else again) ≡ again
again_if true = refl
again_if false = refl

due_when : (b c : Bool) → c ≡ true → (b || c) ≡ true
due_when true c h = refl
due_when false c h = h

module _ {A : Type 0} (n : ℕ) where
  -- Steps of the owner alone, none of which raises.
  pub data OwnerRun : Owner A → Owner A → Type 0 where
    rest : {o : Owner A} → OwnerRun o o
    next : {o p q : Owner A} → OwnerStep n o p → OwnerRun p q → OwnerRun o q

  -- The owner, on its own, comes to its end with every queued write flushed.
  pub record Drained (o : Owner A) : Type 0 where
    pub last : Owner A
    pub run : OwnerRun o last
    pub is_ended : last.place ≡ ended
    pub all_flushed : joined last.flushed ≡ o.queued

  abbrev pub Alive : Place A → Type 0
  Alive (failed e b) = ⊥
  Alive ended = ⊥
  Alive _ = Unit {0}

  take_turn-queued : (t : Turn) (o : Owner A) → (take_turn t o).queued ≡ o.queued
  take_turn-queued leave o = refl
  take_turn-queued flush o = refl
  take_turn-queued again o = refl
  take_turn-queued (wait b) o = refl

  step-queued : {o p : Owner A} → OwnerStep n o p → p.queued ≡ o.queued
  step-queued (turn o at) = take_turn-queued (before_wait n o) o
  step-queued (notified o b at h) =
      take_turn-queued (after_wait false (record o { notify = false })) _
  step-queued (timed_out o at) = take_turn-queued (after_wait true (record o { notify = false })) _
  step-queued (wrote o b at) = refl

  Drained-next : {o p : Owner A} → OwnerStep n o p → Drained p → Drained o
  Drained-next s d = record {
    last = d.last;
    run = next s d.run;
    is_ended = d.is_ended;
    all_flushed = d.all_flushed ∙ step-queued s;
  }

  turn_to :
      (o : Owner A) (t : Turn) → o.place ≡ top → before_wait n o ≡ t → OwnerStep n o (take_turn t o)
  turn_to o t at e = subst (λ (u : Turn). OwnerStep n o (take_turn u o)) e (turn o at)

  empty_drains :
      (o : Owner A) → o.place ≡ top → o.stop ≡ true → o.pending_writes ≡ [] → IsKept n o → Drained o
  unfolding before_wait
  empty_drains o at stopped none_left k =
      let s = turn_to o leave at (simp (stopped, none_left) refl) in
      let k' = owner-IsKept n s k in
      record {
        last = take_turn leave o;
        run = next s rest;
        is_ended = refl;
        all_flushed =
            sym (append-nil (joined o.flushed))
            ∙ ap (λ l. joined o.flushed ++ l) (sym none_left)
            ∙ k'.kept;
      }

  flush_drains :
      (o : Owner A) (b : List A)
      → o.place ≡ flushing b
      → o.stop ≡ true
      → o.pending_writes ≡ []
      → IsKept n o
      → Drained o
  flush_drains o b at stopped none_left k =
      let s = wrote o b at in
      Drained-next s (empty_drains (written b o) refl stopped none_left (owner-IsKept n s k))

  abbrev quiet : Owner A → Owner A
  quiet o = record o { notify = false }

  woken_to :
      (o : Owner A) (b : Bool) (t : Turn)
      → OwnerStep n o (woken b o)
      → after_wait b (quiet o) ≡ t
      → OwnerStep n o (take_turn t (quiet o))
  woken_to o b t s e = subst (λ (u : Turn). OwnerStep n o (take_turn u (quiet o))) e s

  -- The owner wakes up and something is pending.
  woken_drains :
      (o : Owner A) (b : Bool)
      → OwnerStep n o (woken b o)
      → o.stop ≡ true
      → any o.pending_writes ≡ true
      → IsKept n o
      → Drained o
  unfolding after_wait
  woken_drains o b woke stopped some_left k =
      let s = woken_to o b flush woke (simp (stopped, some_left) refl) in
      Drained-next s (flush_drains _ o.pending_writes refl stopped refl (owner-IsKept n s k))

  any-nil : (l : List A) → any l ≡ false → l ≡ []
  any-nil [] h = refl
  any-nil (x ∷ xs) h = ground arith

  top_drains : (o : Owner A) → o.place ≡ top → o.stop ≡ true → IsKept n o → Drained o
  unfolding before_wait
  top_drains o at stopped k = elim (Bool-cases (any o.pending_writes)) [
    | inr none_left ↦ empty_drains o at stopped (any-nil o.pending_writes none_left) k
    | inl some_left ↦ elim (Bool-cases (leb n (length o.pending_writes))) [
      | inl full ↦
          let s = turn_to o flush at (simp (stopped, some_left, full) refl) in
          Drained-next s (flush_drains _ o.pending_writes refl stopped refl (owner-IsKept n s k))
      | inr room ↦
          let s = turn_to o (wait true) at (simp (stopped, some_left, room) refl) in
          Drained-next s
            (woken_drains _ true (timed_out _ refl) stopped some_left (owner-IsKept n s k))
    ]
  ]

  waiting_drains :
      (o : Owner A) (b : Bool) → OwnerStep n o (woken b o) → o.stop ≡ true → IsKept n o → Drained o
  unfolding after_wait
  waiting_drains o b woke stopped k = elim (Bool-cases (any o.pending_writes)) [
    | inl some_left ↦ woken_drains o b woke stopped some_left k
    | inr none_left ↦
        let s = woken_to o b again woke (simp (stopped, none_left) (again_if b)) in
        Drained-next s (top_drains _ refl stopped (owner-IsKept n s k))
  ]

  drains_at :
      (p : Place A) (o : Owner A) → o.place ≡ p → Alive p → o.stop ≡ true → IsKept n o → Drained o
  drains_at top o at alive stopped k = top_drains o at stopped k
  drains_at (waiting true) o at alive stopped k = waiting_drains o true (timed_out o at) stopped k
  drains_at (waiting false) o at alive stopped k =
      let heard = subst (λ (p : Place A). Heard p (is_due o) o.notify) at k.heard in
      waiting_drains o false
        (notified o false at (heard (due_when (any o.pending_writes) o.stop stopped))) stopped k
  drains_at (flushing b) o at alive stopped k =
      let s = wrote o b at in
      Drained-next s (top_drains (written b o) refl stopped (owner-IsKept n s k))
  drains_at ended o at alive stopped k = elim alive [ ]
  drains_at (failed e b) o at alive stopped k = elim alive [ ]

  -- From every state that a run reaches, once the run is being closed and unless a flush has raised or
  -- the task has ended, the owner alone can come to its end, and then every write that was queued is
  -- flushed, in the order in which it was queued.
  pub owner_drains : (o : Owner A) → Run n new_owner o → o.stop ≡ true → Alive o.place → Drained o
  owner_drains o reached stopped alive =
      drains_at o.place o refl alive stopped (reached-IsKept n reached)
