-- ===== src/Lanes/Pipelined/Room.antt =====
-- How many batches a pipelined lane has in flight, and that its loops have rounds enough.
use agora_etl.Prelude.{
  ℕ, zero, suc, ◌≤◌, ◌<◌, Option, none, some, List, [], ◌∷◌, length, ltb, ltb→lt, if◌then◌else◌,
  arith,
}
use agora_etl.Failures.{Exc, ok, err}
use agora_etl.Delivery.Exec.{Exec, pure}
use agora_etl.Delivery.Exec.Returns.{
  Returns, Always, Returns-pure, Returns-attempt, Returns-bind, Returns-if, Returns-if_known,
  Returns-gets,
}
use agora_etl.Lanes.Pipelined.{
  limit_of, Pipeline, Left, if_ok, commit_next, drain_ready, make_room, arrived, feed, drain_all,
}

module _ {E : Type 0} where
  abbrev AtMost : ℕ → Left E → Type 0
  AtMost n left = length left.1 ≤ n

  -- After a loop that raised nothing, fewer than `n` entries are pending.
  abbrev pub Below : ℕ → Left E → Type 0
  Below n (ok t, rest) = length rest < n
  Below n (err e, rest) = Unit {0}

module _ {E : Type 0} (p : Pipeline E) where
  commit_next-AtMost :
      (n : ℕ) (es : List E) → length es ≤ suc n → Returns (commit_next p es) (AtMost n)
  unfolding commit_next
  commit_next-AtMost n [] h = Returns-pure _ _ (omega arith)
  commit_next-AtMost n (e ∷ es) h =
      Returns-bind Always _ _ _ (Returns-attempt _) (λ a t. Returns-pure _ _ (omega (arith, h)))

  if_ok-Returns :
      (left : Left E) (next : List E → Exec (Left E)) (Q : Left E → Type 0)
      → ((e : Exc) → Q (err e, left.1))
      → Returns (next left.1) Q
      → Returns (if_ok left next) Q
  if_ok-Returns (ok t, rest) next Q k h = h
  if_ok-Returns (err e, rest) next Q k h = Returns-pure _ _ (k e)

  drain_ready-AtMost : (n : ℕ) (es : List E) → length es ≤ n → Returns (drain_ready p es) (AtMost n)
  unfolding drain_ready
  drain_ready-AtMost n [] h = Returns-pure _ _ (omega arith)
  drain_ready-AtMost n (e ∷ es) h = Returns-bind Always _ _ _ (Returns-gets _) λ ready t.
      Returns-if ready
        (Returns-bind Always _ _ _ (Returns-attempt _) λ answer u.
          if_ok-Returns (answer, es) _ (AtMost n) (λ x. omega (arith, h))
            (drain_ready-AtMost n es (omega (arith, h))))
        (Returns-pure _ _ h)

  room_or :
      (rest : List E) (m : Exec (Left E))
      → Returns m (Below p.stage_limit)
      → Returns
          (if ltb (length rest) p.stage_limit then pure (ok tt, rest) else m)
          (Below p.stage_limit)
  room_or rest m h =
      Returns-if_known (ltb (length rest) p.stage_limit)
        (λ room. Returns-pure _ _ (ltb→lt _ _ room)) (λ full. h)

  pub make_room-Below :
      (n : ℕ) (es : List E)
      → length es ≤ n
      → 1 ≤ p.stage_limit
      → Returns (make_room p n es) (Below p.stage_limit)
  unfolding make_room
  make_room-Below zero es h k = Returns-pure _ _ (omega (arith, h, k))
  make_room-Below (suc n) es h k = room_or es _ (
      Returns-bind (AtMost (suc n)) _ _ _ (drain_ready-AtMost (suc n) es h) λ left fits.
        if_ok-Returns left _ _ (λ x. tt)
          (room_or left.1 _ (
            Returns-bind (AtMost n) _ _ _ (commit_next-AtMost n left.1 fits) λ next fewer.
              if_ok-Returns next (make_room p n) _ (λ x. tt) (make_room-Below n next.1 fewer k))))

  -- Nothing is pending, if nothing was raised.
  pub drain_all-Below : (n : ℕ) (es : List E) → length es ≤ n → Returns (drain_all p n es) (Below 1)
  unfolding drain_all
  drain_all-Below zero es h = Returns-pure _ _ (omega (arith, h))
  drain_all-Below (suc n) [] h = Returns-pure _ _ (omega arith)
  drain_all-Below (suc n) (e ∷ es) h = Returns-bind Always _ _ _ (Returns-gets _) λ answer t.
      if_ok-Returns (answer, e ∷ es) _ _ (λ x. tt)
        (Returns-bind (AtMost (suc n)) _ _ _ (drain_ready-AtMost (suc n) (e ∷ es) h) λ left fits.
          if_ok-Returns left _ _ (λ x. tt)
            (Returns-bind (AtMost n) _ _ _ (commit_next-AtMost n left.1 fits)
              λ next fewer. if_ok-Returns next _ _ (λ x. tt) (drain_all-Below n next.1 fewer)))

  feed_on :
      {B : Type 0} (arrive : B → Exec (Option E)) (bs : List B) (end : Option Exc)
      → ((rest : List E)
          → length rest < p.stage_limit
          → Returns (feed p arrive rest bs end) (Below p.stage_limit))
      → (left : Left E) → Below p.stage_limit left
      → Returns (if_ok left (λ rest. feed p arrive rest bs end)) (Below p.stage_limit)
  feed_on arrive bs end h (ok t, rest) room = h rest room
  feed_on arrive bs end h (err e, rest) room = Returns-pure _ _ tt

  -- Whatever the source's batches submit and whatever is raised, a run that starts with fewer entries
  -- than the limit ends its loop over the source with fewer.
  pub feed-Below :
      {B : Type 0} (arrive : B → Exec (Option E)) (bs : List B) (es : List E) (end : Option Exc)
      → length es < p.stage_limit
      → Returns (feed p arrive es bs end) (Below p.stage_limit)
  unfolding feed
  feed-Below arrive [] es none h = Returns-pure _ _ h
  feed-Below arrive [] es (some e) h = Returns-pure _ _ tt
  feed-Below arrive (b ∷ bs) es end h = Returns-bind Always _ _ _ (Returns-attempt _) λ submitted t.
      Returns-bind (Below p.stage_limit) _ _ _
        (if_ok-Returns (arrived p es submitted) _ _ (λ x. tt)
          (make_room-Below _ (arrived p es submitted).1 (omega arith) (omega (arith, h))))
        (feed_on arrive bs end (λ rest. feed-Below arrive bs rest end))

pub one-limit_of : (n : ℕ) (size : Option ℕ) → 1 ≤ limit_of n size
one-limit_of n none = omega arith
one-limit_of n (some k) = omega arith
