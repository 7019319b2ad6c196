-- ===== src/Lanes/Pipelined/Order.antt =====
-- The order in which a pipelined lane commits the batches.
use agora_etl.Prelude.{
  ℕ, zero, suc, Bool, true, false, Option, none, some, List, [], ◌∷◌, ◌++◌, length, map, ltb,
  if◌then◌else◌, ◌≡◌, refl, sym, ap, ◌∙◌,
}
use mathlib.Core.List.{append-nil, append_assoc}
use agora_etl.Failures.{Result, ok, err}
use agora_etl.Delivery.World.{World}
use agora_etl.Delivery.Exec.{Exec, pure, raise, attempt, skip, resume, bind_then, ◌>>=◌, ◌>>◌}
use agora_etl.Lanes.Pipelined.{
  Pipeline, Left, if_ok, push, commit_next, drain_ready, make_room, feed,
}

-- The entries, one after another.
unfoldable pub in_order : {E : Type 0} → (E → Exec (Unit {0})) → List E → Exec (Unit {0})
in_order resolve [] = skip
in_order resolve (e ∷ es) = do resolve e; in_order resolve es

module _ {E : Type 0} (p : Pipeline E) where
  -- What is left to do, in order.
  abbrev pub finish : Left E → Exec (Unit {0})
  finish (ok _, rest) = in_order p.resolve rest
  finish (err e, rest) = raise e

  abbrev pub after : Exec (Left E) → Exec (Unit {0})
  after m = m >>= finish

  answer_finish :
      (r : Result (Unit {0})) (es : List E) (w : World)
      → finish (r, es) w ≡ resume r (λ t. in_order p.resolve es) w
  unfolding raise
  answer_finish (ok t) es w = refl
  answer_finish (err e) es w = refl

  pub commit_next-finish :
      (es : List E) (w : World) → after (commit_next p es) w ≡ in_order p.resolve es w
  unfolding commit_next in_order ◌>>=◌
  commit_next-finish [] w = refl
  commit_next-finish (e ∷ es) w = let (r, u) = p.resolve e w in answer_finish r es u

  if_ok-finish :
      (left : Left E) (next : List E → Exec (Left E)) (w : World)
      → ((u : World) → after (next left.1) u ≡ in_order p.resolve left.1 u)
      → after (if_ok left next) w ≡ finish left w
  unfolding ◌>>=◌
  if_ok-finish (ok t, rest) next w h = h w
  if_ok-finish (err e, rest) next w h = refl

  -- An action, and what follows it where nothing was raised, finish as the action does.
  pub then_finish :
      (m : Exec (Left E)) (next : List E → Exec (Left E)) (w : World)
      → ((rest : List E) (u : World) → after (next rest) u ≡ in_order p.resolve rest u)
      → after (m >>= λ left. if_ok left next) w ≡ after m w
  then_finish m next w h = sym (
      bind_then m (λ left. if_ok left next) finish finish w
        λ left u. sym (if_ok-finish left next u (h left.1)))

  pub pure_finish : (es : List E) (w : World) → after (pure (ok tt, es)) w ≡ in_order p.resolve es w
  unfolding ◌>>=◌
  pure_finish es w = refl

  after_if :
      (b : Bool) (m n : Exec (Left E)) (es : List E) (w : World)
      → after m w ≡ in_order p.resolve es w
      → after n w ≡ in_order p.resolve es w
      → after (if b then m else n) w ≡ in_order p.resolve es w
  after_if true m n es w h k = h
  after_if false m n es w h k = k

  popped_finish :
      (e : E) (es : List E) (m : Exec (Left E)) (w : World)
      → ((u : World) → after m u ≡ in_order p.resolve es u)
      → after (attempt (p.resolve e) >>= λ answer. if_ok (answer, es) (λ rest. m)) w
        ≡ in_order p.resolve (e ∷ es) w
  unfolding in_order ◌>>=◌
  popped_finish e es m w h =
      let (r, u) = p.resolve e w in if_ok-finish (r, es) (λ rest. m) u h ∙ answer_finish r es u

  pub drain_ready-finish :
      (es : List E) (w : World) → after (drain_ready p es) w ≡ in_order p.resolve es w
  unfolding drain_ready ◌>>=◌
  drain_ready-finish [] w = pure_finish [] w
  drain_ready-finish (e ∷ es) w =
      after_if (p.done w.log e)
        (attempt (p.resolve e) >>= λ answer. if_ok (answer, es) (λ rest. drain_ready p es))
        (pure (ok tt, e ∷ es)) (e ∷ es) w
        (popped_finish e es (drain_ready p es) w (drain_ready-finish es)) (pure_finish (e ∷ es) w)

  make_room-finish :
      (n : ℕ) (es : List E) (w : World) → after (make_room p n es) w ≡ in_order p.resolve es w
  unfolding make_room
  make_room-finish zero es w = pure_finish es w
  make_room-finish (suc n) es w =
      after_if (ltb (length es) p.stage_limit) _ _ es w (pure_finish es w) (
        then_finish (drain_ready p es) _ w (λ rest u.
          after_if (ltb (length rest) p.stage_limit) _ _ rest u (pure_finish rest u)
            (then_finish (commit_next p rest) _ u (make_room-finish n) ∙ commit_next-finish rest u))
        ∙ drain_ready-finish es w)

  append_in_order :
      (es rest : List E) (w : World)
      → in_order p.resolve (es ++ rest) w ≡ (in_order p.resolve es >> in_order p.resolve rest) w
  unfolding in_order ◌>>=◌
  append_in_order [] rest w = refl
  append_in_order (e ∷ es) rest w =
      bind_then (p.resolve e) (λ t. in_order p.resolve es) (λ t. in_order p.resolve rest) _ w
        (λ t u. append_in_order es rest u)

  then_more :
      (es rest : List E) (m : Exec (Unit {0})) (w : World)
      → m w ≡ in_order p.resolve es w
      → (m >> in_order p.resolve rest) w ≡ in_order p.resolve (es ++ rest) w
  unfolding ◌>>=◌
  then_more es rest m w h =
      ap (λ (x : Result (Unit {0}) × World). resume x.0 (λ t. in_order p.resolve rest) x.1) h
      ∙ sym (append_in_order es rest w)

  if_ok-more :
      (left : Left E) (more : List E) (next : List E → Exec (Left E)) (w : World)
      → ((rest : List E) (u : World) → after (next rest) u ≡ in_order p.resolve (rest ++ more) u)
      → after (if_ok left next) w ≡ (finish left >> in_order p.resolve more) w
  unfolding ◌>>=◌
  if_ok-more (ok t, rest) more next w h = h rest w ∙ append_in_order rest more w
  if_ok-more (err e, rest) more next w h = refl

  after_more :
      (m : Exec (Left E)) (es more : List E) (next : List E → Exec (Left E)) (w : World)
      → after m w ≡ in_order p.resolve es w
      → ((rest : List E) (u : World) → after (next rest) u ≡ in_order p.resolve (rest ++ more) u)
      → after (m >>= λ left. if_ok left next) w ≡ in_order p.resolve (es ++ more) w
  after_more m es more next w same h =
      sym (
        bind_then m (λ left. if_ok left next) finish
          (λ left. finish left >> in_order p.resolve more) w
          (λ left u. sym (if_ok-more left more next u h)))
      ∙ bind_then m finish (λ t. in_order p.resolve more) _ w (λ left u. refl)
      ∙ then_more es more (after m) w same

  module _ {B : Type 0} (arrive : B → Exec (Option E)) (entry : B → E)
      (submits : (b : B) (w : World) → arrive b w ≡ (ok (some (entry b)), w)) where
    feed_step :
        (b : B) (bs : List B) (es : List E) (w : World)
        → after (feed p arrive es (b ∷ bs) none) w
          ≡ after
              (make_room p (length (push es (some (entry b)))) (push es (some (entry b)))
                >>= λ left. if_ok left (λ rest. feed p arrive rest bs none))
              w
    unfolding feed ◌>>=◌
    feed_step b bs es w = simp (submits b w) refl

    pub feed-finish :
        (bs : List B) (es : List E) (w : World)
        → after (feed p arrive es bs none) w ≡ in_order p.resolve (es ++ map entry bs) w
    unfolding feed
    feed-finish [] es w = pure_finish es w ∙ ap (λ l. in_order p.resolve l w) (sym (append-nil es))
    feed-finish (b ∷ bs) es w =
        let now = push es (some (entry b)) in
        feed_step b bs es w
        ∙ after_more (make_room p (length now) now) now (map entry bs) _ w
            (make_room-finish (length now) now w) (feed-finish bs)
        ∙ ap (λ l. in_order p.resolve l w) (append_assoc es (entry b ∷ []) (map entry bs))
