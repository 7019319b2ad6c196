-- ===== src/Delivery/Gate/Routing.antt =====
-- What handles a record, and what the answer of `route_errors` says of it.
use agora_etl.Prelude.{Bool, true, false, ◌&&◌, none, some, List, [], ◌∷◌, ◌≡◌, refl, inl, inr}
use agora_etl.Failures.{Exc, Result, ok, err}
use agora_etl.Delivery.Types.{Value, CheckpointValue, Payload, value}
use agora_etl.Delivery.World.{World, Event, record_sent, dlq_sent, Engine}
use agora_etl.Delivery.Exec.{pure}
use agora_etl.Delivery.Dlq.{redact}
use agora_etl.Delivery.Results.{sink_request, route_errors}
use agora_etl.Delivery.Trace.{Emits-refl, Emits-trans, Steps, Steps-bind, steps_rules}
use agora_etl.Delivery.Trace.Stores.{Steps-write_to_dlq}
use agora_etl.Delivery.Gate.{is_quiet, Any, Quiet, Shows, Shows-then, Ensures, Ended, Ensures-bind}
use agora_etl.Delivery.Gate.Answers.{
  IsRouted, Sent, Ensures_then, Ensures_back, write_to_dlq-Ensures,
}

-- The writer answered for `v` with no error, written or not, or the DLQ took a record whose original is `original`.
abbrev pub Handles : Value → Payload → Event → Type 0
Handles v original (record_sent u (ok r)) = (u ≡ v) × (r.errors ≡ [])
Handles v original (dlq_sent q none) = q.original_record ≡ original
Handles v original _ = ⊥

Any-mono :
    (Q R : Event → Type 0) (xs : List Event) → ((e : Event) → Q e → R e) → Any Q xs → Any R xs
Any-mono Q R [] f h = elim h [ ]
Any-mono Q R (x ∷ xs) f (inl q) = inl (f x q)
Any-mono Q R (x ∷ xs) f (inr a) = inr (Any-mono Q R xs f a)

pub Shows-mono :
    {Q R : Event → Type 0} {u w : World} → ((e : Event) → Q e → R e) → Shows Q u w → Shows R u w
Shows-mono {Q} {R} f s = record { quiet = s.quiet; shown = Any-mono Q R s.quiet.new f s.shown }

pub routed-Handles : (v : Value) (x : Payload) (e : Event) → IsRouted x e → Handles v x e
routed-Handles v x (dlq_sent q none) h = h
routed-Handles v x (dlq_sent q (some e)) h = elim h [ ]
routed-Handles v x _ h = elim h [ ]

module _ (g : Engine) (raw v : Value) where
  abbrev pub original : Payload
  original = redact g (value (some raw))

  pub Steps-route_errors :
      (c : CheckpointValue) (all : Bool) (es : List Exc)
      → Steps is_quiet (route_errors g raw v c all es)
  unfolding route_errors
  Steps-route_errors c all [] = search steps_rules
  Steps-route_errors c all (e ∷ es) =
      Steps-bind _ _ (Steps-write_to_dlq g (λ r. refl) (λ q r. refl) (sink_request e raw v c))
        (λ b. Steps-route_errors c (all && b) es)

  -- Once an error was not routed, the answer is `false`.
  abbrev Unrouted : Bool → World → World → Type 0
  Unrouted b u w = (b ≡ false) × Quiet u w

  Unrouted-back : (b : Bool) (u v' w : World) → Quiet u v' → Unrouted b v' w → Unrouted b u w
  Unrouted-back b u v' w q h = (h.0, Emits-trans q h.1)

  route_errors-false :
      (c : CheckpointValue) (es : List Exc)
      → Ensures (route_errors g raw v c false es) (Ended Unrouted)
  unfolding route_errors pure
  route_errors-false c [] = record { at = λ u. (refl, Emits-refl u) }
  route_errors-false c (e ∷ es) =
      Ensures_then _ _ _ Unrouted-back
        (Steps-write_to_dlq g (λ r. refl) (λ q r. refl) (sink_request e raw v c))
        (λ b. route_errors-false c es)

  shown_still :
      (u w : World) (r : Result Bool) (m : World)
      → Shows (IsRouted original) u m
      → Quiet m w
      → Ended (Sent (IsRouted original)) u r w
  shown_still u w (ok true) m s q = Shows-then s q
  shown_still u w (ok false) m s q = Emits-trans s.quiet q
  shown_still u w (err e) m s q = Emits-trans s.quiet q

  Unrouted-still :
      (u w : World) (r : Result Bool)
      → Ended Unrouted u r w
      → Ended (Sent (IsRouted original)) u r w
  Unrouted-still u w (ok true) h = cc (h.0)
  Unrouted-still u w (ok false) h = h.1
  Unrouted-still u w (err e) h = h

  -- All the errors of a write are in the DLQ only if one is.
  pub route_errors-Ensures :
      (c : CheckpointValue) (e : Exc) (es : List Exc)
      → Ensures (route_errors g raw v c true (e ∷ es)) (Ended (Sent (IsRouted original)))
  unfolding route_errors
  route_errors-Ensures c e es =
      Ensures-bind _ _ (Sent (IsRouted original)) _
        (write_to_dlq-Ensures g (sink_request e raw v c)) first (λ d u w q. q)
    where
      first :
          (b : Bool) (u m : World)
          → Sent (IsRouted original) b u m
          → Ended
              (Sent (IsRouted original))
              u
              (route_errors g raw v c (true && b) es m).0
              (route_errors g raw v c (true && b) es m).1
      first true u m s =
          let rest = route_errors g raw v c true es m in
          shown_still u rest.1 rest.0 m s ((Steps-route_errors c true es).at m)
      first false u m q =
          let rest = route_errors g raw v c false es m in
          Unrouted-still u rest.1 rest.0 (
            Ensures_back (route_errors g raw v c false es) Unrouted Unrouted-back
              (route_errors-false c es) u m q)
