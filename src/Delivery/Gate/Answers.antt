-- ===== src/Delivery/Gate/Answers.antt =====
-- What an answer of the writer or of the DLQ writer says of the calls behind it.
use agora_etl.Prelude.{
  ℕ, Bool, true, false, Option, none, some, [], ◌∷◌, ◌≡◌, refl, inl, if◌then◌else◌,
}
use agora_etl.Failures.{Exc, Result, ok, err, FailureDecision, classify_failure}
use agora_etl.Delivery.Types.{
  Value, WriteResult, DlqFailurePolicy, raise_error, log_only, Payload, value, DlqRecord,
}
use agora_etl.Delivery.World.{World, Event, record_sent, dlq_sent, Engine}
use agora_etl.Delivery.Exec.{Exec, pure, raise, gets, completed, perform, notify, ◌>>=◌, ◌>>◌}
use agora_etl.Delivery.Calls.{write_one, assert_run_fence_active, record_flush_metrics}
use agora_etl.Delivery.Dlq
use agora_etl.Delivery.Dlq.{
  DlqRequest, DlqSink, dlq_record, redact, policy_failure, send, write_in, write_to_dlq,
}
use agora_etl.Delivery.Trace.{Emits-refl, Emits_same, Emits-trans, Steps, Steps-on_metrics}
use agora_etl.Delivery.Trace.Actions.{Steps-assert_run_fence_active}
use agora_etl.Delivery.Gate.{
  is_quiet, Quiet, Shows, Shows-then, Shows-after, Ensures, Ended, Ensures-bind, Ensures-attempt,
  Ensures-Quiet,
}

-- The writer was given `v` and answered `r`.
abbrev pub IsAnswer : Value → WriteResult → Event → Type 0
IsAnswer v r (record_sent u (ok s)) = (u ≡ v) × (s ≡ r)
IsAnswer v r _ = ⊥

-- The DLQ took a record whose original is `original`.
abbrev pub IsRouted : Payload → Event → Type 0
IsRouted original (dlq_sent q none) = q.original_record ≡ original
IsRouted original _ = ⊥

-- `true` comes with an event of the kind `Q`.
abbrev pub Sent : (Event → Type 0) → Bool → World → World → Type 0
Sent Q true u w = Shows Q u w
Sent Q false u w = Quiet u w

pub Sent-Quiet : (Q : Event → Type 0) (b : Bool) {u w : World} → Sent Q b u w → Quiet u w
Sent-Quiet Q true s = s.quiet
Sent-Quiet Q false q = q

pub Ended-after :
    {A : Type 0} (Q : A → World → World → Type 0) {u v w : World} (r : Result A)
    → ((a : A) → Q a v w → Q a u w)
    → Quiet u v
    → Ended Q v r w
    → Ended Q u r w
Ended-after Q (ok a) k q h = k a h
Ended-after Q (err e) k q h = Emits-trans q h

module _ {A B : Type 0} where
  -- A quiet step before an action whose ending looks back from there.
  pub Ensures_then :
      (m : Exec A) (f : A → Exec B) (Q : B → World → World → Type 0)
      → ((b : B) (u v w : World) → Quiet u v → Q b v w → Q b u w)
      → Steps is_quiet m
      → ((a : A) → Ensures (f a) (Ended Q))
      → Ensures (m >>= f) (Ended Q)
  Ensures_then m f Q back s h =
      Ensures-bind m f (λ a u w. Quiet u w) _ (Ensures-Quiet m s)
        (λ a u v q. Ended-after Q (f a v).0 (λ b. back b u v (f a v).1 q) q ((h a).at v))
        (λ e u v q. q)

pub Ensures_back :
    {A : Type 0} (m : Exec A) (Q : A → World → World → Type 0)
    → ((a : A) (u v w : World) → Quiet u v → Q a v w → Q a u w)
    → Ensures m (Ended Q)
    → (u v : World) → Quiet u v
    → Ended Q u (m v).0 (m v).1
Ensures_back m Q back h u v q = Ended-after Q (m v).0 (λ a. back a u v (m v).1 q) q (h.at v)

module _ (g : Engine) where
  IsAnswer-Shows :
      (v : Value) (u : World) (r : Result WriteResult)
      → Ended (λ x u' w. Shows (IsAnswer v x) u' w) u r (record u { log = record_sent v r ∷ u.log })
  IsAnswer-Shows v u (ok x) = record {
    quiet = record { new = record_sent v (ok x) ∷ []; split = refl; only = refl };
    shown = inl (refl, refl);
  }
  IsAnswer-Shows v u (err e) = record {
    new = record_sent v (err e) ∷ [];
    split = refl;
    only = refl;
  }

  perform_sent-Ensures :
      (v : Value)
      → Ensures
          (perform (λ h. g.write h v) (record_sent v))
          (Ended (λ x u w. Shows (IsAnswer v x) u w))
  unfolding perform
  perform_sent-Ensures v = record { at = λ u. IsAnswer-Shows v u (g.write u.log v) }

  flushed-Shows :
      (v n : ℕ) (r : WriteResult) (u w : World)
      → Shows (IsAnswer v r) u w
      → Ended
          (λ x u' w'. Shows (IsAnswer v x) u' w')
          u
          ((record_flush_metrics g n >> pure r) w).0
          ((record_flush_metrics g n >> pure r) w).1
  unfolding record_flush_metrics ◌>>=◌
  flushed-Shows v n r u w s = Shows-then s (Emits_same refl)

  -- `write_one` returns the writer's answer to this record.
  pub write_one-Ensures :
      (v : Value) → Ensures (write_one g v) (Ended (λ r u w. Shows (IsAnswer v r) u w))
  unfolding write_one
  write_one-Ensures v =
      Ensures_then (assert_run_fence_active g) _ _ (λ b u v w. Shows-after)
        (Steps-assert_run_fence_active g (λ r. refl))
        λ _.
          Ensures-bind _ _ (λ r u w. Shows (IsAnswer v r) u w) _ (perform_sent-Ensures v)
            (flushed-Shows v 1) (λ e u w q. q)

  sent-Shows :
      (q : DlqRecord) (x : Payload) (u : World) (o : Option Exc)
      → q.original_record ≡ x
      → Ended
          (λ _ u' w. Shows (IsRouted x) u' w)
          u
          (completed o)
          (record u { log = dlq_sent q o ∷ u.log })
  sent-Shows q x u none h = record {
    quiet = record { new = dlq_sent q none ∷ []; split = refl; only = refl };
    shown = inl h;
  }
  sent-Shows q x u (some e) h = record { new = dlq_sent q (some e) ∷ []; split = refl; only = refl }

  abbrev pub original_of : DlqRequest → Payload
  original_of q = redact g (value q.original_record)

  policy-Sent :
      (x : Payload) (p : DlqFailurePolicy) (e : Exc)
      → Ensures (policy_failure g p e) (Ended (λ b u w. Sent (IsRouted x) b u w))
  unfolding raise pure
  policy-Sent x raise_error e = record { at = λ u. Emits-refl u }
  policy-Sent x log_only e = record { at = λ u. Emits-refl u }

  pub Sent-back :
      (x : Payload) (b : Bool) (u v w : World)
      → Quiet u v
      → Sent (IsRouted x) b v w
      → Sent (IsRouted x) b u w
  Sent-back x true u v w q s = Shows-after q s
  Sent-back x false u v w q s = Emits-trans q s

  failed-Sent : (x : Payload) (e : Exc) → Ensures (Dlq.settle g (err e)) (Ended (Sent (IsRouted x)))
  failed-Sent x e =
      Ensures_then _ _ _ (Sent-back x) (Steps-on_metrics _)
        (λ _. policy-Sent x g.dlq_failure_policy e)

  settle-Sent :
      (x : Payload) (r : Result (Unit {0})) (u w : World)
      → Ended (λ _ u' w'. Shows (IsRouted x) u' w') u r w
      → Ended (λ b u' w'. Sent (IsRouted x) b u' w') u (Dlq.settle g r w).0 (Dlq.settle g r w).1
  unfolding pure
  settle-Sent x (ok _) u w s = s
  settle-Sent x (err e) u w q =
      Ensures_back (Dlq.settle g (err e)) (Sent (IsRouted x)) (Sent-back x) (failed-Sent x e) u w q

  notify-Ensures :
      (s : DlqSink) (q : DlqRequest) (d : FailureDecision)
      → Ensures
          (gets (dlq_record g q d) >>= λ entry. notify (λ h. s h entry) (dlq_sent entry))
          (Ended (λ _ u w. Shows (IsRouted (original_of q)) u w))
  unfolding dlq_record ◌>>=◌
  notify-Ensures s q d = record {
    at = λ u.
        let entry = dlq_record g q d u in sent-Shows entry (original_of q) u (s u.log entry) refl;
  }

  send-Ensures :
      (s : DlqSink) (q : DlqRequest) (d : FailureDecision)
      → Ensures (send g s q d) (Ended (λ b u w. Sent (IsRouted (original_of q)) b u w))
  send-Ensures s q d =
      Ensures-bind _ _ (λ x u w. Ended (λ _ u' w'. Shows (IsRouted (original_of q)) u' w') u x w) _
        (Ensures-attempt _ (λ _ u w. Shows (IsRouted (original_of q)) u w)
          (Ensures_then _ _ _ (λ b u v w. Shows-after) (Steps-assert_run_fence_active g (λ r. refl))
            (λ _. notify-Ensures s q d)))
        (settle-Sent (original_of q)) (λ e u w k. k)

  write_in-Ensures :
      (o : Option DlqSink) (q : DlqRequest)
      → Ensures (write_in g o q) (Ended (λ b u w. Sent (IsRouted (original_of q)) b u w))
  unfolding pure
  write_in-Ensures none q = record { at = λ u. Emits-refl u }
  write_in-Ensures (some s) q = chosen (classify_failure q.exception).dlq_eligible
    where
      chosen :
          (eligible : Bool)
          → Ensures
              (if eligible then send g s q (classify_failure q.exception) else pure false)
              (Ended (λ b u w. Sent (IsRouted (original_of q)) b u w))
      chosen true = send-Ensures s q (classify_failure q.exception)
      chosen false = record { at = λ u. Emits-refl u }

  -- `write_to_dlq` returns `true` only after the DLQ took the record of this request.
  pub write_to_dlq-Ensures :
      (q : DlqRequest)
      → Ensures (write_to_dlq g q) (Ended (λ b u w. Sent (IsRouted (original_of q)) b u w))
  unfolding write_to_dlq
  write_to_dlq-Ensures q = write_in-Ensures g.dlq_sink q
