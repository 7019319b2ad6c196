-- ===== src/Delivery/Trace/Stores.antt =====
-- What the DLQ writer and the checkpoint manager add to the log.
use agora_etl.Prelude.{ℕ, Bool, true, Option, none, some, ◌≡◌, leb}
use agora_etl.Failures.{Exc, Result, ok, err, FailureDecision, classify_failure}
use agora_etl.Delivery.Types.{
  CheckpointValue, CheckpointFailurePolicy, DlqFailurePolicy, log_only, raise_error, Checkpoint,
  DlqRecord,
}
use agora_etl.Delivery.World.{Event, fence_checked, dlq_sent, checkpoint_sent, Engine}
use agora_etl.Delivery.Checkpoints.{
  Store, prepare_in, save_in, settle_failure, settle, save_due, save_batch_in, prepare, persist,
  persist_if, save, save_batch,
}
use agora_etl.Delivery.Dlq
use agora_etl.Delivery.Dlq.{DlqRequest, DlqSink, policy_failure, send, write_in, write_to_dlq}
use agora_etl.Delivery.Trace.{Steps, Steps-bind, Steps-if, Steps-attempt, Steps-notify, steps_rules}
use agora_etl.Delivery.Trace.Actions.{Steps-assert_run_fence_active}

module _ {P : Event → Bool} where
  pub Steps-prepare : (g : Engine) (c : CheckpointValue) → Steps P (prepare g c)
  unfolding prepare
  Steps-prepare g none = search steps_rules
  Steps-prepare g (some v) = stored g.checkpoint_store
    where
      stored : (o : Option Store) → Steps P (prepare_in g o v)
      stored none = search steps_rules
      stored (some s) = search steps_rules

module _ (g : Engine) {P : Event → Bool} (fence : (r : Result Bool) → P (fence_checked r) ≡ true)
    (saves : (c : Checkpoint) (r : Option Exc) → P (checkpoint_sent c r) ≡ true) where
  Steps-save_in : (o : Option Store) (c : Checkpoint) → Steps P (save_in g o c)
  Steps-save_in none c = search steps_rules
  Steps-save_in (some s) c = Steps-notify _ _ (saves c)

  Steps-settle_failure :
      (p : CheckpointFailurePolicy) (c : Checkpoint) (e : Exc) → Steps P (settle_failure g p c e)
  Steps-settle_failure CheckpointFailurePolicy.fail_closed c e = search steps_rules
  Steps-settle_failure CheckpointFailurePolicy.log_and_continue c e = search steps_rules

  Steps-settle : (c : Checkpoint) (n : ℕ) (r : Result (Unit {0})) → Steps P (settle g c n r)
  Steps-settle c n (ok u) = search steps_rules
  Steps-settle c n (err e) =
      Steps-bind _ _ (search steps_rules)
        (λ _. Steps-settle_failure g.checkpoint_failure_policy c e)

  pub Steps-persist : (c : Checkpoint) (n : ℕ) → Steps P (persist g c n)
  unfolding persist
  Steps-persist c n =
      Steps-bind _ _
        (Steps-attempt (
          Steps-bind _ _ (Steps-assert_run_fence_active g fence)
            (λ _. Steps-save_in g.checkpoint_store c)))
        (Steps-settle c n)

  pub Steps-persist_if : (c : Option Checkpoint) (n : ℕ) → Steps P (persist_if g c n)
  unfolding persist_if
  Steps-persist_if none n = search steps_rules
  Steps-persist_if (some c) n = Steps-persist c n

  pub Steps-save : (c : CheckpointValue) → Steps P (save g c)
  unfolding save
  Steps-save c = Steps-bind _ _ (Steps-prepare g c) (λ k. Steps-persist_if k 1)

  Steps-save_due : (v n : ℕ) → Steps P (save_due g v n)
  Steps-save_due v n =
      Steps-bind _ _ (search steps_rules)
        λ _. Steps-bind _ _ (search steps_rules) λ c. Steps-persist_if c n

  pub Steps-save_batch : (c : CheckpointValue) (n : ℕ) → Steps P (save_batch g c n)
  unfolding save_batch
  Steps-save_batch none n = search steps_rules
  Steps-save_batch (some v) n = stored g.checkpoint_store
    where
      stored : (o : Option Store) → Steps P (save_batch_in g o v n)
      stored none = search steps_rules
      stored (some s) = Steps-if (leb n 0) (search steps_rules) (Steps-save_due v n)

module _ (g : Engine) {P : Event → Bool} (fence : (r : Result Bool) → P (fence_checked r) ≡ true)
    (sent : (q : DlqRecord) (r : Option Exc) → P (dlq_sent q r) ≡ true) where
  Steps-policy_failure : (p : DlqFailurePolicy) (e : Exc) → Steps P (policy_failure g p e)
  Steps-policy_failure raise_error e = search steps_rules
  Steps-policy_failure log_only e = search steps_rules

  Steps-settle_dlq : (r : Result (Unit {0})) → Steps P (Dlq.settle g r)
  Steps-settle_dlq (ok u) = search steps_rules
  Steps-settle_dlq (err e) =
      Steps-bind _ _ (search steps_rules) (λ _. Steps-policy_failure g.dlq_failure_policy e)

  Steps-send : (s : DlqSink) (q : DlqRequest) (d : FailureDecision) → Steps P (send g s q d)
  Steps-send s q d =
      Steps-bind _ _
        (Steps-attempt (
          Steps-bind _ _ (Steps-assert_run_fence_active g fence)
            λ _. Steps-bind _ _ (search steps_rules) λ entry. Steps-notify _ _ (sent entry)))
        Steps-settle_dlq

  Steps-write_in : (o : Option DlqSink) (q : DlqRequest) → Steps P (write_in g o q)
  Steps-write_in none q = search steps_rules
  Steps-write_in (some s) q =
      Steps-if (classify_failure q.exception).dlq_eligible
        (Steps-send s q (classify_failure q.exception)) (search steps_rules)

  pub Steps-write_to_dlq : (q : DlqRequest) → Steps P (write_to_dlq g q)
  unfolding write_to_dlq
  Steps-write_to_dlq q = Steps-write_in g.dlq_sink q
