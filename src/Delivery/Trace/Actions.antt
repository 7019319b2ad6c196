-- ===== src/Delivery/Trace/Actions.antt =====
-- What each action of delivery adds to the log.
use agora_etl.Prelude.{Bool, true, Option, none, some, List, [], ◌∷◌, ◌≡◌, refl}
use agora_etl.Failures.{Exc, Result}
use agora_etl.Delivery.Types.{Value, WriteResult, Callback, Hook}
use agora_etl.Delivery.World.{
  Event, History, fence_checked, record_sent, batch_sent, hook_called, discard_called, HookEntry,
  Engine,
}
use agora_etl.Delivery.Calls.{
  assert_active, assert_run_fence_active, record_flush_metrics, write_one, write_batch,
  pop_success_hooks, success_hook_for, run_hooks, run_callback, run_discard, discard_entries,
  discard_success_hooks,
}
use agora_etl.Delivery.Trace.{
  Steps, Steps-modify, Steps-bind, Steps-attempt, Steps-perform, Steps-notify, steps_rules,
}

module _ {P : Event → Bool} where
  Steps-pop_success_hooks : (vs : List Value) → Steps P (pop_success_hooks vs)
  unfolding pop_success_hooks
  Steps-pop_success_hooks [] = search steps_rules
  Steps-pop_success_hooks (v ∷ vs) =
      let rest = Steps-pop_success_hooks vs in
      Steps-bind _ _ (search steps_rules)
        λ hooks. Steps-bind _ _ (Steps-modify _ (λ w. refl)) λ _. search (steps_rules, rest)

  pub Steps-success_hook_for :
      (raw : Value) (p : Option Value) (c : Callback) → Steps P (success_hook_for raw p c)
  unfolding success_hook_for
  Steps-success_hook_for raw none c = search (steps_rules, Steps-pop_success_hooks)
  Steps-success_hook_for raw (some p) c = search (steps_rules, Steps-pop_success_hooks)

module _ (g : Engine) {P : Event → Bool}
    (discards : (d : Hook) (r : Option Exc) → P (discard_called d r) ≡ true) where
  Steps-run_discard : (d : Option Hook) → Steps P (run_discard g d)
  unfolding run_discard
  Steps-run_discard none = search steps_rules
  Steps-run_discard (some d) =
      Steps-bind _ _ (Steps-attempt (Steps-notify _ _ (discards d))) (λ _. search steps_rules)

  Steps-discard_entries : (es : List HookEntry) → Steps P (discard_entries g es)
  unfolding discard_entries
  Steps-discard_entries [] = search steps_rules
  Steps-discard_entries (e ∷ es) =
      Steps-bind _ _ (Steps-run_discard e.on_discard) (λ _. Steps-discard_entries es)

  pub Steps-discard_success_hooks : (vs : List Value) → Steps P (discard_success_hooks g vs)
  unfolding discard_success_hooks
  Steps-discard_success_hooks [] = search steps_rules
  Steps-discard_success_hooks (v ∷ vs) =
      let rest = Steps-discard_success_hooks vs in
      Steps-bind _ _ (search steps_rules) λ es.
        Steps-bind _ _ (Steps-modify _ (λ w. refl))
          λ _. Steps-bind _ _ (Steps-discard_entries es) (λ _. rest)

module _ (g : Engine) {P : Event → Bool}
    (calls : (h : Hook) (r : Option Exc) → P (hook_called h r) ≡ true) where
  pub Steps-run_hooks : (hs : List Hook) → Steps P (run_hooks g hs)
  unfolding run_hooks
  Steps-run_hooks [] = search steps_rules
  Steps-run_hooks (h ∷ hs) = Steps-bind _ _ (Steps-notify _ _ (calls h)) (λ _. Steps-run_hooks hs)

  pub Steps-run_callback : (c : Callback) → Steps P (run_callback g c)
  unfolding run_callback
  Steps-run_callback none = search steps_rules
  Steps-run_callback (some hs) = Steps-run_hooks hs

module _ (g : Engine) {P : Event → Bool}
    (fence : (r : Result Bool) → P (fence_checked r) ≡ true) where
  Steps-assert_active : (o : Option (History → Result Bool)) → Steps P (assert_active o)
  unfolding assert_active
  Steps-assert_active none = search steps_rules
  Steps-assert_active (some f) = Steps-bind _ _ (Steps-perform _ _ fence) (λ b. search steps_rules)

  pub Steps-assert_run_fence_active : Steps P (assert_run_fence_active g)
  unfolding assert_run_fence_active
  Steps-assert_run_fence_active = Steps-assert_active g.run_fence

  pub Steps-write_one :
      (v : Value)
      → ((r : Result WriteResult) → P (record_sent v r) ≡ true)
      → Steps P (write_one g v)
  unfolding write_one record_flush_metrics
  Steps-write_one v sent =
      Steps-bind _ _ Steps-assert_run_fence_active
        λ _. Steps-bind _ _ (Steps-perform _ _ sent) λ r. search steps_rules

  pub Steps-write_batch :
      (vs : List Value)
      → ((r : Result (List WriteResult)) → P (batch_sent vs r) ≡ true)
      → Steps P (write_batch g vs)
  unfolding write_batch record_flush_metrics
  Steps-write_batch vs sent =
      Steps-bind _ _ Steps-assert_run_fence_active
        λ _. Steps-bind _ _ (Steps-perform _ _ sent) λ r. search steps_rules
