-- ===== src/Delivery/ForgottenHooks.antt =====
-- The success hooks of a record that failed in a middleware and did not reach the DLQ.
use agora_etl.Prelude.{
  Bool, true, false, Option, none, some, List, [], ◌∷◌, if◌then◌else◌, ◌≡◌, refl, ap, ◌∙◌, arith,
}
use agora_etl.Failures.{Exc, Result, ok, err, FailureDecision}
use agora_etl.Delivery.Types.{
  Value, CheckpointValue, Callback, MiddlewareFailure, DlqFailurePolicy, raise_error, log_only,
}
use agora_etl.Delivery.World.{
  World, Event, hook_called, discard_called, HookEntry, Engine, History, Metrics,
}
use agora_etl.Delivery.Exec.{
  Exec, ◌>>=◌, pure, raise, skip, gets, modify, resume, perform, attempt, notify,
}
use agora_etl.Delivery.Calls.{
  on_metrics, entries_of, entries_but, success_hook_for, pop_success_hooks, discard_entries,
  discard_success_hooks, assert_active, assert_run_fence_active,
}
use agora_etl.Delivery.Dlq.{
  write_to_dlq, write_in, send, settle, policy_failure, DlqSink, DlqRequest,
}
use agora_etl.Delivery.Results.{count_errored}
use agora_etl.Delivery.Engine.{is_some, failure_request, drop_record}
use agora_etl.Delivery.Trace.Actions.{Steps-success_hook_for}
use agora_etl.Delivery.Trace.Stores.{Steps-write_to_dlq}
use agora_etl.Delivery.Trace.{Emits, Emits_same, Emits-trans, Steps-on_metrics}

-- Neither a success hook nor a discard callback.
abbrev pub calls_no_hook : Event → Bool
calls_no_hook (hook_called _ _) = false
calls_no_hook (discard_called _ _) = false
calls_no_hook _ = true

no_entries_left : (v : Value) (es : List HookEntry) → entries_of v (entries_but v es) ≡ []
no_entries_left v [] = refl
no_entries_left v (e ∷ es) = ground (arith, no_entries_left v es)

-- An action that leaves the table of success hooks as it is.
record Leaves {A : Type 0} (m : Exec A) : Type 0 where
  at : (w : World) → (m w).1.success_hooks ≡ w.success_hooks

Leaves-bind :
    {A B : Type 0} (m : Exec A) (f : A → Exec B)
    → Leaves m
    → ((a : A) → Leaves (f a))
    → Leaves (m >>= f)
unfolding ◌>>=◌
Leaves-bind {A} {B} m f s t = record { at = λ w. let (r, w') = m w in resumed r w' ∙ s.at w }
  where
    resumed : (r : Result A) (w' : World) → (resume r f w').1.success_hooks ≡ w'.success_hooks
    resumed (ok a) w' = (t a).at w'
    resumed (err e) w' = refl

Leaves-if :
    {A : Type 0} (b : Bool) {m n : Exec A} → Leaves m → Leaves n → Leaves (if b then m else n)
Leaves-if true s t = s
Leaves-if false s t = t

Leaves-attempt : {A : Type 0} {m : Exec A} → Leaves m → Leaves (attempt m)
unfolding attempt
Leaves-attempt s = record { at = λ w. s.at w }

Leaves-perform :
    {A : Type 0} (f : History → Result A) (event : Result A → Event) → Leaves (perform f event)
unfolding perform
Leaves-perform f event = record { at = λ w. refl }

Leaves-notify : (f : History → Option Exc) (event : Option Exc → Event) → Leaves (notify f event)
unfolding notify
Leaves-notify f event = record { at = λ w. refl }

Leaves-pure : {A : Type 0} (a : A) → Leaves (pure a)
unfolding pure
Leaves-pure a = record { at = λ w. refl }

Leaves-raise : {A : Type 0} (e : Exc) → Leaves (raise {A = A} e)
unfolding raise
Leaves-raise e = record { at = λ w. refl }

Leaves-skip : Leaves skip
unfolding skip
Leaves-skip = record { at = λ w. refl }

Leaves-gets : {A : Type 0} (f : World → A) → Leaves (gets f)
unfolding gets
Leaves-gets f = record { at = λ w. refl }

Leaves-on_metrics : (f : Metrics → Metrics) → Leaves (on_metrics f)
unfolding modify
Leaves-on_metrics f = record { at = λ w. refl }

ruleset leaves_rules = (
  Leaves-bind, Leaves-if, Leaves-attempt, Leaves-perform, Leaves-notify, Leaves-pure, Leaves-raise,
  Leaves-skip, Leaves-gets, Leaves-on_metrics,
)

module _ (g : Engine) where
  Leaves-assert_active : (f : Option (History → Result Bool)) → Leaves (assert_active f)
  unfolding assert_active
  Leaves-assert_active none = search leaves_rules
  Leaves-assert_active (some f) = search leaves_rules

  Leaves-policy_failure : (p : DlqFailurePolicy) (e : Exc) → Leaves (policy_failure g p e)
  Leaves-policy_failure raise_error e = search leaves_rules
  Leaves-policy_failure log_only e = search leaves_rules

  Leaves-settle : (r : Result (Unit {0})) → Leaves (settle g r)
  Leaves-settle (ok u) = search leaves_rules
  Leaves-settle (err e) = search (leaves_rules, Leaves-policy_failure)

  Leaves-send : (sink : DlqSink) (q : DlqRequest) (d : FailureDecision) → Leaves (send g sink q d)
  unfolding assert_run_fence_active
  Leaves-send sink q d = search (leaves_rules, Leaves-assert_active, Leaves-settle)

  Leaves-write_in : (sink : Option DlqSink) (q : DlqRequest) → Leaves (write_in g sink q)
  Leaves-write_in none q = search leaves_rules
  Leaves-write_in (some sink) q = search (leaves_rules, Leaves-send)

  Leaves-write_to_dlq : (q : DlqRequest) → Leaves (write_to_dlq g q)
  unfolding write_to_dlq
  Leaves-write_to_dlq q = Leaves-write_in g.dlq_sink q

  -- The state in which `drop_record` discards the hooks of a record that was not routed.
  abbrev lost_world : CheckpointValue → MiddlewareFailure → Callback → World → World
  lost_world c f h w =
      (on_metrics count_errored
        (write_to_dlq g (failure_request f c) (success_hook_for f.subject none h w).1).1).1

  abbrev without_hooks : Value → World → World
  without_hooks v w = record w { success_hooks = entries_but v w.success_hooks }

  lost_hooks :
      (c : CheckpointValue) (f : MiddlewareFailure) (h : Callback) (w : World)
      → (lost_world c f h w).success_hooks ≡ entries_but f.subject w.success_hooks
  unfolding success_hook_for pop_success_hooks ◌>>=◌
  lost_hooks c f h w =
      (Leaves-write_to_dlq (failure_request f c)).at (success_hook_for f.subject none h w).1

  discard_nothing :
      (v : Value) (w : World)
      → entries_of v w.success_hooks ≡ []
      → discard_success_hooks g (v ∷ []) w ≡ (ok tt, without_hooks v w)
  unfolding discard_success_hooks discard_entries ◌>>=◌
  discard_nothing v w h = simp (h) refl

  forgotten_end :
      (c : CheckpointValue) (f : MiddlewareFailure) (h : Callback) (w : World)
      → is_some g.dlq_sink ≡ true
      → (write_to_dlq g (failure_request f c) (success_hook_for f.subject none h w).1).0 ≡ ok false
      → (drop_record g c (some f) h (some f.subject) w).1
        ≡ without_hooks f.subject (lost_world c f h w)
  unfolding drop_record success_hook_for pop_success_hooks ◌>>=◌
  forgotten_end c f h w dlq lost = ground (
    arith,
    discard_nothing f.subject (lost_world c f h w) (
        ap (entries_of f.subject) (lost_hooks c f h w) ∙ no_entries_left f.subject w.success_hooks),
  )

  -- Where a middleware fails on a record that the middlewares before it passed on as it was, and the
  -- configured DLQ does not take it, `drop_record` takes the success hooks of the record out of the
  -- table, and neither runs nor discards any of them.
  pub drop_record_forgets :
      (c : CheckpointValue) (f : MiddlewareFailure) (h : Callback) (w : World)
      → is_some g.dlq_sink ≡ true
      → (write_to_dlq g (failure_request f c) (success_hook_for f.subject none h w).1).0 ≡ ok false
      → let w' = (drop_record g c (some f) h (some f.subject) w).1 in
        (entries_of f.subject w'.success_hooks ≡ []) × Emits calls_no_hook w w'
  drop_record_forgets c f h w dlq lost =
      let popped = (success_hook_for f.subject none h w).1 in
      let sent = (write_to_dlq g (failure_request f c) popped).1 in
      rw (forgotten_end c f h w dlq lost) (
        no_entries_left f.subject (lost_world c f h w).success_hooks,
        Emits-trans
            (Emits-trans
              (Emits-trans ((Steps-success_hook_for f.subject none h).at w)
                ((Steps-write_to_dlq g (λ r. refl) (λ q r. refl) (failure_request f c)).at popped))
              ((Steps-on_metrics count_errored).at sent))
            (Emits_same refl),
      )
