-- ===== src/Delivery/Accounting.antt =====
-- Every record that reaches the writer is accounted for.
use agora_etl.Prelude.{
  ◌+◌, Bool, true, ◌&&◌, Option, none, some, List, [], ◌∷◌, ◌≡◌, refl, arith, if◌then◌else◌,
}
use agora_etl.Failures.{Exc, Result, ok, err, classify_failure}
use agora_etl.Delivery.Types.{
  Value, CheckpointValue, Callback, DlqFailurePolicy, raise_error, log_only, WriteResult, partial,
  CommitOutcome,
}
use agora_etl.Delivery.World.{World, History, Engine}
use agora_etl.Delivery.Exec.{◌>>=◌}
use agora_etl.Delivery.Calls.{assert_active, assert_run_fence_active}
use agora_etl.Delivery.Dlq
use agora_etl.Delivery.Dlq.{DlqRequest, DlqSink, policy_failure, send, write_in, write_to_dlq}
use agora_etl.Delivery.Results.{sink_request, route_errors, resolve_errors, resolve_write_result}
use agora_etl.Delivery.Counts.{
  total, Keeps, Keeps-bind, Keeps-if, Keeps-attempt, Keeps-on_metrics, keeps_rules,
}

Keeps-assert_active : (o : Option (History → Result Bool)) → Keeps (assert_active o)
unfolding assert_active
Keeps-assert_active none = search keeps_rules
Keeps-assert_active (some f) = search keeps_rules

module _ (g : Engine) where
  Keeps-assert_run_fence_active : Keeps (assert_run_fence_active g)
  unfolding assert_run_fence_active
  Keeps-assert_run_fence_active = Keeps-assert_active g.run_fence

  Keeps-policy_failure : (p : DlqFailurePolicy) (e : Exc) → Keeps (policy_failure g p e)
  Keeps-policy_failure raise_error e = search keeps_rules
  Keeps-policy_failure log_only e = search keeps_rules

  Keeps-settle : (r : Result (Unit {0})) → Keeps (Dlq.settle g r)
  Keeps-settle (ok u) = search keeps_rules
  Keeps-settle (err e) =
      Keeps-bind _ _ (Keeps-on_metrics _ (λ m. refl))
        (λ _. Keeps-policy_failure g.dlq_failure_policy e)

  Keeps-write_in : (o : Option DlqSink) (q : DlqRequest) → Keeps (write_in g o q)
  Keeps-write_in none q = search keeps_rules
  Keeps-write_in (some s) q =
      Keeps-if (classify_failure q.exception).dlq_eligible
        (Keeps-bind _ _
          (Keeps-attempt (Keeps-bind _ _ Keeps-assert_run_fence_active (λ _. search keeps_rules)))
          Keeps-settle)
        (search keeps_rules)

  pub Keeps-write_to_dlq : (q : DlqRequest) → Keeps (write_to_dlq g q)
  unfolding write_to_dlq
  Keeps-write_to_dlq q = Keeps-write_in g.dlq_sink q

  Keeps-route_errors :
      (raw v : Value) (c : CheckpointValue) (all : Bool) (es : List Exc)
      → Keeps (route_errors g raw v c all es)
  unfolding route_errors
  Keeps-route_errors raw v c all [] = search keeps_rules
  Keeps-route_errors raw v c all (e ∷ es) =
      Keeps-bind _ _ (Keeps-write_to_dlq (sink_request e raw v c))
        (λ b. Keeps-route_errors raw v c (all && b) es)

  routed_total :
      (e : Exc) (es : List Exc) (r : WriteResult) (raw v : Value) (c : CheckpointValue)
      (h : Callback) (w : World) {o : CommitOutcome}
      → (resolve_errors g (e ∷ es) r raw v c h w).0 ≡ ok o
      → total (resolve_errors g (e ∷ es) r raw v c h w).1
        ≡ (if r.written then total w + 2 else total w + 1)
  unfolding ◌>>=◌
  routed_total e es r raw v c h w p =
      ground (arith, (Keeps-route_errors raw v c true (e ∷ es)).at w)

  unrouted_total :
      (r : WriteResult) (raw v : Value) (c : CheckpointValue) (h : Callback) (w : World)
      → total (resolve_errors g [] r raw v c h w).1 ≡ total w + 1
  unfolding ◌>>=◌
  unrouted_total r raw v c h w = ground arith

  resolve_errors-total :
      (es : List Exc) (r : WriteResult) (raw v : Value) (c : CheckpointValue) (h : Callback)
      (w : World) {o : CommitOutcome}
      → r.errors ≡ es
      → (resolve_errors g es r raw v c h w).0 ≡ ok o
      → total (resolve_errors g es r raw v c h w).1
        ≡ (if partial r then total w + 2 else total w + 1)
  unfolding partial
  resolve_errors-total [] r raw v c h w same p = ground (arith, unrouted_total r raw v c h w)
  resolve_errors-total (e ∷ es) r raw v c h w same p =
      ground (arith, routed_total e es r raw v c h w p)

  -- Where an answer of the writer is resolved to an outcome, the counts of written, dropped and
  -- errored records together grow by one; they grow by two for a partial answer, which some sinks
  -- took and some refused: that record counts as written and as errored.
  pub resolve_write_result-total :
      (r : WriteResult) (raw v : Value) (c : CheckpointValue) (h : Callback) (w : World)
      {o : CommitOutcome}
      → (resolve_write_result g r raw v c h w).0 ≡ ok o
      → total (resolve_write_result g r raw v c h w).1
        ≡ (if partial r then total w + 2 else total w + 1)
  unfolding resolve_write_result
  resolve_write_result-total r raw v c h w p = resolve_errors-total r.errors r raw v c h w refl p
