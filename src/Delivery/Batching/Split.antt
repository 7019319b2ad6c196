-- ===== src/Delivery/Batching/Split.antt =====
-- `commit_outcomes` around an outcome that reached neither the sink nor the DLQ.
use agora_etl.Prelude.{◌≡◌, refl, List, [], ◌∷◌, ◌++◌, if◌then◌else◌}
use agora_etl.Failures.{Exc, record_delivery_error}
use agora_etl.Delivery.Types.{
  CommitOutcome, written, dropped, errored_routed, errored_unrouted, is_fail_closed,
}
use agora_etl.Delivery.World.{World, Engine}
use agora_etl.Delivery.Exec.{Exec, raise, bind_then, if_then, ◌>>◌}
use agora_etl.Delivery.Checkpoints.{prepare}
use agora_etl.Delivery.Batching.{Gathered, nothing, apply_gathered, commit_from, commit_outcomes}

module _ (g : Engine) (e : Exc) (post : List CommitOutcome) where
  -- What follows the outcome: the end of the run, or the rest of the batch.
  abbrev pub after_unrouted : Exec (Unit {0})
  after_unrouted =
      if is_fail_closed g.sink_failure_policy
      then raise (record_delivery_error e)
      else commit_outcomes g post

  commit_from-append :
      (pre : List CommitOutcome) (a : Gathered) (w : World)
      → commit_from g a (pre ++ errored_unrouted e ∷ post) w
        ≡ (commit_from g a pre >> after_unrouted) w
  unfolding commit_from commit_outcomes
  commit_from-append [] a w = refl
  commit_from-append (written c h ∷ os) a w =
      bind_then (prepare g c) _ _ _ w (λ k. commit_from-append os _)
  commit_from-append (dropped c h ∷ os) a w =
      bind_then (prepare g c) _ _ _ w (λ k. commit_from-append os _)
  commit_from-append (errored_routed c h ∷ os) a w =
      bind_then (prepare g c) _ _ _ w (λ k. commit_from-append os _)
  commit_from-append (errored_unrouted d ∷ os) a w =
      bind_then (apply_gathered g a) _ _ _ w (λ k.
        if_then (is_fail_closed g.sink_failure_policy) _ _ _ _ (commit_from-append os nothing))

  -- Splitting a batch of outcomes at one that could not be routed, wherever it stands and whatever
  -- the collaborators answer: first the outcomes before it take effect as a batch of their own; then
  -- the run ends with that record's error under FAIL_CLOSED, so nothing after it has any effect, and
  -- goes on with the rest as a new batch under LOG_AND_CONTINUE.
  pub commit_outcomes-append :
      (pre : List CommitOutcome) (w : World)
      → commit_outcomes g (pre ++ errored_unrouted e ∷ post) w
        ≡ (commit_outcomes g pre >> after_unrouted) w
  unfolding commit_outcomes
  commit_outcomes-append pre w = commit_from-append pre nothing w
