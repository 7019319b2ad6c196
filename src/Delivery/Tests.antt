-- ===== src/Delivery/Tests.antt =====
-- The theorems on delivery at concrete inputs.
use agora_etl.Prelude.{map, List}
use agora_etl.Delivery.Types.{PendingWrite, write_ok}
use agora_etl.Delivery.Engine.{all_ok, commit_pending_write_success_batch, resolve_all}
use agora_etl.Delivery.SuccessBatch.{commit_pending_write_success_batch_general}
use agora_etl.Delivery.Samples.{strict, pending, answer_for}
use agora_etl.Delivery.Exec.{◌>>=◌}
use agora_etl.Prelude.{◌≡◌, refl, ◌+◌, true, false, none, some, [], ◌∷◌, if◌then◌else◌}
use agora_etl.Failures.{ok, classify_failure, classify_raised, classify_kind}
use agora_etl.Delivery.Types.{
  WriteResult, written, errored_unrouted, errored_routed, MiddlewareFailure, partial,
}
use agora_etl.Delivery.Exec.{◌>>=◌, ◌>>◌}
use agora_etl.Delivery.Calls.{
  assert_active, assert_run_fence_active, success_hook_for, pop_success_hooks, entries_of,
}
use agora_etl.Delivery.Dlq.{write_to_dlq}
use agora_etl.Delivery.Results.{route_errors, resolve_write_result}
use agora_etl.Delivery.Batching.{commit_outcomes}
use agora_etl.Delivery.Batching.Split.{after_unrouted, commit_outcomes-append}
use agora_etl.Delivery.Engine.{write_processed_record, drop_record, failure_request}
use agora_etl.Delivery.World.{World}
use agora_etl.Delivery.Trace.{Emits}
use agora_etl.Delivery.ForgottenHooks.{calls_no_hook, drop_record_forgets}
use agora_etl.Delivery.Counts.{total}
use agora_etl.Delivery.Accounting.{resolve_write_result-total}
use agora_etl.Delivery.Gate.Records.{Verdict, write_processed_record-Verdict}
use agora_etl.Delivery.Samples.{start, poison, with_dlq, with_broken_dlq, lenient}

-- The sink refuses record 13, and the DLQ takes it.
write_processed_record-Verdict_example :
    Verdict with_dlq 13 13 start
      (write_processed_record with_dlq (some 13) 13 (some 5) none none start).0
      (write_processed_record with_dlq (some 13) 13 (some 5) none none start).1
write_processed_record-Verdict_example =
    write_processed_record-Verdict with_dlq 13 13 (some 5) none none start refl

commit_outcomes-append_example :
    commit_outcomes lenient
      (written (some 4) none ∷ errored_unrouted poison ∷ written (some 6) none ∷ [])
      start
    ≡ (commit_outcomes lenient (written (some 4) none ∷ [])
          >> after_unrouted lenient poison (written (some 6) none ∷ []))
        start
commit_outcomes-append_example =
    commit_outcomes-append lenient poison (written (some 6) none ∷ []) (written (some 4) none ∷ [])
      start

-- One sink took the record and one refused it.
abbrev half_written : WriteResult
half_written = record { written = true; errors = poison ∷ [] }

half_written_outcome :
    (resolve_write_result lenient half_written 13 13 (some 5) none start).0
    ≡ ok (errored_routed (some 5) none)
unfolding resolve_write_result route_errors write_to_dlq ◌>>=◌
half_written_outcome = refl

resolve_write_result-total_example :
    total (resolve_write_result lenient half_written 13 13 (some 5) none start).1
    ≡ (if partial half_written then total start + 2 else total start + 1)
resolve_write_result-total_example =
    resolve_write_result-total lenient half_written 13 13 (some 5) none start half_written_outcome

abbrev failed : MiddlewareFailure
failed = record { stage = "middleware"; subject = 13; middleware = "Enrich"; exception = poison }

-- Record 13 has a reservation, to be kept by hook 1 or given up by hook 2.
abbrev reserved : World
reserved = record start {
  success_hooks = record { owner = 13; hook = 1; on_discard = some 2 } ∷ [];
}

reserved_is_lost :
    (write_to_dlq with_broken_dlq
      (failure_request failed (some 5))
      (success_hook_for failed.subject none none reserved).1).0
    ≡ ok false
unfolding success_hook_for pop_success_hooks write_to_dlq assert_run_fence_active assert_active
    classify_failure classify_raised classify_kind ◌>>=◌
reserved_is_lost = refl

drop_record_forgets_example :
    let w' = (drop_record with_broken_dlq (some 5) (some failed) none (some 13) reserved).1 in
    (entries_of 13 w'.success_hooks ≡ []) × Emits calls_no_hook reserved w'
drop_record_forgets_example =
    drop_record_forgets with_broken_dlq (some 5) failed none reserved refl reserved_is_lost

abbrev two_pending : List PendingWrite
two_pending = pending 4 ∷ pending 6 ∷ []

abbrev two_written : List WriteResult
two_written = map answer_for (4 ∷ 6 ∷ [])

two_written_ok : all_ok two_written ≡ true
unfolding write_ok
two_written_ok = refl

commit_pending_write_success_batch_general_example :
    commit_pending_write_success_batch strict two_pending start
    ≡ (resolve_all strict two_pending two_written >>= commit_outcomes strict) start
commit_pending_write_success_batch_general_example =
    commit_pending_write_success_batch_general strict two_pending two_written start refl refl
      two_written_ok
