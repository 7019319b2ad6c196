-- ===== src/Lanes/Tests.antt =====
-- The lanes at concrete inputs.
use agora_etl.Prelude.{true, none, some, List, [], ◌∷◌, map, ◌==◌, ◌≡◌, refl, ap}
use agora_etl.Failures.{ok, err}
use agora_etl.Delivery.Types.{Value, CheckpointValue}
use agora_etl.Delivery.World.{World, checkpoint_sent}
use agora_etl.Delivery.Exec.{raise, ◌>>=◌, ◌>>◌}
use agora_etl.Delivery.Exec.Returns.{Returns}
use agora_etl.Delivery.Calls.{assert_run_fence_active, assert_active}
use agora_etl.Delivery.Checkpoints.{save_batch, make_checkpoint}
use agora_etl.Delivery.Engine.{queue_processed_record}
use agora_etl.Delivery.Samples.{start, poison, strict, with_broken_dlq, pending}
use agora_etl.Lanes.Arrow.{
  ArrowWriter, write_passthrough_arrow_batch, finalize_arrow_batch_result, out_batch,
}
use agora_etl.Lanes.ArrowLaws.{counted_write, written_batch, write_passthrough_no_dlq}
use agora_etl.Lanes.Passthrough.{finalize_arrow-passthrough}
use agora_etl.Lanes.Pipelined.{limit_of, feed, run_pipelined}
use agora_etl.Lanes.Pipelined.Order.{in_order}
use agora_etl.Lanes.Pipelined.Room.{Below}
use agora_etl.Lanes.Stages.{ListStage, resolve_list, arrive_list, list_pipeline}
use agora_etl.Lanes.ListCommits.{entry_of, run_pipelined_list, pipelined_in_flight}
use agora_etl.Delivery.Checkpoints.{
  Store, should_save, increment_by, mark_saved, prepare, persist_if, persist,
}
use agora_etl.Delivery.Calls.{
  success_hook_for, pop_success_hooks, write_batch, record_flush_metrics, run_callback, run_hooks,
}
use agora_etl.Delivery.Types.{write_ok}
use agora_etl.Delivery.Results.{resolve, resolve_write_result, validate_write_result_count}
use agora_etl.Delivery.Batching.{commit_outcomes, commit_from, apply_gathered}
use agora_etl.Delivery.BatchWrite.{
  write_batch_result, write_batch_filtered, zip_strict, active_items, dropped_records,
  pop_dropped_hooks, resolve_active,
}
use agora_etl.Middleware.{process_batch_range}
use agora_etl.Lanes.Batches.{finalize_list_batch_result}
use agora_etl.Lanes.Stages.{ask}
use agora_etl.Lanes.Pipelined.Commits.{is_final}
use agora_etl.Lanes.Linear.{SourceRecord, run_linear, run_linear-raise}
use agora_etl.Prelude.{arith}
use agora_etl.Lanes.Linear.{read_records}
use agora_etl.Lanes.Gated.{IsGated, read_records-IsGated}
use agora_etl.Lanes.Ahead.{drop_ahead}

abbrev refusing : ArrowWriter
refusing = some (λ h vs. err poison)

-- FAIL_CLOSED and no DLQ: the run goes on.
write_passthrough_no_dlq_example :
    write_passthrough_arrow_batch strict refusing (4 ∷ 6 ∷ []) (some 5) start
    ≡ save_batch strict
        (some 5)
        2
        (counted_write 2 (written_batch strict refusing (4 ∷ 6 ∷ []) start))
write_passthrough_no_dlq_example =
    write_passthrough_no_dlq strict refusing (4 ∷ 6 ∷ []) (some 5) start refl

finalize_arrow-passthrough_example :
    finalize_arrow_batch_result strict refusing (out_batch (4 ∷ 6 ∷ [])) (4 ∷ 6 ∷ []) (some 5) start
    ≡ write_passthrough_arrow_batch strict refusing (4 ∷ 6 ∷ []) (some 5) start
finalize_arrow-passthrough_example =
    finalize_arrow-passthrough strict refusing 4 (6 ∷ []) (some 5) start

-- A stage that keeps what it is given, and is done with the batch of record 6 first.
abbrev keeping : ListStage
keeping = record {
  name = "enrich";
  max_in_flight = 2;
  before = [];
  after = [];
  submit_batch = λ h rs. none;
  is_done = λ h rs. elim rs [ [] ↦ true | r ∷ rest ↦ elim r [ none ↦ true | some v ↦ v == 6 ] ];
  future = λ h rs. ok rs;
  drain_pending_batches = λ h. none;
}

abbrev three_batches : List (List Value × CheckpointValue)
three_batches = (4 ∷ [], some 1) ∷ (6 ∷ [], some 2) ∷ (8 ∷ [], some 3) ∷ []

in_order_is_ok :
    (in_order (resolve_list strict keeping) (map entry_of three_batches) start).0 ≡ ok tt
unfolding in_order resolve_list ask finalize_list_batch_result write_batch_result
    write_batch_filtered zip_strict active_items dropped_records pop_dropped_hooks
    process_batch_range resolve_active success_hook_for pop_success_hooks commit_outcomes
    commit_from apply_gathered prepare persist_if persist increment_by should_save mark_saved
    write_batch assert_run_fence_active assert_active record_flush_metrics
    validate_write_result_count resolve resolve_write_result write_ok run_callback run_hooks ◌>>=◌
in_order_is_ok = refl

run_pipelined_list_example :
    run_pipelined
      (list_pipeline strict keeping none)
      (arrive_list strict keeping)
      three_batches
      none
      start
    ≡ in_order (resolve_list strict keeping) (map entry_of three_batches) start
run_pipelined_list_example =
    run_pipelined_list strict keeping none three_batches start refl (λ l rs. refl) (λ l. refl)
      (ap is_final in_order_is_ok)

pipelined_in_flight_example :
    Returns
      (feed
        (list_pipeline strict keeping (some 1))
        (arrive_list strict keeping)
        []
        three_batches
        (some poison))
      (Below (limit_of 2 (some 1)))
pipelined_in_flight_example =
    pipelined_in_flight strict keeping (some 1) three_batches (some poison)

abbrev read : Value → SourceRecord
read v = record { raw = v; checkpoint = some v; on_success = none }

run_linear-raise_example :
    run_linear strict [] 2 (read 4 ∷ read 6 ∷ read 8 ∷ []) (some poison) start
    ≡ (run_linear strict [] 2 (read 4 ∷ read 6 ∷ read 8 ∷ []) none >> raise poison) start
run_linear-raise_example = run_linear-raise strict [] 2 (read 4 ∷ read 6 ∷ read 8 ∷ []) poison start

-- Record 4 is queued when record 6 is dropped.
abbrev one_queued : World
one_queued = record start { pending_writes = pending 4 ∷ [] }

due_six : should_save (increment_by 1 one_queued.checkpoint_state) 6 strict.checkpoint_every ≡ true
unfolding should_save increment_by
due_six = refl

abbrev saving : Store
saving h k c = none

drop_ahead_example :
    ((queue_processed_record strict none 6 (some 6) 10 none none one_queued).1.log
      ≡ checkpoint_sent (make_checkpoint strict 6 one_queued) none ∷ [])
    × ((queue_processed_record strict none 6 (some 6) 10 none none one_queued).1.pending_writes
        ≡ pending 4 ∷ [])
drop_ahead_example = drop_ahead strict saving 6 6 10 one_queued refl refl refl due_six

read_records-IsGated_example :
    IsGated with_broken_dlq
      (read 4 ∷ read 13 ∷ read 8 ∷ [])
      start
      (read_records with_broken_dlq [] 1 (read 4 ∷ read 13 ∷ read 8 ∷ []) none start).0
      (read_records with_broken_dlq [] 1 (read 4 ∷ read 13 ∷ read 8 ∷ []) none start).1
read_records-IsGated_example =
    read_records-IsGated with_broken_dlq 1 (read 4 ∷ read 13 ∷ read 8 ∷ []) start (omega arith) refl
