-- ===== src/Lanes/ListCommits.antt =====
-- The list path of the pipelined lane, where the pipelined stage is the first middleware.
use agora_etl.Prelude.{ℕ, Option, none, some, List, [], map, true, ◌≡◌, refl}
use agora_etl.Failures.{Exc, ok}
use agora_etl.Delivery.Types.{Value, CheckpointValue}
use agora_etl.Delivery.World.{World, History, Engine}
use agora_etl.Delivery.Exec.{◌>>=◌}
use agora_etl.Delivery.Exec.Returns.{Returns}
use agora_etl.Middleware.{process_batch_range}
use agora_etl.Lanes.Batches.{present}
use agora_etl.Lanes.Pipelined.{limit_of, feed, run_pipelined}
use agora_etl.Lanes.Pipelined.Order.{in_order}
use agora_etl.Lanes.Pipelined.Room.{Below, feed-Below, one-limit_of}
use agora_etl.Lanes.Pipelined.Commits.{is_final, run_pipelined-in_order}
use agora_etl.Lanes.Stages.{ListStage, ListEntry, ask, resolve_list, arrive_list, list_pipeline}

-- The entry of a batch that no middleware before the stage saw.
abbrev pub entry_of : List Value × CheckpointValue → ListEntry
entry_of (batch, c) = record { submitted = present batch; raw_batch = batch; checkpoint = c }

module _ (g : Engine) (s : ListStage) where
  submits_entry :
      (h : (l : History) (rs : List (Option Value)) → s.submit_batch l rs ≡ none)
      → s.before ≡ []
      → (b : List Value × CheckpointValue) (w : World)
      → arrive_list g s b w ≡ (ok (some (entry_of b)), w)
  unfolding arrive_list process_batch_range ask ◌>>=◌
  submits_entry h first (batch, c) w = simp (first, h w.log (present batch)) refl

  -- Where the stage is the first middleware, nothing is raised by `submit_batch`, by the drain or by the
  -- source, and committing the batches one after another ends well or with an exception that cancels
  -- what is pending, the pipelined lane does just that, whatever its limit and whichever future is done
  -- first.
  pub run_pipelined_list :
      (size : Option ℕ) (batches : List (List Value × CheckpointValue)) (w : World)
      → s.before ≡ []
      → ((l : History) (rs : List (Option Value)) → s.submit_batch l rs ≡ none)
      → ((l : History) → s.drain_pending_batches l ≡ none)
      → is_final (in_order (resolve_list g s) (map entry_of batches) w).0 ≡ true
      → run_pipelined (list_pipeline g s size) (arrive_list g s) batches none w
        ≡ in_order (resolve_list g s) (map entry_of batches) w
  run_pipelined_list size batches w first submits drains final =
      run_pipelined-in_order (list_pipeline g s size) drains (arrive_list g s) entry_of
        (submits_entry submits first) batches w final

  -- The loop over the source, whatever its batches and its end, returns, and ends with an exception or
  -- with fewer entries pending than the limit.
  pub pipelined_in_flight :
      (size : Option ℕ) (batches : List (List Value × CheckpointValue)) (end : Option Exc)
      → Returns
          (feed (list_pipeline g s size) (arrive_list g s) [] batches end)
          (Below (limit_of s.max_in_flight size))
  pipelined_in_flight size batches end =
      feed-Below (list_pipeline g s size) (arrive_list g s) batches [] end
        (one-limit_of s.max_in_flight size)
