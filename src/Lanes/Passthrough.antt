-- ===== src/Lanes/Passthrough.antt =====
-- An Arrow batch that the middlewares left as it was, against one that no middleware was given.
use agora_etl.Prelude.{Bool, true, ◌&&◌, List, [], ◌∷◌, length, ◌≡◌, refl, ap}
use mathlib.Core.Path.{fun_ext}
use agora_etl.Failures.{Exc}
use agora_etl.Delivery.Types.{Value, CheckpointValue}
use agora_etl.Delivery.World.{World, Engine}
use agora_etl.Delivery.Exec.{Exec, attempt, bind_same, ◌>>=◌, ◌>>◌}
use agora_etl.Delivery.Dlq.{write_to_dlq}
use agora_etl.Delivery.Results.{sink_request}
use agora_etl.Delivery.Checkpoints.{save_batch}
use agora_etl.Lanes.Arrow.{
  ArrowWriter, settle_arrow_write, route_rows, route_row_pairs, write_passthrough_arrow_batch,
  finalize_arrow_batch_result, out_batch,
}
use agora_etl.Lanes.ArrowLaws.{written_batch}

module _ (g : Engine) where
  route_row_pairs-same :
      (e : Exc) (c : CheckpointValue) (routed : Bool) (vs : List Value) (w : World)
      → route_row_pairs g e c routed vs vs w ≡ route_rows g e c routed vs w
  unfolding route_row_pairs route_rows ◌>>=◌
  route_row_pairs-same e c routed [] w = refl
  route_row_pairs-same e c routed (v ∷ vs) w =
      bind_same (write_to_dlq g (sink_request e v v c)) _ _ w
        λ sent. route_row_pairs-same e c (routed && sent) vs

  -- A batch that the middlewares left as it was is written as one that no middleware was given: the
  -- same calls in the same order, the same counts and the same result. The empty batch is left out.
  pub finalize_arrow-passthrough :
      (writer : ArrowWriter) (v : Value) (vs : List Value) (c : CheckpointValue) (w : World)
      → finalize_arrow_batch_result g writer (out_batch (v ∷ vs)) (v ∷ vs) c w
        ≡ write_passthrough_arrow_batch g writer (v ∷ vs) c w
  unfolding finalize_arrow_batch_result write_passthrough_arrow_batch
  finalize_arrow-passthrough writer v vs c w =
      ap
        (λ (route : Exc → Exec Bool).
          (attempt (written_batch g writer (v ∷ vs)) >>= λ answer.
          settle_arrow_write g (length (v ∷ vs)) route answer >> save_batch g c (length (v ∷ vs)))
            w)
        (fun_ext λ e. fun_ext (route_row_pairs-same e c true (v ∷ vs)))
