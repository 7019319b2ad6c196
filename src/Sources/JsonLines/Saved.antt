-- ===== src/Sources/JsonLines/Saved.antt =====
-- The checkpoint that a run leaves, and the source that takes it up.
use text.Mathlib.TextEquality.{eq_iff}
use agora_etl.Prelude.{ℕ, ◌<◌, Option, some, none, ◌≡◌, refl, true, arith}
use agora_etl.Sources.{
  SourceIdentity, Checkpoint, same_identity, same_number, accept_checkpoint_identity,
}
use agora_etl.Sources.JsonLines.{JsonLinesSource, current_checkpoint, prepare_resume}

-- The checkpoint that a run saves with the source as an item left it.
abbrev pub saved : SourceIdentity → JsonLinesSource → Checkpoint
saved here s = record { line_number = current_checkpoint s; source_identity = some here }

same_number_refl : (o : Option ℕ) → same_number o o ≡ true
same_number_refl none = refl
same_number_refl (some n) = ground arith

same_identity_refl : (here : SourceIdentity) → same_identity here here ≡ true
unfolding same_identity
same_identity_refl here =
    rw ((eq_iff here.uri here.uri).1 refl)
      (ground (arith, same_number_refl here.device, same_number_refl here.inode))

-- The file is still the one that the checkpoint was saved for.
pub prepares :
    (here : SourceIdentity) (s end_s : JsonLinesSource)
    → 0 < end_s.last_line_number
    → prepare_resume here (some (saved here end_s)) s
      ≡ some (record s { resume_line_number = end_s.last_line_number })
unfolding prepare_resume accept_checkpoint_identity
prepares here s end_s h = ground (arith, same_identity_refl here)
