-- ===== src/Lanes/Buffered/Commits.antt =====
-- A buffered run against the run that resolves one record after another.
use agora_etl.Prelude.{ℕ, List, map}
use agora_etl.Failures.{Result}
use agora_etl.Delivery.World.{World, Engine}
use agora_etl.Delivery.Exec.{Exec, resume, ◌>>◌}
use agora_etl.Delivery.Engine.{flush_pending_writes}
use agora_etl.Lanes.Linear.{SourceRecord}
use agora_etl.Lanes.Pipelined.Order.{in_order}
use agora_etl.Lanes.Buffered.{BufferedStage, BufferedEntry, submitted, resolve_buffered, or_abort}

-- The entry of a record that no middleware before the stage saw.
abbrev pub entry_of : SourceRecord → BufferedEntry
entry_of r = submitted r r.raw

module _ (g : Engine) (size : ℕ) (s : BufferedStage) where
  -- Each record resolved in turn, then the writes that are still pending.
  abbrev pub one_by_one : List SourceRecord → Exec (Unit {0})
  one_by_one rs =
      or_abort g size s
        (do in_order (resolve_buffered g size s) (map entry_of rs); flush_pending_writes g)

  abbrev settle_last : Result (Unit {0}) × World → Result (Unit {0}) × World
  settle_last (r, w) = or_abort g size s (λ u. resume r (λ t. flush_pending_writes g) u) w
