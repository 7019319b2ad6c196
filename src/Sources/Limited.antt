-- ===== src/Sources/Limited.antt =====
-- src/agora/core/source/_wrappers.py: `LimitedSource`, which hands over at most `max_records` records
-- of the source it wraps. The states are those of that source.
pub mod Laws
use agora_etl.Prelude.{
  ℕ, zero, suc, ◌-◌, min, Bool, Option, none, some, List, [], ◌∷◌, take, length, leb, if◌then◌else◌,
}
use agora_etl.Failures.{Result, ok, err, runtime_error}
use agora_etl.Sources.{Stream, finished, failed, yields}

pub record LimitedSource : Type 0 where
  pub max_records : ℕ

-- `limit` on a limited source.
abbrev pub limit : Option ℕ → LimitedSource → LimitedSource
limit none l = l
limit (some n) l = record { max_records = min l.max_records n }

-- `batch[:count]`
abbrev pub slice_emitted_batch : {A : Type 0} → List A → ℕ → List A
slice_emitted_batch batch count = take count batch

module _ {S E A : Type 0} where
  -- `remaining`, the source's state, and what its generator has left.
  unfoldable pub limit_items : ℕ → S → Stream S E A → Stream S E A
  limit_items zero s st = finished s
  limit_items (suc r) s (finished s') = finished s'
  limit_items (suc r) s (failed e s') = failed e s'
  limit_items (suc r) s (yields a s' st) = yields a s' (limit_items r s' st)

  unfoldable pub stream : LimitedSource → S → Stream S E A → Stream S E A
  unfolding limit_items
  stream l s st = limit_items l.max_records s st

  unfoldable pub limit_batches : ℕ → S → Stream S E (List A) → Stream S E (List A)
  limit_batches zero s st = finished s
  limit_batches (suc r) s (finished s') = finished s'
  limit_batches (suc r) s (failed e s') = failed e s'
  limit_batches (suc r) s (yields batch s' st) =
      if leb (length batch) (suc r)
      then yields batch s' (limit_batches (suc r - length batch) s' st)
      else yields (slice_emitted_batch batch (suc r)) s' (finished s')

  -- Whether the source emits batches is its data plane's.
  unfoldable pub stream_batches :
      LimitedSource → Bool → S → Stream S E (List A) → Result (Stream S E (List A))
  unfolding limit_batches
  stream_batches l emits s st =
      if emits
      then ok (limit_batches l.max_records s st)
      else err (runtime_error "stream_batches() is unavailable on this limited wrapper.")
