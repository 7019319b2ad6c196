-- ===== src/Sources.antt =====
-- What a source's generator hands over, item by item (src/agora/core/source/_base.py), and whether a
-- checkpoint may be resumed from (src/agora/sources/file/base.py, src/agora/core/checkpoint.py).
pub mod JsonLines
pub mod Limited
mod Tests
use Prim.Native.String.{String}
use text.Mathlib.Text.{◌==◌}
use agora_etl.Prelude.{ℕ, Bool, true, false, ◌&&◌, Option, none, some, List, [], ◌∷◌, if◌then◌else◌}

-- A generator as the source's state after each item: the state that `current_checkpoint` reads when
-- the item has been taken. `failed` is an exception out of the generator.
pub data Stream (S E A : Type 0) : Type 0 where
  finished : S → Stream S E A
  failed : E → S → Stream S E A
  yields : A → S → Stream S E A → Stream S E A

module _ {S E A : Type 0} where
  abbrev pub values : Stream S E A → List A
  values (finished s) = []
  values (failed e s) = []
  values (yields a s st) = a ∷ values st

  abbrev pub end_error : Stream S E A → Option E
  end_error (finished s) = none
  end_error (failed e s) = some e
  end_error (yields a s st) = end_error st

  abbrev pub end_state : Stream S E A → S
  end_state (finished s) = s
  end_state (failed e s) = s
  end_state (yields a s st) = end_state st

pub record SourceIdentity : Type 0 where
  pub uri : String
  pub size_bytes : ℕ
  pub modified_time_ns : ℕ
  pub device : Option ℕ
  pub inode : Option ℕ

pub data SourceIdentityMismatchPolicy : Type 0 where
  fail_closed reset allow : SourceIdentityMismatchPolicy

-- The cursor under `line_number`, if the value is a dict that has it.
pub record Checkpoint : Type 0 where
  pub line_number : Option ℕ
  pub source_identity : Option SourceIdentity

abbrev pub equal : ℕ → ℕ → Bool
equal a b = agora_etl.Prelude.◌==◌ a b

abbrev pub same_number : Option ℕ → Option ℕ → Bool
same_number none none = true
same_number (some a) (some b) = equal a b
same_number none (some b) = false
same_number (some a) none = false

-- The dataclass's `__eq__`.
unfoldable pub same_identity : SourceIdentity → SourceIdentity → Bool
same_identity a b =
    a.uri == b.uri
    && (equal a.size_bytes b.size_bytes
        && (equal a.modified_time_ns b.modified_time_ns
            && (same_number a.device b.device && same_number a.inode b.inode)))

-- `refused` is SourceIdentityMismatchError.
pub data Accepted : Type 0 where
  accepted declined refused : Accepted

abbrev by_policy : SourceIdentityMismatchPolicy → Accepted
by_policy SourceIdentityMismatchPolicy.fail_closed = refused
by_policy SourceIdentityMismatchPolicy.reset = declined
by_policy SourceIdentityMismatchPolicy.allow = accepted

abbrev of_identity :
    SourceIdentityMismatchPolicy → SourceIdentity → Option SourceIdentity → Accepted
of_identity p current none = by_policy p
of_identity p current (some saved) = if same_identity saved current then accepted else by_policy p

unfoldable pub accept_checkpoint_identity :
    SourceIdentityMismatchPolicy → SourceIdentity → Option Checkpoint → Accepted
unfolding same_identity
accept_checkpoint_identity p current none = declined
accept_checkpoint_identity p current (some c) = of_identity p current c.source_identity
