-- ===== src/Membership.antt =====
-- The namespaced stores of state/membership.py and state/cache.py, over the in-memory backend of
-- Memory.antt. The time of a call is an argument.
pub mod Keys
mod Tests
use Prim.Native.String.{String, ◌++◌}
use text.Mathlib.Text.{◌==◌}
use agora_etl.Prelude.{ℕ, ◌+◌, Bool, true, false, Option, none, some, if◌then◌else◌}
use agora_etl.Memory.{
  StoredValue, Values, get, set, set_if_absent, delete, count_prefix, delete_prefix,
}

pub record MembershipKeyStore : Type 0 where
  pub namespace : String
  pub default_ttl_s : Option ℕ

pub record TtlKeyValueStore : Type 0 where
  pub namespace : String
  pub default_ttl_s : Option ℕ

abbrev pub or_default : Option ℕ → Option ℕ → Option ℕ
or_default none default = default
or_default (some ttl) default = some ttl

abbrev pub after_ttl : ℕ → Option ℕ → Option ℕ
after_ttl now none = none
after_ttl now (some ttl) = some (now + ttl)

abbrev pub is_some {ℓ} : {A : Type ℓ} → Option A → Bool
is_some none = false
is_some (some a) = true

abbrev value_of : Option StoredValue → Option ℕ
value_of none = none
value_of (some e) = some e.value

abbrev pub told : Option StoredValue × Values → Bool × Values
told (e, vs) = (is_some e, vs)

module _ (s : MembershipKeyStore) where
  unfoldable pub prefix : String
  prefix = if s.namespace == "" then "" else s.namespace ++ ":"

  unfoldable pub full_key : String → String
  full_key key = prefix ++ key

  unfoldable pub expires_at : ℕ → Option ℕ → Option ℕ
  expires_at now ttl_s = after_ttl now (or_default ttl_s s.default_ttl_s)

  unfoldable pub contains : ℕ → String → Values → Bool × Values
  contains now key vs = told (get now (full_key key) vs)

  unfoldable pub add : ℕ → String → Option ℕ → Values → Values
  add now key ttl_s vs =
      set (full_key key) (record { value = 1; expires_at = expires_at now ttl_s }) vs

  unfoldable pub mark_if_new : ℕ → String → Option ℕ → Values → Bool × Values
  mark_if_new now key ttl_s vs =
      set_if_absent now (full_key key) (record { value = 1; expires_at = expires_at now ttl_s }) vs

  unfoldable pub delete_key : String → Values → Values
  delete_key key vs = delete (full_key key) vs

  unfoldable pub count : ℕ → Values → ℕ × Values
  count now vs = count_prefix now prefix vs

  unfoldable pub clear : Values → ℕ × Values
  clear vs = delete_prefix prefix vs

module _ (s : TtlKeyValueStore) where
  unfoldable pub kv_prefix : String
  kv_prefix = s.namespace ++ ":"

  unfoldable pub kv_full_key : String → String
  kv_full_key key = kv_prefix ++ key

  unfoldable pub kv_get : ℕ → String → Values → Option ℕ × Values
  kv_get now key vs = let (e, vs') = get now (kv_full_key key) vs in (value_of e, vs')

  unfoldable pub kv_set : ℕ → String → ℕ → Option ℕ → Values → Values
  kv_set now key value ttl_s vs =
      set (kv_full_key key)
        (record { value = value; expires_at = after_ttl now (or_default ttl_s s.default_ttl_s) }) vs

  unfoldable pub kv_delete : String → Values → Values
  kv_delete key vs = delete (kv_full_key key) vs

  unfoldable pub kv_count : ℕ → Values → ℕ × Values
  kv_count now vs = count_prefix now kv_prefix vs

  unfoldable pub kv_clear : Values → ℕ × Values
  kv_clear vs = delete_prefix kv_prefix vs
