-- ===== src/Redaction.antt =====
-- `DLQPayloadPolicy` of core/dlq_policy.py without encryption: which fields and headers of a payload are
-- redacted. A payload is JSON; `str` of a value that is no string, and `strip().lower()` of a name, are
-- parameters.
mod Safe
mod Tests
use Prim.Native.String.{String}
use text.Mathlib.Text.{◌==◌}
use agora_etl.Prelude.{
  ℕ, Bool, true, false, ◌||◌, Option, none, some, List, [], ◌∷◌, ◌++◌, map, if◌then◌else◌,
}

mutual
  pub data Json : Type 0 where
    null : Json
    bool : Bool → Json
    number : ℕ → Json
    string : String → Json
    array : Items → Json
    object : Fields → Json

  pub data Items : Type 0 where
    no_items : Items
    item : Json → Items → Items

  -- A dictionary in its insertion order; a key stands once.
  pub data Fields : Type 0 where
    no_fields : Fields
    field : String → Json → Fields → Fields

abbrev pub member : String → List String → Bool
member s [] = false
member s (t ∷ ts) = (s == t) || member s ts

abbrev pub get_field : String → Fields → Option Json
get_field k no_fields = none
get_field k (field l v fs) = let rest = get_field k fs in if l == k then some v else rest

abbrev pub set_field : String → Json → Fields → Fields
set_field k u no_fields = field k u no_fields
set_field k u (field l v fs) =
    let rest = set_field k u fs in if l == k then field l u fs else field l v rest

abbrev pub common_sensitive_fields : List String
common_sensitive_fields =
    "access_token" ∷ "api_key" ∷ "authorization" ∷ "client_secret" ∷ "cookie" ∷ "password"
    ∷ "private_key" ∷ "refresh_token" ∷ "secret" ∷ "set-cookie" ∷ "token" ∷ "x-api-key"
    ∷ "x_api_key" ∷ []

abbrev pub common_sensitive_headers : List String
common_sensitive_headers =
    "api-key" ∷ "authorization" ∷ "cookie" ∷ "proxy-authorization" ∷ "set-cookie" ∷ "x-api-key"
    ∷ "x-auth-token" ∷ []

pub data Mode : Type 0 where
  raw redacted encrypted : Mode

-- The policy as it was given, with the encryptor left out.
pub record DlqPayloadPolicy : Type 0 where
  pub mode : Mode
  pub redact_fields : List String
  pub redact_headers : List String
  pub redacted_value : String
  pub include_common_sensitive_names : Bool

-- `_redacted_header_value`
abbrev pub header_marker : String → Json
header_marker s = object (field "encoding" (string "redacted") (field "data" (string s) no_fields))

abbrev pub is_headers : Option String → Bool
is_headers none = false
is_headers (some s) = s == "headers"

module _ (normalize : String → String) (str : Json → String) where
  abbrev pub header_key : Option Json → String
  header_key none = normalize ""
  header_key (some v) = normalize (str v)

  module _ (header_names : List String) (redacted_value : String) where
    -- `_redact_value` and `_redact_header`. The fields of a header that is not sensitive are redacted
    -- with no field names.
    unfoldable mutual
      pub redact_value : List String → Option String → Json → Json
      redact_value field_names parent (object fs) = object (redact_dict field_names fs)
      redact_value field_names parent (array is) =
          array (if is_headers parent then redact_headers is else redact_list field_names parent is)
      redact_value field_names parent null = null
      redact_value field_names parent (bool b) = bool b
      redact_value field_names parent (number n) = number n
      redact_value field_names parent (string s) = string s

      pub redact_dict : List String → Fields → Fields
      redact_dict field_names no_fields = no_fields
      redact_dict field_names (field k v fs) =
          field k
            (if member (normalize k) field_names
              then string redacted_value
              else redact_value field_names (some (normalize k)) v)
            (redact_dict field_names fs)

      pub redact_list : List String → Option String → Items → Items
      redact_list field_names parent no_items = no_items
      redact_list field_names parent (item v is) =
          item (redact_value field_names parent v) (redact_list field_names parent is)

      pub redact_headers : Items → Items
      redact_headers no_items = no_items
      redact_headers (item v is) = item (redact_header v) (redact_headers is)

      pub redact_header : Json → Json
      redact_header (object fs) = object (
          if member (header_key (get_field "key" fs)) header_names
          then set_field "value" (header_marker redacted_value) fs
          else redact_dict [] fs)
      redact_header (array is) = array is
      redact_header null = null
      redact_header (bool b) = bool b
      redact_header (number n) = number n
      redact_header (string s) = string s

  abbrev pub names_of : Bool → List String → List String → List String
  names_of true common names = map normalize names ++ common
  names_of false common names = map normalize names

  abbrev apply_redaction : DlqPayloadPolicy → Fields → Json
  apply_redaction p payload =
      let common = p.include_common_sensitive_names in
      redact_value (names_of common common_sensitive_headers p.redact_headers) p.redacted_value
        (names_of common common_sensitive_fields p.redact_fields) none (object payload)

  abbrev pub apply_mode : Mode → DlqPayloadPolicy → Fields → Json
  apply_mode raw p payload = object payload
  apply_mode encrypted p payload = object payload
  apply_mode redacted p payload = apply_redaction p payload

  unfoldable pub apply : DlqPayloadPolicy → Fields → Json
  apply p payload = apply_mode p.mode p payload
