-- ===== src/Redaction/Tests.antt =====
-- A payload with a password, and headers in two forms.
use Prim.Native.String.{String}
use agora_etl.Prelude.{true, none, [], ◌≡◌, refl}
use agora_etl.Redaction.{
  Json, number, string, array, object, no_items, item, Fields, no_fields, field, DlqPayloadPolicy,
  redacted, redact_value, redact_dict, redact_list, redact_headers, redact_header, header_marker,
  apply,
}
use agora_etl.Redaction.Safe.{IsRedacted, header_names_of, field_names_of, apply-IsRedacted}

-- Names that are in lower case, with no space around them.
abbrev plainly : String → String
plainly s = s

abbrev to_text : Json → String
to_text (string s) = s
to_text _ = "value"

abbrev common_only : DlqPayloadPolicy
common_only = record {
  mode = redacted;
  redact_fields = [];
  redact_headers = [];
  redacted_value = "[REDACTED]";
  include_common_sensitive_names = true;
}

abbrev user : Fields
user = field "id" (number 7) (field "password" (string "hunter2") no_fields)

-- The user within a list, and a header with a sensitive name.
abbrev request : Fields
request = field "users" (array (item (object user) no_items)) (
    field "headers"
      (array (
        item (object (field "key" (string "cookie") (field "value" (string "c1") no_fields)))
          no_items))
      no_fields)

apply-IsRedacted_example :
    IsRedacted plainly to_text
      (header_names_of plainly to_text common_only)
      "[REDACTED]"
      (field_names_of plainly to_text common_only)
      none
      (apply plainly to_text common_only request)
apply-IsRedacted_example = apply-IsRedacted plainly to_text common_only request (λ t. refl) refl

request_is_hidden :
    apply plainly to_text common_only request
    ≡ object (
        field "users"
          (array (
            item
              (object (field "id" (number 7) (field "password" (string "[REDACTED]") no_fields)))
              no_items))
          (field "headers"
            (array (
              item
                (object (
                  field "key"
                    (string "cookie")
                    (field "value" (header_marker "[REDACTED]") no_fields)))
                no_items))
            no_fields))
unfolding apply redact_value redact_dict redact_list redact_headers redact_header
request_is_hidden = refl

-- A list within a list of headers is kept as it is.
abbrev in_nested_list : Fields
in_nested_list =
    field "headers"
      (array (
        item (array (item (object (field "password" (string "hunter2") no_fields)) no_items))
          no_items))
      no_fields

in_nested_list_is_kept : apply plainly to_text common_only in_nested_list ≡ object in_nested_list
unfolding apply redact_value redact_dict redact_list redact_headers redact_header
in_nested_list_is_kept = refl

password_is_hidden :
    apply plainly to_text common_only user
    ≡ object (field "id" (number 7) (field "password" (string "[REDACTED]") no_fields))
unfolding apply redact_value redact_dict
password_is_hidden = refl

-- A field of a header that is not sensitive keeps its value, password or not; and in a dictionary of
-- headers, the names of headers that are no field names are not looked at.
abbrev nested : Fields
nested =
    field "headers"
      (array (
        item
          (object (
            field "key" (string "meta")
              (field "value" (object (field "password" (string "hunter2") no_fields)) no_fields)))
          no_items))
      no_fields

nested_is_kept : apply plainly to_text common_only nested ≡ object nested
unfolding apply redact_value redact_dict redact_headers redact_header redact_list
nested_is_kept = refl

abbrev by_name : Fields
by_name = field "headers" (object (field "x-auth-token" (string "hunter2") no_fields)) no_fields

by_name_is_kept : apply plainly to_text common_only by_name ≡ object by_name
unfolding apply redact_value redact_dict
by_name_is_kept = refl
