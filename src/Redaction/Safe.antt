-- ===== src/Redaction/Safe.antt =====
-- What is redacted wherever it stands in a payload.
use Prim.Native.String.{String}
use text.Mathlib.Text.{◌==◌}
use text.Mathlib.TextEquality.{eq_iff}
use agora_etl.Prelude.{
  Bool, true, false, inl, inr, Bool-cases, Option, none, some, List, [], if◌then◌else◌, ◌≡◌, refl,
  sym, ap, ◌∙◌, arith,
}
use mathlib.Core.Path.{subst}
use agora_etl.Redaction.{
  Json, null, bool, number, string, array, object, Items, no_items, item, Fields, no_fields, field,
  member, get_field, set_field, header_marker, is_headers, header_key, redact_value, redact_dict,
  redact_list, redact_headers, redact_header, DlqPayloadPolicy, Mode, redacted, apply_mode,
  names_of, common_sensitive_fields, common_sensitive_headers, apply,
}

-- The name of a header whose key is a string.
abbrev pub header_name : Option Json → Option String
header_name (some (string s)) = some s
header_name _ = none

not_both : (l : String) → (l == "value") ≡ true → (l == "key") ≡ false
not_both l h = subst (λ (s : String). (s == "key") ≡ false) (sym ((eq_iff l "value").0 h)) refl

module _ (u : Json) where
  key-set_field :
      (fs : Fields)
      → header_name (get_field "key" (set_field "value" u fs)) ≡ header_name (get_field "key" fs)
  key-set_field no_fields = refl
  key-set_field (field l v fs) = elim (Bool-cases (l == "value")) [
    | inl same ↦ simp (same, not_both l same) refl
    | inr other ↦ elim (Bool-cases (l == "key")) [
      | inl key ↦ simp (other, key) refl
      | inr no_key ↦ simp (other, no_key) (key-set_field fs)
    ]
  ]

  value-set_field : (fs : Fields) → get_field "value" (set_field "value" u fs) ≡ some u
  value-set_field no_fields = refl
  value-set_field (field l v fs) = elim (Bool-cases (l == "value")) [
    | inl same ↦ simp (same) refl
    | inr other ↦ simp (other) (value-set_field fs)
  ]

module _ {A : Type 0} where
  if_true : (b : Bool) (x y : A) → b ≡ true → (if b then x else y) ≡ x
  if_true b x y h = simp (h) refl

  if_false : (b : Bool) (x y : A) → b ≡ false → (if b then x else y) ≡ y
  if_false b x y h = simp (h) refl

if_elim :
    {A : Type 0} (P : A → Type 0) (b : Bool) {x y : A}
    → (b ≡ true → P x)
    → (b ≡ false → P y)
    → P (if b then x else y)
if_elim P true h k = h refl
if_elim P false h k = k refl

module _ (normalize : String → String) (str : Json → String) (header_names : List String)
    (redacted_value : String) where
  mutual
    pub IsRedacted : List String → Option String → Json → Type 0
    IsRedacted names parent (object fs) = DictIsRedacted names fs
    IsRedacted names parent (array is) = ArrayIsRedacted (is_headers parent) names parent is
    IsRedacted names parent null = Unit {0}
    IsRedacted names parent (bool b) = Unit {0}
    IsRedacted names parent (number n) = Unit {0}
    IsRedacted names parent (string s) = Unit {0}

    -- A sensitive field has the marker for a value.
    pub DictIsRedacted : List String → Fields → Type 0
    DictIsRedacted names no_fields = Unit {0}
    DictIsRedacted names (field k v fs) =
        (member (normalize k) names ≡ true → v ≡ string redacted_value)
        × ((member (normalize k) names ≡ false → IsRedacted names (some (normalize k)) v)
            × DictIsRedacted names fs)

    pub ArrayIsRedacted : Bool → List String → Option String → Items → Type 0
    ArrayIsRedacted true names parent no_items = Unit {0}
    ArrayIsRedacted true names parent (item v is) =
        HeaderIsRedacted v × ArrayIsRedacted true names parent is
    ArrayIsRedacted false names parent no_items = Unit {0}
    ArrayIsRedacted false names parent (item v is) =
        IsRedacted names parent v × ArrayIsRedacted false names parent is

    -- Of the headers that are dictionaries: one whose name is sensitive has the marker for a value,
    -- whatever its other fields are, and in another no field name is taken for sensitive. Of other
    -- headers, a nested list among them, nothing is said.
    pub HeaderIsRedacted : Json → Type 0
    HeaderIsRedacted (object fs) =
        (s : String)
        → header_name (get_field "key" fs) ≡ some s
        → (member (normalize s) header_names ≡ true
            → get_field "value" fs ≡ some (header_marker redacted_value))
          × (member (normalize s) header_names ≡ false → DictIsRedacted [] fs)
    HeaderIsRedacted _ = Unit {0}

  keeps_name :
      (v : Json) (p : Option String)
      → header_name (some (redact_value normalize str header_names redacted_value [] p v))
        ≡ header_name (some v)
  unfolding redact_value
  keeps_name null p = refl
  keeps_name (bool b) p = refl
  keeps_name (number n) p = refl
  keeps_name (string s) p = refl
  keeps_name (array is) p = refl
  keeps_name (object fs) p = refl

  key-redact_dict :
      (fs : Fields)
      → header_name (get_field "key" (redact_dict normalize str header_names redacted_value [] fs))
        ≡ header_name (get_field "key" fs)
  unfolding redact_value
  key-redact_dict no_fields = refl
  key-redact_dict (field l v fs) = elim (Bool-cases (l == "key")) [
    | inl key ↦ simp (key) (keeps_name v (some (normalize l)))
    | inr no_key ↦ simp (no_key) (key-redact_dict fs)
  ]

  module _ (plain : (t : String) → str (string t) ≡ t) where
    name-header_key :
        (o : Option Json) (s : String)
        → header_name o ≡ some s
        → header_key normalize str o ≡ normalize s
    name-header_key (some (string t)) s h = ap normalize (plain t ∙ ground (arith, h))
    name-header_key none s h = ground (arith, h)
    name-header_key (some null) s h = ground (arith, h)
    name-header_key (some (bool b)) s h = ground (arith, h)
    name-header_key (some (number n)) s h = ground (arith, h)
    name-header_key (some (array is)) s h = ground (arith, h)
    name-header_key (some (object fs)) s h = ground (arith, h)

    abbrev is_sensitive : Fields → Bool
    is_sensitive fs = member (header_key normalize str (get_field "key" fs)) header_names

    same_member :
        (fs : Fields) (s : String) (b : Bool)
        → header_name (get_field "key" fs) ≡ some s
        → is_sensitive fs ≡ b
        → member (normalize s) header_names ≡ b
    same_member fs s b named h =
        ap (λ k. member k header_names) (sym (name-header_key (get_field "key" fs) s named)) ∙ h

    marked :
        (fs : Fields)
        → is_sensitive fs ≡ true
        → HeaderIsRedacted (object (set_field "value" (header_marker redacted_value) fs))
    unfolding HeaderIsRedacted
    marked fs h s named =
        let m = header_marker redacted_value in
        let yes = same_member fs s true (sym (key-set_field m fs) ∙ named) h in
        (λ t. value-set_field m fs, λ no. ground (arith, yes, no))

    unmarked :
        (fs : Fields)
        → is_sensitive fs ≡ false
        → DictIsRedacted [] (redact_dict normalize str header_names redacted_value [] fs)
        → HeaderIsRedacted (object (redact_dict normalize str header_names redacted_value [] fs))
    unfolding HeaderIsRedacted
    unmarked fs h d s named =
        let no = same_member fs s false (sym (key-redact_dict fs) ∙ named) h in
        (λ yes. ground (arith, yes, no), λ t. d)

    header_or :
        (fs : Fields)
        → DictIsRedacted [] (redact_dict normalize str header_names redacted_value [] fs)
        → HeaderIsRedacted (redact_header normalize str header_names redacted_value (object fs))
    unfolding redact_header
    header_or fs d =
        if_elim (λ (out : Fields). HeaderIsRedacted (object out)) (is_sensitive fs) (marked fs)
          (λ no. unmarked fs no d)

    array_or :
        (b : Bool) (names : List String) (parent : Option String) (xs ys : Items)
        → ArrayIsRedacted true names parent xs
        → ArrayIsRedacted false names parent ys
        → ArrayIsRedacted b names parent (if b then xs else ys)
    array_or true names parent xs ys h k = h
    array_or false names parent xs ys h k = k

    mutual
      unfolding IsRedacted DictIsRedacted ArrayIsRedacted HeaderIsRedacted redact_value redact_dict
          redact_list redact_headers redact_header

      pub redact_value-IsRedacted :
          (names : List String) (parent : Option String) (v : Json)
          → IsRedacted names parent
              (redact_value normalize str header_names redacted_value names parent v)
      redact_value-IsRedacted names parent (object fs) = redact_dict-DictIsRedacted names fs
      redact_value-IsRedacted names parent (array is) =
          array_or (is_headers parent) names parent _ _
            (redact_headers-ArrayIsRedacted names parent is)
            (redact_list-ArrayIsRedacted names parent is)
      redact_value-IsRedacted names parent null = tt
      redact_value-IsRedacted names parent (bool b) = tt
      redact_value-IsRedacted names parent (number n) = tt
      redact_value-IsRedacted names parent (string s) = tt

      redact_dict-DictIsRedacted :
          (names : List String) (fs : Fields)
          → DictIsRedacted names (redact_dict normalize str header_names redacted_value names fs)
      redact_dict-DictIsRedacted names no_fields = tt
      redact_dict-DictIsRedacted names (field k v fs) = (
        λ yes. if_true (member (normalize k) names) _ _ yes,
        (
          λ no.
              subst (IsRedacted names (some (normalize k)))
                (sym (if_false (member (normalize k) names) _ _ no))
                (redact_value-IsRedacted names (some (normalize k)) v),
          redact_dict-DictIsRedacted names fs,
        ),
      )

      redact_list-ArrayIsRedacted :
          (names : List String) (parent : Option String) (is : Items)
          → ArrayIsRedacted false names parent
              (redact_list normalize str header_names redacted_value names parent is)
      redact_list-ArrayIsRedacted names parent no_items = tt
      redact_list-ArrayIsRedacted names parent (item v is) =
          (redact_value-IsRedacted names parent v, redact_list-ArrayIsRedacted names parent is)

      redact_headers-ArrayIsRedacted :
          (names : List String) (parent : Option String) (is : Items)
          → ArrayIsRedacted true names parent
              (redact_headers normalize str header_names redacted_value is)
      redact_headers-ArrayIsRedacted names parent no_items = tt
      redact_headers-ArrayIsRedacted names parent (item v is) =
          (redact_header-HeaderIsRedacted v, redact_headers-ArrayIsRedacted names parent is)

      redact_header-HeaderIsRedacted :
          (v : Json) → HeaderIsRedacted (redact_header normalize str header_names redacted_value v)
      redact_header-HeaderIsRedacted (object fs) = header_or fs (redact_dict-DictIsRedacted [] fs)
      redact_header-HeaderIsRedacted (array is) = tt
      redact_header-HeaderIsRedacted null = tt
      redact_header-HeaderIsRedacted (bool b) = tt
      redact_header-HeaderIsRedacted (number n) = tt
      redact_header-HeaderIsRedacted (string s) = tt

module _ (normalize : String → String) (str : Json → String) (p : DlqPayloadPolicy) where
  abbrev pub header_names_of : List String
  header_names_of =
      names_of normalize str p.include_common_sensitive_names common_sensitive_headers
        p.redact_headers

  abbrev pub field_names_of : List String
  field_names_of =
      names_of normalize str p.include_common_sensitive_names common_sensitive_fields
        p.redact_fields

  -- Where `str` of a string is the string, a policy in mode "redacted" makes the marker the value of
  -- every field with a sensitive name that no list under "headers" holds, however deep it stands in
  -- dictionaries and other lists; and in such a list of headers, also in one that stands in a header
  -- whose "key" is a text with a name that is not sensitive, it makes the marker the "value" of every
  -- dictionary whose "key" is a text with a sensitive name. Nothing is said of the other fields of
  -- such a dictionary, nor of a list within a list of headers.
  pub apply-IsRedacted :
      (payload : Fields)
      → ((t : String) → str (string t) ≡ t)
      → p.mode ≡ redacted
      → IsRedacted normalize str header_names_of p.redacted_value field_names_of none
          (apply normalize str p payload)
  unfolding apply
  apply-IsRedacted payload plain mode =
      subst
        (λ (m : Mode).
          IsRedacted normalize str header_names_of p.redacted_value field_names_of none
            (apply_mode normalize str m p payload))
        (sym mode)
        (redact_value-IsRedacted normalize str header_names_of p.redacted_value plain field_names_of
          none (object payload))
