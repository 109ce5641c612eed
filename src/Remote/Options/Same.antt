-- ===== src/Remote/Options/Same.antt =====
-- The two texts of a default value, in protoresolve/remotereg/converter.go and
-- internal/fielddefault/field_default.go.
use protoreflect.Common.{
  ℕ, ◌≡◌, ◌≢◌, refl, ap, ◌∙◌, true, false, Option, none, some, [], ◌∷◌, ◌++◌, Bytes, is_some,
  Bool-cases, inl, inr, arith,
}
use protoreflect.Escape.{other_byte, encode_byte, encode_default_bytes}
use protoreflect.Remote.Options.{
  Kind, ValueOf, bool_kind, enum_kind, int32_kind, sint32_kind, uint32_kind, int64_kind,
  sint64_kind, uint64_kind, sfixed32_kind, fixed32_kind, float_kind, sfixed64_kind, fixed64_kind,
  double_kind, string_kind, bytes_kind, message_kind, group_kind,
}
use protoreflect.Remote.Options.Default.{
  Float, negative_infinity, positive_infinity, not_a_number, finite, is_negative_infinity,
  is_positive_infinity, is_not_a_number, format_bool, default_byte, default_bytes, DefaultField,
  float_text, default_value_string, field_default, float_default, default_text, default_value,
}

default_byte-encode_byte : (c : ℕ) → default_byte c ≡ encode_byte c
unfolding default_byte encode_byte other_byte
default_byte-encode_byte c = ground arith

pub default_bytes-encode_default_bytes : (b : Bytes) → default_bytes b ≡ encode_default_bytes b
unfolding default_bytes encode_default_bytes
default_bytes-encode_default_bytes [] = refl
default_bytes-encode_default_bytes (c ∷ b) =
    ap (λ p. p ++ default_bytes b) (default_byte-encode_byte c)
    ∙ ap (λ t. encode_byte c ++ t) (default_bytes-encode_default_bytes b)

-- What the runtime says of a field with a default value: it has presence, it is optional, and it is no
-- message.
pub record IsScalar {M : Type 0} (fld : DefaultField M) : Type 0 where
  pub presence : fld.has_presence ≡ true
  pub optional : fld.is_optional ≡ true
  pub no_message : fld.has_message ≡ false
  pub no_message_kind : (fld.kind ≢ message_kind) × (fld.kind ≢ group_kind)

module _ {M : Type 0} (format_float : ℕ → ℕ → Bytes) (format_value : M → Bytes) where
  same_float :
      (size : ℕ) (f : Float)
      → float_text format_float format_value size f ≡ float_default format_float format_value size f
  unfolding float_text float_default is_negative_infinity is_positive_infinity is_not_a_number
  same_float size negative_infinity = refl
  same_float size positive_infinity = refl
  same_float size not_a_number = refl
  same_float size (finite bits) = refl

  same_text :
      (k : Kind) (v : ValueOf Float M k) (name : Bytes)
      → k ≢ message_kind
      → k ≢ group_kind
      → default_value_string format_float format_value k v name
        ≡ default_text format_float format_value k v name
  unfolding default_value_string default_text format_bool ValueOf
  same_text bool_kind true name nm ng = refl
  same_text bool_kind false name nm ng = refl
  same_text enum_kind v name nm ng = refl
  same_text int32_kind v name nm ng = refl
  same_text sint32_kind v name nm ng = refl
  same_text uint32_kind v name nm ng = refl
  same_text int64_kind v name nm ng = refl
  same_text sint64_kind v name nm ng = refl
  same_text uint64_kind v name nm ng = refl
  same_text sfixed32_kind v name nm ng = refl
  same_text fixed32_kind v name nm ng = refl
  same_text float_kind v name nm ng = same_float 32 v
  same_text sfixed64_kind v name nm ng = refl
  same_text fixed64_kind v name nm ng = refl
  same_text double_kind v name nm ng = same_float 64 v
  same_text string_kind v name nm ng = refl
  same_text bytes_kind v name nm ng = default_bytes-encode_default_bytes v
  same_text message_kind v name nm ng = absurd (nm refl)
  same_text group_kind v name nm ng = absurd (ng refl)

  same_valid :
      (k : Kind) (o : Option (ValueOf Float M k)) (name : Bytes)
      → k ≢ message_kind
      → k ≢ group_kind
      → is_some o ≡ true
      → (elim o as (λ _. Option Bytes) [
        | none ↦ none
        | some v ↦ some (default_value_string format_float format_value k v name)
      ])
        ≡ some (elim o as (λ _. Bytes) [
          | none ↦ []
          | some v ↦ default_text format_float format_value k v name
        ])
  same_valid k none name nm ng valid = absurd (ground (arith, valid))
  same_valid k (some v) name nm ng valid = ap some (same_text k v name nm ng)

-- The conversion to google.protobuf.Field gives a field the default text that DefaultValue gives,
-- which a FieldDescriptorProto has, and it does not panic: the empty text for a field with no
-- default, and for one with a valid default the text of the value, if the field is then optional, has
-- presence and is no message.
pub field_default-default_value :
    {M : Type 0} (format_float : ℕ → ℕ → Bytes) (format_value : M → Bytes) (fld : DefaultField M)
    → (fld.has_default ≡ true → IsScalar fld)
    → (fld.has_default ≡ true → is_some fld.default ≡ true)
    → field_default format_float format_value fld
      ≡ some (default_value format_float format_value fld)
unfolding field_default default_value
field_default-default_value format_float format_value fld scalar valid =
    elim (Bool-cases fld.has_default) [
      | inr e ↦ rw e refl
      | inl e ↦
          let s = scalar e in
          rw (e, s.presence, s.optional, s.no_message)
            (same_valid format_float format_value fld.kind fld.default fld.enum_name
              s.no_message_kind.0 s.no_message_kind.1 (valid e))
    ]
