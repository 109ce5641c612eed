-- ===== src/Remote/Fields/Examples.antt =====
-- A field of protoresolve/remotereg/converter.go, converted and converted back.
use protoreflect.Common.{◌≡◌, refl, ℕ, suc, true, none, some, List, [], ◌∷◌, codes, length, arith}
use protoreflect.Common.Int.{pos}
use protoreflect.Builder.Message.{repeated}
use protoreflect.Remote.Options.{enum_kind, TypeOption}
use protoreflect.Remote.Urls.{url_for_type, contains_slash}
use protoreflect.Remote.Urls.Examples.{with_base}
use protoreflect.Remote.Fields.{
  FieldInfo, descriptor_as_field, create_field_descriptor, without_packed, default_val, processed,
  packed_options,
}
use protoreflect.Remote.Fields.RoundTrip.{
  create_field_descriptor-descriptor_as_field, expected_type, oneof_position,
}

-- A packed field of an enum type.
abbrev field : FieldInfo ℕ
field = record {
  name = codes "f";
  number = 3;
  json_name = codes "F";
  kind = enum_kind;
  cardinality = repeated;
  oneof = none;
  type_name = codes "a.E";
  type_package = codes "a";
  default = [];
  is_packed = true;
  options = record { name = codes "packed"; value = 1 } ∷ [];
}

-- Options, counted.
abbrev count : List (TypeOption ℕ) → ℕ
count os = length os

abbrev one_more : ℕ → ℕ
one_more n = suc n

create_field_descriptor-descriptor_as_field_example :
    create_field_descriptor count 0 one_more (descriptor_as_field (url_for_type with_base) field)
    ≡ record {
      name = codes "f";
      number = pos 3;
      default_value = default_val [];
      json_name = codes "F";
      oneof_index = oneof_position none;
      type_name = expected_type enum_kind (codes "a.E");
      label = repeated;
      field_type = some enum_kind;
      options =
          packed_options count 0 one_more true
            (processed count 0 one_more (without_packed field.options));
    }
create_field_descriptor-descriptor_as_field_example =
    create_field_descriptor-descriptor_as_field count 0 one_more with_base field (omega arith)
      (λ i e. absurd (ground (arith, e))) (unfold contains_slash in refl)
      (λ url e. absurd (ground (arith, e)))
