-- ===== src/Remote/Fields/RoundTrip.antt =====
-- Fields converted to google.protobuf.Field and back, in protoresolve/remotereg/converter.go.
use protoreflect.Common.{
  ℕ, suc, ◌≡◌, refl, ap, ◌<◌, ◌^◌, false, Option, none, some, List, ◌∷◌, Bytes, arith,
}
use protoreflect.Common.Int.{ℤ, pos}
use protoreflect.Builder.Numbers.{to_int32}
use protoreflect.Builder.Message.{Cardinality, unset, optional, required, repeated}
use protoreflect.Remote.Options.{
  Kind, bool_kind, enum_kind, int32_kind, sint32_kind, uint32_kind, int64_kind, sint64_kind,
  uint64_kind, sfixed32_kind, fixed32_kind, float_kind, sfixed64_kind, fixed64_kind, double_kind,
  string_kind, bytes_kind, message_kind, group_kind, TypeOption,
}
use protoreflect.Remote.Urls.{Registry, url_for_type, contains_slash, type_name_from_url}
use protoreflect.Remote.Urls.Names.{type_name_from_url-url_for_type}
use protoreflect.Remote.Fields.{
  FieldInfo, type_cardinality, type_kind, kind_url, one_of, without_packed, descriptor_as_field,
  label_of, kind_of_type, type_name_of, index_of, default_val, processed, packed_options,
  create_field_descriptor,
}

label_of-type_cardinality : (c : Cardinality) → label_of (type_cardinality c) ≡ c
unfolding label_of type_cardinality
label_of-type_cardinality unset = refl
label_of-type_cardinality optional = refl
label_of-type_cardinality required = refl
label_of-type_cardinality repeated = refl

kind_of_type-type_kind : (k : Kind) → kind_of_type (type_kind k) ≡ some k
unfolding kind_of_type type_kind
kind_of_type-type_kind bool_kind = refl
kind_of_type-type_kind enum_kind = refl
kind_of_type-type_kind int32_kind = refl
kind_of_type-type_kind sint32_kind = refl
kind_of_type-type_kind uint32_kind = refl
kind_of_type-type_kind int64_kind = refl
kind_of_type-type_kind sint64_kind = refl
kind_of_type-type_kind uint64_kind = refl
kind_of_type-type_kind sfixed32_kind = refl
kind_of_type-type_kind fixed32_kind = refl
kind_of_type-type_kind float_kind = refl
kind_of_type-type_kind sfixed64_kind = refl
kind_of_type-type_kind fixed64_kind = refl
kind_of_type-type_kind double_kind = refl
kind_of_type-type_kind string_kind = refl
kind_of_type-type_kind bytes_kind = refl
kind_of_type-type_kind message_kind = refl
kind_of_type-type_kind group_kind = refl

-- The type name of a field of the kind.
abbrev pub expected_type : Kind → Bytes → Option Bytes
expected_type enum_kind name = some (46 ∷ name)
expected_type group_kind name = some (46 ∷ name)
expected_type message_kind name = some (46 ∷ name)
expected_type k name = none

type_name_of-kind :
    (k : Kind) (url name : Bytes)
    → type_name_from_url url ≡ name
    → type_name_of (type_kind k) (kind_url k url) ≡ expected_type k name
unfolding type_name_of type_kind kind_url
type_name_of-kind enum_kind url name e = ap (λ s. some (46 ∷ s)) e
type_name_of-kind group_kind url name e = ap (λ s. some (46 ∷ s)) e
type_name_of-kind message_kind url name e = ap (λ s. some (46 ∷ s)) e
type_name_of-kind bool_kind url name e = refl
type_name_of-kind int32_kind url name e = refl
type_name_of-kind sint32_kind url name e = refl
type_name_of-kind uint32_kind url name e = refl
type_name_of-kind int64_kind url name e = refl
type_name_of-kind sint64_kind url name e = refl
type_name_of-kind uint64_kind url name e = refl
type_name_of-kind sfixed32_kind url name e = refl
type_name_of-kind fixed32_kind url name e = refl
type_name_of-kind float_kind url name e = refl
type_name_of-kind sfixed64_kind url name e = refl
type_name_of-kind fixed64_kind url name e = refl
type_name_of-kind double_kind url name e = refl
type_name_of-kind string_kind url name e = refl
type_name_of-kind bytes_kind url name e = refl

to_int32-small : (n : ℕ) → n < 2 ^ 31 → to_int32 n ≡ pos n
unfolding to_int32
to_int32-small n l = ground (arith, l)

-- The index of a oneof, as an int32
abbrev pub oneof_position : Option ℕ → Option ℤ
oneof_position none = none
oneof_position (some i) = some (pos i)

index_of-one_of :
    (o : Option ℕ)
    → ((i : ℕ) → o ≡ some i → suc i < 2 ^ 31)
    → index_of (one_of o) ≡ oneof_position o
unfolding index_of one_of
index_of-one_of none l = refl
index_of-one_of (some i) l = ap index_of (to_int32-small (suc i) (l i refl))

-- A field that is converted to google.protobuf.Field and back keeps its name, number, JSON name,
-- cardinality, kind, the index of its oneof, the full name of its message or enum and its default
-- text, if it is not empty, for any registry; its options are those but the first "packed", processed,
-- and packed if it was. The conditions are that the number and the index's successor are less than
-- 2^31, that the name of the type has no slash,
-- and that the URL under which its type is registered, if it is, ends in the name of the type.
pub create_field_descriptor-descriptor_as_field :
    {A O : Type 0} (process : List (TypeOption A) → O) (new_options : O) (set_packed : O → O)
    (r : Registry) (fld : FieldInfo A)
    → fld.number < 2 ^ 31
    → ((i : ℕ) → fld.oneof ≡ some i → suc i < 2 ^ 31)
    → contains_slash fld.type_name ≡ false
    → ((url : Bytes)
        → r.type_urls fld.type_name ≡ some url
        → type_name_from_url url ≡ fld.type_name)
    → create_field_descriptor process new_options set_packed
        (descriptor_as_field (url_for_type r) fld)
      ≡ record {
        name = fld.name;
        number = pos fld.number;
        default_value = default_val fld.default;
        json_name = fld.json_name;
        oneof_index = oneof_position fld.oneof;
        type_name = expected_type fld.kind fld.type_name;
        label = fld.cardinality;
        field_type = some fld.kind;
        options =
            packed_options process new_options set_packed fld.is_packed
              (processed process new_options set_packed (without_packed fld.options));
      }
unfolding create_field_descriptor descriptor_as_field
create_field_descriptor-descriptor_as_field process new_options set_packed r fld n i plain known =
    rw
      (
        to_int32-small fld.number n,
        index_of-one_of fld.oneof i,
        label_of-type_cardinality fld.cardinality,
        kind_of_type-type_kind fld.kind,
        type_name_of-kind fld.kind (url_for_type r fld.type_name fld.type_package) fld.type_name
            (type_name_from_url-url_for_type r fld.type_name fld.type_package plain known),
      )
      refl
