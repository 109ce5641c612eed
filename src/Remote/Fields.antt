-- ===== src/Remote/Fields.antt =====
-- protoresolve/remotereg/converter.go: fields converted to google.protobuf.Field and back.
pub mod RoundTrip
pub mod Examples
use protoreflect.Common.{
  ℕ, zero, suc, Bool, true, false, ◌||◌, Option, none, some, List, [], ◌∷◌, ◌++◌, Bytes, codes,
  if◌then◌else◌, bytes_eq,
}
use protoreflect.Common.Int.{ℤ, pos, negsuc}
use protoreflect.Builder.Numbers.{to_int32}
use protoreflect.Builder.Message.{Cardinality, unset, optional, required, repeated}
use protoreflect.Remote.Options.{
  Kind, bool_kind, enum_kind, int32_kind, sint32_kind, uint32_kind, int64_kind, sint64_kind,
  uint64_kind, sfixed32_kind, fixed32_kind, float_kind, sfixed64_kind, fixed64_kind, double_kind,
  string_kind, bytes_kind, message_kind, group_kind, TypeOption,
}
use protoreflect.Remote.Urls.{type_name_from_url}

-- typepb.Field_Kind
pub data TypeKind : Type 0 where
  type_unknown type_double type_float type_int64 type_uint64 type_int32 type_fixed64 : TypeKind
  type_fixed32 type_bool type_string type_group type_message type_bytes type_uint32 : TypeKind
  type_enum type_sfixed32 type_sfixed64 type_sint32 type_sint64 : TypeKind

-- typepb.Field_Cardinality
pub data TypeCardinality : Type 0 where
  cardinality_unknown : TypeCardinality
  cardinality_optional : TypeCardinality
  cardinality_required : TypeCardinality
  cardinality_repeated : TypeCardinality

-- What the conversion asks of a field descriptor. `options` is what `options` makes of its options,
-- `default` its default text, and `type_name` the full name and the package of its message or enum.
pub record FieldInfo (A : Type 0) : Type 0 where
  pub name : Bytes
  pub number : ℕ
  pub json_name : Bytes
  pub kind : Kind
  pub cardinality : Cardinality
  pub oneof : Option ℕ
  pub type_name : Bytes
  pub type_package : Bytes
  pub default : Bytes
  pub is_packed : Bool
  pub options : List (TypeOption A)

-- typepb.Field
pub record TypeField (A : Type 0) : Type 0 where
  pub name : Bytes
  pub number : ℤ
  pub json_name : Bytes
  pub oneof_index : ℤ
  pub default_value : Bytes
  pub options : List (TypeOption A)
  pub packed : Bool
  pub type_url : Bytes
  pub cardinality : TypeCardinality
  pub kind : TypeKind

-- The loop that removes the option "packed": the first one goes.
unfoldable pub without_packed : {A : Type 0} → List (TypeOption A) → List (TypeOption A)
without_packed [] = []
without_packed (o ∷ os) =
    let rest = without_packed os in if bytes_eq o.name (codes "packed") then os else o ∷ rest

-- The two switches of descriptorAsField.
unfoldable pub type_cardinality : Cardinality → TypeCardinality
type_cardinality unset = cardinality_unknown
type_cardinality optional = cardinality_optional
type_cardinality repeated = cardinality_repeated
type_cardinality required = cardinality_required

unfoldable pub type_kind : Kind → TypeKind
type_kind enum_kind = type_enum
type_kind group_kind = type_group
type_kind message_kind = type_message
type_kind bytes_kind = type_bytes
type_kind string_kind = type_string
type_kind bool_kind = type_bool
type_kind double_kind = type_double
type_kind float_kind = type_float
type_kind fixed32_kind = type_fixed32
type_kind fixed64_kind = type_fixed64
type_kind int32_kind = type_int32
type_kind int64_kind = type_int64
type_kind sfixed32_kind = type_sfixed32
type_kind sfixed64_kind = type_sfixed64
type_kind sint32_kind = type_sint32
type_kind sint64_kind = type_sint64
type_kind uint32_kind = type_uint32
type_kind uint64_kind = type_uint64

-- The URL that descriptorAsField gives, from `url_of`, which is URLForType.
unfoldable pub kind_url : Kind → Bytes → Bytes
kind_url enum_kind url = url
kind_url group_kind url = url
kind_url message_kind url = url
kind_url k url = []

-- int32(oo.Index()) + 1, or 0
unfoldable pub one_of : Option ℕ → ℤ
unfolding to_int32
one_of none = pos 0
one_of (some i) = to_int32 (suc i)

-- descriptorAsField
unfoldable pub descriptor_as_field :
    {A : Type 0} → (Bytes → Bytes → Bytes) → FieldInfo A → TypeField A
unfolding without_packed one_of type_cardinality type_kind kind_url to_int32
descriptor_as_field url_of fld = record {
  name = fld.name;
  number = to_int32 fld.number;
  json_name = fld.json_name;
  oneof_index = one_of fld.oneof;
  default_value = fld.default;
  options = without_packed fld.options;
  packed = fld.is_packed;
  type_url = kind_url fld.kind (url_of fld.type_name fld.type_package);
  cardinality = type_cardinality fld.cardinality;
  kind = type_kind fld.kind;
}

-- descriptorpb.FieldDescriptorProto, as createFieldDescriptor makes it. Its labels and types are those of
-- protoreflect, and the type 0 is none.
pub record FieldDescriptorProto (O : Type 0) : Type 0 where
  pub name : Bytes
  pub number : ℤ
  pub default_value : Option Bytes
  pub json_name : Bytes
  pub oneof_index : Option ℤ
  pub type_name : Option Bytes
  pub label : Cardinality
  pub field_type : Option Kind
  pub options : Option O

-- The switches of createFieldDescriptor.
unfoldable pub label_of : TypeCardinality → Cardinality
label_of cardinality_unknown = unset
label_of cardinality_optional = optional
label_of cardinality_repeated = repeated
label_of cardinality_required = required

unfoldable pub kind_of_type : TypeKind → Option Kind
kind_of_type type_unknown = none
kind_of_type type_enum = some enum_kind
kind_of_type type_group = some group_kind
kind_of_type type_message = some message_kind
kind_of_type type_bytes = some bytes_kind
kind_of_type type_string = some string_kind
kind_of_type type_bool = some bool_kind
kind_of_type type_double = some double_kind
kind_of_type type_float = some float_kind
kind_of_type type_fixed32 = some fixed32_kind
kind_of_type type_fixed64 = some fixed64_kind
kind_of_type type_int32 = some int32_kind
kind_of_type type_int64 = some int64_kind
kind_of_type type_sfixed32 = some sfixed32_kind
kind_of_type type_sfixed64 = some sfixed64_kind
kind_of_type type_sint32 = some sint32_kind
kind_of_type type_sint64 = some sint64_kind
kind_of_type type_uint32 = some uint32_kind
kind_of_type type_uint64 = some uint64_kind

-- "." + f.TypeUrl[pos+1:], for a group, a message or an enum
unfoldable pub type_name_of : TypeKind → Bytes → Option Bytes
unfolding type_name_from_url
type_name_of type_group url = some (46 ∷ type_name_from_url url)
type_name_of type_message url = some (46 ∷ type_name_from_url url)
type_name_of type_enum url = some (46 ∷ type_name_from_url url)
type_name_of k url = none

-- if f.OneofIndex > 0 { oneOf = proto.Int32(f.OneofIndex - 1) }
unfoldable pub index_of : ℤ → Option ℤ
index_of (pos zero) = none
index_of (pos (suc i)) = some (pos i)
index_of (negsuc i) = none

-- if f.DefaultValue != "" { ... }
unfoldable pub default_val : Bytes → Option Bytes
default_val [] = none
default_val (c ∷ s) = some (c ∷ s)

-- `process` is processOptions on new FieldOptions, `new_options` are new FieldOptions and
-- `set_packed` sets Packed to true.
module _ {A O : Type 0} (process : List (TypeOption A) → O) (new_options : O)
    (set_packed : O → O) where
  unfoldable pub processed : List (TypeOption A) → Option O
  processed [] = none
  processed (o ∷ os) = some (process (o ∷ os))

  -- if f.Packed { ... }
  unfoldable pub packed_options : Bool → Option O → Option O
  packed_options false opts = opts
  packed_options true none = some (set_packed new_options)
  packed_options true (some opts) = some (set_packed opts)

  -- createFieldDescriptor
  unfoldable pub create_field_descriptor : TypeField A → FieldDescriptorProto O
  unfolding packed_options processed label_of kind_of_type type_name_of index_of default_val
  create_field_descriptor f = record {
    name = f.name;
    number = f.number;
    default_value = default_val f.default_value;
    json_name = f.json_name;
    oneof_index = index_of f.oneof_index;
    type_name = type_name_of f.kind f.type_url;
    label = label_of f.cardinality;
    field_type = kind_of_type f.kind;
    options = packed_options f.packed (processed f.options);
  }
