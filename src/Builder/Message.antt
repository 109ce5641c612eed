-- ===== src/Builder/Message.antt =====
-- protobuilder/message.go and field.go: messages, with their fields, oneofs and nested elements.
-- The builders are shared by pointer, so they live in a heap: a pointer is a number.
pub mod Remove
pub mod Register
pub mod Registered
pub mod Add
pub mod Number
pub mod NumberAllowed
pub mod Moved
pub mod Renumber
pub mod Tags
pub mod NumberTags
pub mod Unlinked
pub mod UnlinkField
pub mod AddTags
pub mod AddField
pub mod AddChoice
pub mod TryChoice
pub mod AddOneOf
pub mod TryAddOneOf
pub mod FieldRun
pub mod Optional
pub mod Synthetic
pub mod Assign
pub mod Choice
pub mod Rename
pub mod Refused
pub mod Make
pub mod Examples
pub mod RunExamples
pub mod BuildExamples
use protoreflect.Common.{
  ℕ, Bool, true, false, ◌||◌, Option, none, some, List, [], ◌∷◌, ◌++◌, Bytes, ◌==◌, if◌then◌else◌,
  bytes_eq, is_some,
}
use protoreflect.Common.Int.{ℤ, pos, eqz}
use protoreflect.Builder.Enum.{Comments, no_comments, write}

-- Builder: a builder of one of the kinds that a message holds.
pub data Builder : Type 0 where
  field : ℕ → Builder
  oneof : ℕ → Builder
  message : ℕ → Builder
  enum : ℕ → Builder

-- FieldType: the number of the descriptor type, and the message builder, if it refers to one.
pub record FieldType : Type 0 where
  pub field_type : ℕ
  pub local_msg_type : Option ℕ

-- FieldDescriptorProto_TYPE_GROUP
abbrev pub type_group : ℕ
type_group = 10

-- protoreflect.Cardinality; `unset` is its zero value
pub data Cardinality : Type 0 where
  unset : Cardinality
  optional : Cardinality
  required : Cardinality
  repeated : Cardinality

-- FieldBuilder. Its parent is a message or a oneof. The foreign extendee is its full name.
pub record FieldBuilder : Type 0 where
  pub name : Bytes
  pub parent : Option Builder
  pub comments : Comments
  pub number : ℤ
  pub msg_type : Option ℕ
  pub field_type : FieldType
  pub options : Option Bytes
  pub cardinality : Cardinality
  pub proto3_optional : Bool
  pub default : Bytes
  pub json_name : Bytes
  pub foreign_extendee : Option Bytes
  pub local_extendee : Option ℕ

-- OneofBuilder. Its parent is a message.
pub record OneofBuilder : Type 0 where
  pub name : Bytes
  pub parent : Option Builder
  pub comments : Comments
  pub options : Option Bytes
  pub choices : List ℕ
  pub symbols : Bytes → Option ℕ

-- FieldRange, and ExtensionRange: the start is inclusive and the end is exclusive.
abbrev pub FieldRange : Type 0
FieldRange = ℤ × ℤ

pub record ExtensionRange : Type 0 where
  pub field_range : FieldRange
  pub options : Option Bytes

-- The message options that the builder looks into.
pub record MessageOptions : Type 0 where
  pub map_entry : Bool
  pub message_set_wire_format : Bool

-- MessageBuilder. Its parent is a message, or a field whose group or map entry it is; a message that
-- a file holds has no parent here.
pub record MessageBuilder : Type 0 where
  pub name : Bytes
  pub parent : Option Builder
  pub comments : Comments
  pub options : Option MessageOptions
  pub extension_ranges : List ExtensionRange
  pub reserved_ranges : List FieldRange
  pub reserved_names : List Bytes
  pub fields_and_oneofs : List Builder
  pub field_tags : ℤ → Option ℕ
  pub nested_messages : List ℕ
  pub nested_extensions : List ℕ
  pub nested_enums : List ℕ
  pub symbols : Bytes → Option Builder

-- The base of an enum builder.
pub record BaseBuilder : Type 0 where
  pub name : Bytes
  pub parent : Option Builder

pub record Builders : Type 0 where
  pub messages : ℕ → MessageBuilder
  pub fields : ℕ → FieldBuilder
  pub oneofs : ℕ → OneofBuilder
  pub enums : ℕ → BaseBuilder

-- Why an operation was refused.
pub data BuilderError : Type 0 where
  symbol_taken : BuilderError
  not_an_identifier : BuilderError
  lower_case_group : BuilderError
  name_of_map_entry : BuilderError
  name_of_group : BuilderError
  panics : BuilderError
  tag_taken : BuilderError
  is_an_extension : BuilderError
  not_an_extension : BuilderError
  map_in_oneof : BuilderError
  not_optional : BuilderError
  negative_tag : BuilderError
  zero_extension : BuilderError
  special_reserved : BuilderError
  above_max : BuilderError

-- A write to a map under a key.
unfoldable pub put_symbol : {A : Type 0} → (Bytes → Option A) → Bytes → Option A → Bytes → Option A
put_symbol m k o j = if bytes_eq j k then o else m j

unfoldable pub put_tag : (ℤ → Option ℕ) → ℤ → Option ℕ → ℤ → Option ℕ
put_tag m k o j = if eqz j k then o else m j

-- *mb = mb', *flb = flb', *oob = oob'
abbrev pub set_message : Builders → ℕ → MessageBuilder → Builders
set_message h m mb = record h { messages = write h.messages m mb }

abbrev pub set_field : Builders → ℕ → FieldBuilder → Builders
set_field h f flb = record h { fields = write h.fields f flb }

abbrev pub set_oneof : Builders → ℕ → OneofBuilder → Builders
set_oneof h o oob = record h { oneofs = write h.oneofs o oob }

-- Pointers to builders, compared.
unfoldable pub same_builder : Builder → Builder → Bool
same_builder (field a) (field b) = a == b
same_builder (oneof a) (oneof b) = a == b
same_builder (message a) (message b) = a == b
same_builder (enum a) (enum b) = a == b
same_builder a b = false

-- Name, Parent and setParent
unfoldable pub name_of : Builders → Builder → Bytes
name_of h (field f) = (h.fields f).name
name_of h (oneof o) = (h.oneofs o).name
name_of h (message m) = (h.messages m).name
name_of h (enum e) = (h.enums e).name

unfoldable pub parent_of : Builders → Builder → Option Builder
parent_of h (field f) = (h.fields f).parent
parent_of h (oneof o) = (h.oneofs o).parent
parent_of h (message m) = (h.messages m).parent
parent_of h (enum e) = (h.enums e).parent

unfoldable pub set_parent : Builders → Builder → Option Builder → Builders
unfolding write
set_parent h (field f) p = set_field h f (record (h.fields f) { parent = p })
set_parent h (oneof o) p = set_oneof h o (record (h.oneofs o) { parent = p })
set_parent h (message m) p = set_message h m (record (h.messages m) { parent = p })
set_parent h (enum e) p = record h { enums = write h.enums e (record (h.enums e) { parent = p }) }

-- Whether the builder's parent is the given one.
unfoldable pub is_child_of : Builders → Builder → Builder → Bool
unfolding same_builder parent_of
is_child_of h p b = elim (parent_of h b) [ none ↦ false | some q ↦ same_builder q p ]

-- FieldBuilder.IsExtension
unfoldable pub is_extension : FieldBuilder → Bool
is_extension flb = is_some flb.local_extendee || is_some flb.foreign_extendee

-- OneofBuilder.parent: the message that the oneof is in, if any
unfoldable pub message_of_oneof : OneofBuilder → Option ℕ
message_of_oneof oob = elim oob.parent [
  | none ↦ none
  | some p ↦ elim p [ message m ↦ some m | field _ ↦ none | oneof _ ↦ none | enum _ ↦ none ]
]
