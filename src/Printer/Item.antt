-- ===== src/Printer/Item.antt =====
-- protoprint/print.go: what an elementAddr leads to. Each type that `at` can return is a constructor.
pub mod Kinds
use protoreflect.Common.{ℕ, ◌-◌, Bool, Option, none, some, List, Bytes, if◌then◌else◌, get_elem?}
use protoreflect.Common.Int.{ℤ, pos, negsuc, eqz, ◌-ℤ◌}
use protoreflect.Tags.{
  file_package_tag, file_dependency_tag, file_options_tag, file_messages_tag, file_enums_tag,
  file_services_tag, file_extensions_tag, message_options_tag, message_fields_tag,
  message_nested_messages_tag, message_enums_tag, message_extensions_tag,
  message_extension_range_tag, message_reserved_range_tag, message_reserved_name_tag,
  field_options_tag, oneof_options_tag, enum_options_tag, enum_values_tag, enum_reserved_range_tag,
  enum_reserved_name_tag, enum_value_options_tag, service_options_tag, service_methods_tag,
  method_options_tag, extension_range_options_tag,
}

-- What is asked of a FieldDescriptor; `containing` is the identity of ContainingMessage.
pub record FieldItem : Type 0 where
  pub name : Bytes
  pub number : ℤ
  pub is_extension : Bool
  pub containing : ℕ
  pub containing_name : Bytes

-- What is asked of an EnumValueDescriptor; `in_open_enum` is that its parent is an enum not closed.
pub record EnumValueItem : Type 0 where
  pub name : Bytes
  pub number : ℤ
  pub in_open_enum : Bool

pub data Item : Type 0 where
  pkg : Bytes → Item
  file_import : Bytes → Item
  options : List Bytes → Item
  reserved_range : ℤ → ℤ → Item
  reserved_name : Bytes → Item
  field : FieldItem → Item
  message : Bytes → Item
  enum : Bytes → Item
  enum_value : EnumValueItem → Item
  service : Bytes → Item
  method : Bytes → Item
  extension_range : ℤ → ℤ → Item

pub record FileItem : Type 0 where
  pub package_name : Bytes
  pub imports : List Bytes
  pub messages : List Bytes
  pub enums : List Bytes
  pub services : List Bytes
  pub extensions : List FieldItem

-- Ranges are as protoreflect gives them: an end is exclusive in a message.
pub record MessageItem : Type 0 where
  pub fields : List FieldItem
  pub messages : List Bytes
  pub enums : List Bytes
  pub extensions : List FieldItem
  pub extension_ranges : List (ℤ × ℤ)
  pub reserved_ranges : List (ℤ × ℤ)
  pub reserved_names : List Bytes

pub record EnumItem : Type 0 where
  pub values : List EnumValueItem
  pub reserved_ranges : List (ℤ × ℤ)
  pub reserved_names : List Bytes

-- The field `dsc` of elementAddrs; an enum in it has inclusive range ends.
pub data Dsc : Type 0 where
  file_dsc : FileItem → Dsc
  message_dsc : MessageItem → Dsc
  field_dsc : Dsc
  oneof_dsc : MessageItem → Dsc
  enum_dsc : EnumItem → Dsc
  enum_value_dsc : Dsc
  service_dsc : List Bytes → Dsc
  method_dsc : Dsc
  extension_range_marker : Dsc

pub record ElementAddr : Type 0 where
  pub element_type : ℤ
  pub element_index : ℤ
  pub order : ℤ

-- Get(i) of protoreflect's lists, which panics out of range
unfoldable pub get : {A : Type 0} → (A → Item) → List A → ℤ → Option Item
get item xs (pos i) = elim (get_elem? xs i) [ none ↦ none | some x ↦ some (item x) ]
get item xs (negsuc i) = none

-- ReservedRanges of an enum, whose ends are inclusive; every number is an int32 already
abbrev inclusive_range : ℤ × ℤ → Item
inclusive_range (start, end) = reserved_range start end

-- ReservedRanges of a message, whose ends are exclusive: the int32 is end - 1.
abbrev exclusive_range : ℤ × ℤ → Item
exclusive_range (start, end) = reserved_range start (end -ℤ pos 1)

abbrev pub extension_range_of : ℤ × ℤ → Item
extension_range_of (start, end) = extension_range start end

-- A test of a switch on the element type
abbrev is_tag : ElementAddr → ℕ → Bool
is_tag addr t = eqz addr.element_type (pos t)

-- elementAddrs.at; `opts` is a.opts, with the names of the options, and `none` a panic
module _ (opts : ℤ → List Bytes) where
  abbrev opts_at : ElementAddr → Option Item
  opts_at addr = some (options (opts addr.element_index))

  unfoldable pub at_file : FileItem → ElementAddr → Option Item
  at_file f addr =
      if is_tag addr file_package_tag
      then some (pkg f.package_name)
      else if is_tag addr file_dependency_tag
      then get file_import f.imports addr.element_index
      else if is_tag addr file_options_tag
      then opts_at addr
      else if is_tag addr file_messages_tag
      then get message f.messages addr.element_index
      else if is_tag addr file_enums_tag
      then get enum f.enums addr.element_index
      else if is_tag addr file_services_tag
      then get service f.services addr.element_index
      else if is_tag addr file_extensions_tag
      then get field f.extensions addr.element_index
      else none

  unfoldable pub at_message : MessageItem → ElementAddr → Option Item
  at_message m addr =
      if is_tag addr message_options_tag
      then opts_at addr
      else if is_tag addr message_fields_tag
      then get field m.fields addr.element_index
      else if is_tag addr message_nested_messages_tag
      then get message m.messages addr.element_index
      else if is_tag addr message_enums_tag
      then get enum m.enums addr.element_index
      else if is_tag addr message_extensions_tag
      then get field m.extensions addr.element_index
      else if is_tag addr message_extension_range_tag
      then get extension_range_of m.extension_ranges addr.element_index
      else if is_tag addr message_reserved_range_tag
      then get exclusive_range m.reserved_ranges addr.element_index
      else if is_tag addr message_reserved_name_tag
      then get reserved_name m.reserved_names addr.element_index
      else none

  unfoldable pub at_enum : EnumItem → ElementAddr → Option Item
  at_enum e addr =
      if is_tag addr enum_options_tag
      then opts_at addr
      else if is_tag addr enum_values_tag
      then get enum_value e.values addr.element_index
      else if is_tag addr enum_reserved_range_tag
      then get inclusive_range e.reserved_ranges addr.element_index
      else if is_tag addr enum_reserved_name_tag
      then get reserved_name e.reserved_names addr.element_index
      else none

  unfoldable pub at : Dsc → ElementAddr → Option Item
  unfolding at_file at_message at_enum
  at (file_dsc f) addr = at_file f addr
  at (message_dsc m) addr = at_message m addr
  at field_dsc addr = if is_tag addr field_options_tag then opts_at addr else none
  at (oneof_dsc m) addr =
      if is_tag addr oneof_options_tag
      then opts_at addr
      else if eqz addr.element_type (pos 0 -ℤ pos message_fields_tag)
      then get field m.fields addr.element_index
      else none
  at (enum_dsc e) addr = at_enum e addr
  at enum_value_dsc addr = if is_tag addr enum_value_options_tag then opts_at addr else none
  at (service_dsc methods) addr =
      if is_tag addr service_options_tag
      then opts_at addr
      else if is_tag addr service_methods_tag
      then get method methods addr.element_index
      else none
  at method_dsc addr = if is_tag addr method_options_tag then opts_at addr else none
  at extension_range_marker addr =
      if is_tag addr extension_range_options_tag then opts_at addr else none
