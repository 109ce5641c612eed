-- ===== src/SourceLoc.antt =====
-- sourceloc/sourceloc.go: source paths of descriptors and the locations of enclosing statements.
-- Path elements are Go int32, kept as their 32-bit patterns.
pub mod Path
pub mod Span
pub mod Enclosing
pub mod Examples
use mathlib.Core.List.{reverse}
use protoreflect.Common.{
  ℕ, zero, suc, ◌+◌, ◌-◌, ◌%◌, ◌^◌, Bool, true, false, not, ◌&&◌, ◌||◌, Option, none, some, List,
  [], ◌∷◌, ◌++◌, Bytes, ltb, leb, ◌==◌, if◌then◌else◌, length, take, bytes_eq, is_some,
}
use protoreflect.Tags.{
  file_messages_tag, file_enums_tag, file_services_tag, file_extensions_tag, message_fields_tag,
  message_nested_messages_tag, message_enums_tag, message_extensions_tag, message_oneofs_tag,
  message_extension_range_tag, message_reserved_range_tag, message_reserved_name_tag,
  enum_values_tag, service_methods_tag,
}
use protoreflect.Descriptor.{
  Descriptor, absent, file, message, field, oneof, enum, enum_value, service, method,
}

abbrev pub SourcePath : Type 0
SourcePath = List ℕ

-- int32(n)
abbrev pub int32 : ℕ → ℕ
int32 n = n % 2 ^ 32

-- protoreflect.SourceLocation: a nil slice is `none`
pub record SourceLocation : Type 0 where
  pub path : Option SourcePath
  pub start_line : ℕ
  pub start_column : ℕ
  pub end_line : ℕ
  pub end_column : ℕ
  pub leading_detached_comments : Option (List Bytes)
  pub leading_comments : Bytes
  pub trailing_comments : Bytes
  pub next : ℕ

abbrev pub zero_location : SourceLocation
zero_location = record {
  path = none;
  start_line = 0;
  start_column = 0;
  end_line = 0;
  end_column = 0;
  leading_detached_comments = none;
  leading_comments = [];
  trailing_comments = [];
  next = 0;
}

-- IsZero
unfoldable pub is_zero : SourceLocation → Bool
unfolding bytes_eq
is_zero loc =
    not (is_some loc.path)
    && loc.start_line == 0
    && loc.start_column == 0
    && loc.end_line == 0
    && loc.end_column == 0
    && bytes_eq loc.leading_comments []
    && not (is_some loc.leading_detached_comments)
    && bytes_eq loc.trailing_comments []

-- IsSubpathOf
unfoldable pub is_subpath_of : SourcePath → SourcePath → Bool
is_subpath_of candidate path =
    leb (length path) (length candidate) && bytes_eq (take (length path) candidate) path

-- IsSubspanOf
unfoldable pub is_subspan_of : SourceLocation → SourceLocation → Bool
is_subspan_of candidate loc =
    (ltb loc.start_line candidate.start_line
      || candidate.start_line == loc.start_line && leb loc.start_column candidate.start_column)
    && (ltb candidate.end_line loc.end_line
        || candidate.end_line == loc.end_line && leb candidate.end_column loc.end_column)

-- The tag that PathFor appends for each kind of element, by the type of its parent; `none` is its
-- `return nil`.
unfoldable pub message_tag : Descriptor → Option ℕ
message_tag (file _) = some file_messages_tag
message_tag (message _ _ _) = some message_nested_messages_tag
message_tag _ = none

unfoldable pub field_tag : Bool → Descriptor → Option ℕ
field_tag true (file _) = some file_extensions_tag
field_tag true (message _ _ _) = some message_extensions_tag
field_tag false (message _ _ _) = some message_fields_tag
field_tag _ _ = none

unfoldable pub oneof_tag : Descriptor → Option ℕ
oneof_tag (message _ _ _) = some message_oneofs_tag
oneof_tag _ = none

unfoldable pub enum_tag : Descriptor → Option ℕ
enum_tag (file _) = some file_enums_tag
enum_tag (message _ _ _) = some message_enums_tag
enum_tag _ = none

unfoldable pub enum_value_tag : Descriptor → Option ℕ
enum_value_tag (enum _ _ _) = some enum_values_tag
enum_value_tag _ = none

unfoldable pub service_tag : Descriptor → Option ℕ
service_tag (file _) = some file_services_tag
service_tag _ = none

unfoldable pub method_tag : Descriptor → Option ℕ
method_tag (service _ _ _) = some service_methods_tag
method_tag _ = none

-- The loop of PathFor: the path grows from the leaf up and is reversed at the file.
unfoldable pub path_loop : SourcePath → Descriptor → Option SourcePath
path_loop path (file _) = some (reverse path)
path_loop path (message parent i _) = elim (message_tag parent) [
  | none ↦ none
  | some t ↦ path_loop (path ++ int32 i ∷ t ∷ []) parent
]
path_loop path (field is_extension parent i _) = elim (field_tag is_extension parent) [
  | none ↦ none
  | some t ↦ path_loop (path ++ int32 i ∷ t ∷ []) parent
]
path_loop path (oneof parent i _) = elim (oneof_tag parent) [
  | none ↦ none
  | some t ↦ path_loop (path ++ int32 i ∷ t ∷ []) parent
]
path_loop path (enum parent i _) = elim (enum_tag parent) [
  | none ↦ none
  | some t ↦ path_loop (path ++ int32 i ∷ t ∷ []) parent
]
path_loop path (enum_value parent i _) = elim (enum_value_tag parent) [
  | none ↦ none
  | some t ↦ path_loop (path ++ int32 i ∷ t ∷ []) parent
]
path_loop path (service parent i _) = elim (service_tag parent) [
  | none ↦ none
  | some t ↦ path_loop (path ++ int32 i ∷ t ∷ []) parent
]
path_loop path (method parent i _) = elim (method_tag parent) [
  | none ↦ none
  | some t ↦ path_loop (path ++ int32 i ∷ t ∷ []) parent
]
path_loop path absent = none

-- PathFor
unfoldable pub path_for : Descriptor → Option SourcePath
unfolding path_loop message_tag field_tag oneof_tag enum_tag enum_value_tag service_tag method_tag
path_for desc = path_loop [] desc

-- protoreflect.SourceLocations, as the code uses it
pub record SourceLocations : Type 0 where
  pub len : ℕ
  pub get : ℕ → SourceLocation
  pub by_path : SourcePath → SourceLocation

-- path[:len(path)-1]; no caller passes an empty path
unfoldable pub drop_last : SourcePath → SourcePath
drop_last path = take (length path - 1) path

module _ (locs : SourceLocations) where
  -- The loop of enclosingParent, on fuel: `none` means that the fuel ran out.
  unfoldable pub enclosing_loop : ℕ → SourceLocation → SourceLocation → Option SourceLocation
  enclosing_loop zero loc parent_loc = none
  enclosing_loop (suc fuel) loc parent_loc =
      let rest = enclosing_loop fuel loc (locs.get parent_loc.next) in
      if is_subspan_of loc parent_loc
      then some parent_loc
      else if parent_loc.next == 0
      then some zero_location
      else rest

  -- enclosingParent, with fuel for one round at each location and one more
  unfoldable pub enclosing_parent : SourcePath → Option SourceLocation
  enclosing_parent path =
      let loc = locs.by_path path in
      let parent_loc = locs.by_path (drop_last path) in
      if is_zero loc
      then some loc
      else if is_zero parent_loc
      then some loc
      else enclosing_loop (suc locs.len) loc parent_loc

  -- append(PathFor(d), tag, int32(index)); a nil slice takes appends as an empty one does
  unfoldable pub child_path : Descriptor → ℕ → ℕ → SourcePath
  child_path d tag index =
      let base : SourcePath = elim (path_for d) [ none ↦ [] | some p ↦ p ] in
      base ++ tag ∷ int32 index ∷ []

  -- ForExtendBlock
  unfoldable pub for_extend_block : Descriptor → Option SourceLocation
  unfolding child_path
  for_extend_block (field true (file _) i _) = enclosing_parent (file_extensions_tag ∷ int32 i ∷ [])
  for_extend_block (field true (message d j n) i _) =
      enclosing_parent (child_path (message d j n) message_extensions_tag i)
  for_extend_block _ = some zero_location

  -- ForReservedNamesStatement; `count` is msg.ReservedNames().Len()
  unfoldable pub for_reserved_names_statement : Descriptor → ℕ → ℕ → Option SourceLocation
  unfolding child_path
  for_reserved_names_statement msg count index =
      if leb count index
      then some zero_location
      else enclosing_parent (child_path msg message_reserved_name_tag index)

  -- ForReservedRangesStatement
  unfoldable pub for_reserved_ranges_statement : Descriptor → ℕ → ℕ → Option SourceLocation
  unfolding child_path
  for_reserved_ranges_statement msg count index =
      if leb count index
      then some zero_location
      else enclosing_parent (child_path msg message_reserved_range_tag index)

  -- ForExtensionsStatement
  unfoldable pub for_extensions_statement : Descriptor → ℕ → ℕ → Option SourceLocation
  unfolding child_path
  for_extensions_statement msg count index =
      if leb count index
      then some zero_location
      else enclosing_parent (child_path msg message_extension_range_tag index)
