-- ===== src/Printer/Position.antt =====
-- protoprint/print.go: findElement, isSpanWithin and findExtSi, which find where an element stands.
pub mod Agree
pub mod Within
pub mod Examples
use mathlib.Core.List.{reverse}
use protoreflect.Common.{
  ℕ, zero, suc, Bool, true, false, ◌||◌, Option, none, some, [], ◌∷◌, ◌++◌, ltb, leb, ◌==◌,
  if◌then◌else◌,
}
use protoreflect.Tags.{
  file_messages_tag, file_enums_tag, file_services_tag, file_extensions_tag, message_fields_tag,
  message_nested_messages_tag, message_enums_tag, message_extensions_tag, message_oneofs_tag,
  enum_values_tag, service_methods_tag,
}
use protoreflect.Descriptor.{
  Descriptor, absent, file, message, field, oneof, enum, enum_value, service, method,
}
use protoreflect.SourceLoc.{
  SourcePath, int32, SourceLocation, SourceLocations, zero_location, is_zero,
}

-- parent.(protoreflect.MessageDescriptor)
unfoldable pub is_message : Descriptor → Bool
is_message (message _ _ _) = true
is_message _ = false

-- The loop of findElement, which ends at the element with no parent; `none` is a panic.
unfoldable pub find_loop : SourcePath → Descriptor → Option SourcePath
unfolding is_message
find_loop path absent = none
find_loop path (file _) = some (reverse path)
find_loop path (message absent i _) = some (reverse path)
find_loop path (message parent i _) =
    find_loop
      (path
        ++ int32 i
          ∷ (if is_message parent then message_nested_messages_tag else file_messages_tag)
          ∷ [])
      parent
find_loop path (field _ absent i _) = some (reverse path)
find_loop path (field true parent i _) =
    find_loop
      (path
        ++ int32 i
          ∷ (if is_message parent then message_extensions_tag else file_extensions_tag)
          ∷ [])
      parent
find_loop path (field false parent i _) =
    find_loop (path ++ int32 i ∷ message_fields_tag ∷ []) parent
find_loop path (oneof absent i _) = some (reverse path)
find_loop path (oneof parent i _) = find_loop (path ++ int32 i ∷ message_oneofs_tag ∷ []) parent
find_loop path (enum absent i _) = some (reverse path)
find_loop path (enum parent i _) =
    find_loop
      (path ++ int32 i ∷ (if is_message parent then message_enums_tag else file_enums_tag) ∷ [])
      parent
find_loop path (enum_value absent i _) = some (reverse path)
find_loop path (enum_value parent i _) = find_loop (path ++ int32 i ∷ enum_values_tag ∷ []) parent
find_loop path (service absent i _) = some (reverse path)
find_loop path (service parent i _) = find_loop (path ++ int32 i ∷ file_services_tag ∷ []) parent
find_loop path (method absent i _) = some (reverse path)
find_loop path (method parent i _) = find_loop (path ++ int32 i ∷ service_methods_tag ∷ []) parent

-- findElement
unfoldable pub find_element : Descriptor → Option SourcePath
unfolding find_loop
find_element dsc = find_loop [] dsc

-- isSpanWithin
unfoldable pub is_span_within : SourceLocation → SourceLocation → Bool
is_span_within span enclosing =
    if ltb span.start_line enclosing.start_line || ltb enclosing.end_line span.start_line
    then false
    else if span.start_line == enclosing.start_line
    then leb enclosing.start_column span.start_column
    else if span.start_line == enclosing.end_line
    then leb span.start_column enclosing.end_column
    else true

-- The loop of findExtSi, on fuel: `none` means that the fuel ran out.
unfoldable pub find_ext_loop :
    SourceLocations → ℕ → SourceLocation → SourceLocation → Option SourceLocation
find_ext_loop locs zero field_si ext_si = none
find_ext_loop locs (suc fuel) field_si ext_si =
    let rest = find_ext_loop locs fuel field_si (locs.get ext_si.next) in
    if is_span_within field_si ext_si
    then some ext_si
    else if ext_si.next == 0
    then some zero_location
    else rest

-- findExtSi, with fuel for one round at each location and one more
unfoldable pub find_ext_si :
    SourceLocations → SourceLocation → SourceLocation → Option SourceLocation
find_ext_si locs field_si ext_si =
    if is_zero field_si
    then some zero_location
    else find_ext_loop locs (suc locs.len) field_si ext_si
