-- ===== src/Builder/Message/BuildExamples.antt =====
-- Runs of the parts of buildProto of protobuilder/message.go, and of renames and choices of
-- protobuilder/field.go, and the theorems at these inputs.
use protoreflect.Common.{
  ◌≡◌, refl, ap, Bool, true, false, none, some, List, [], ◌∷◌, ◌++◌, Bytes, codes, bytes_eq,
  is_some, length, All, has_prefix, arith,
}
use protoreflect.Common.Int.{ℤ, pos}
use protoreflect.Builder.Enum.{write}
use protoreflect.Builder.Numbers.{to_int32, sort_ints, insert_int, assign, skip_taken}
use protoreflect.Builder.Numbers.Sorted.{member, Unlike}
use protoreflect.Builder.Message.{
  field, oneof, message, repeated, Builders, symbol_taken, put_symbol, put_tag, set_parent,
  same_builder, name_of, parent_of, is_child_of, is_extension, message_of_oneof,
}
use protoreflect.Builder.Message.Register.{
  add_symbol_to, add_tag_to, register_msg_type, register_tag, register_with, register_field,
}
use protoreflect.Builder.Message.Remove.{unlink_builder}
use protoreflect.Builder.Message.Add.{
  is_present_but_not_child, append_element, and_then, try_add_field, add_symbol_at,
}
use protoreflect.Builder.Message.Choice.{
  check_choice, repeated_or_required, add_choice_symbol, register_choice, append_choice,
  try_add_choice, renamed_in_message,
}
use protoreflect.Builder.Message.Rename.{
  put_name, settle_name, set_name_with, renamed_field, set_field_name, renamed_element,
  renamed_in_field, register_entry_name, set_element_name, set_both_names, try_set_field_name,
}
use protoreflect.Builder.Message.Refused.{try_set_field_name_refused}
use protoreflect.Builder.Message.Assign.{
  nonzero_tags, zero_count, fill_tags, assign_tags, TagsKept, assign_tags_result,
}
use protoreflect.Builder.Message.Optional.{
  FieldProto, MessageProto, has, all_names, enum_names, oneof_name, free_name, process_loop,
  process_proto3_optional_fields,
}
use protoreflect.Builder.Message.Synthetic.{
  AllDiffer, marked, optional_count, process_proto3_optional_fields_result,
}
use protoreflect.Builder.Message.Examples.{start, field_named}

-- Fields with the numbers 2, none and 1, and none again.
abbrev numbers : List ℤ
numbers = pos 2 ∷ pos 0 ∷ pos 1 ∷ pos 0 ∷ []

assign_tags_result_example : Unlike (assign_tags numbers) × TagsKept numbers (assign_tags numbers)
assign_tags_result_example =
    assign_tags_result numbers (omega arith, (omega arith, (omega arith, (omega arith, tt))))
      (unfold nonzero_tags member in (refl, (refl, tt))) (omega arith)

assigned : assign_tags numbers ≡ pos 2 ∷ pos 3 ∷ pos 1 ∷ pos 4 ∷ []
unfolding assign_tags nonzero_tags zero_count fill_tags sort_ints insert_int assign skip_taken
    to_int32
assigned = refl

abbrev field_proto : Bytes → Bool → FieldProto
field_proto n o = record { name = n; proto3_optional = o; oneof_index = none }

-- Two optional fields `a` and `_a`, where a oneof is called `_a` as well.
abbrev two_optional : MessageProto
two_optional = record {
  fields = field_proto (codes "a") true ∷ field_proto (codes "_a") true ∷ [];
  oneof_decls = codes "o" ∷ [];
  extensions = [];
  enum_types = [];
  nested_types = [];
  reserved_names = [];
}

process_proto3_optional_fields_result_example :
    (added : List Bytes) × (process_proto3_optional_fields two_optional
      ≡ some (record two_optional {
        fields = marked (length two_optional.oneof_decls) two_optional.fields;
        oneof_decls = two_optional.oneof_decls ++ added;
      }))
    × (length added ≡ optional_count two_optional.fields)
    × All (λ n. has (all_names two_optional) n ≡ false) added
    × AllDiffer added
process_proto3_optional_fields_result_example = process_proto3_optional_fields_result two_optional

oneofs_added :
    process_proto3_optional_fields two_optional
    ≡ some (record two_optional {
      fields =
          record { name = codes "a"; proto3_optional = true; oneof_index = some (pos 1) }
          ∷ record { name = codes "_a"; proto3_optional = true; oneof_index = some (pos 2) }
          ∷ [];
      oneof_decls = codes "o" ∷ codes "X_a" ∷ codes "XX_a" ∷ [];
    })
unfolding process_proto3_optional_fields process_loop all_names enum_names free_name oneof_name has
    has_prefix bytes_eq to_int32
oneofs_added = refl

abbrev any_name : Bytes → Bool
any_name _ = true

abbrev entry_of : Bytes → Bytes
entry_of name = name ++ codes "Entry"

-- A message with the fields `a` and `b`.
abbrev two_fields : Builders
two_fields = (try_add_field (try_add_field start 0 0).0 0 1).0

rename_taken : (try_set_field_name any_name entry_of two_fields 1 (codes "a")).1 ≡ some symbol_taken
unfolding try_set_field_name set_both_names set_field_name set_element_name set_name_with
    settle_name put_name renamed_field renamed_element renamed_in_field renamed_in_message
    register_entry_name add_symbol_at try_add_field is_present_but_not_child and_then append_element
    is_extension register_field register_with register_tag register_msg_type add_symbol_to
    add_tag_to unlink_builder parent_of is_child_of set_parent name_of put_symbol put_tag write
    bytes_eq same_builder
rename_taken = refl

no_msg_type : (two_fields.fields 1).msg_type ≡ none
unfolding try_add_field is_present_but_not_child and_then append_element is_extension register_field
    register_with register_tag register_msg_type add_symbol_to add_tag_to unlink_builder parent_of
    is_child_of set_parent name_of put_symbol put_tag write bytes_eq same_builder
no_msg_type = refl

try_set_field_name_refused_example :
    (try_set_field_name any_name entry_of two_fields 1 (codes "a")).0 ≡ two_fields
try_set_field_name_refused_example =
    try_set_field_name_refused any_name entry_of two_fields 1 (codes "a") no_msg_type
      (ap is_some rename_taken)

-- Field 5 is a map, whose entries are message 9; it is in message 0.
abbrev with_map : Builders
with_map =
    (try_add_field
      (set_parent
        (record start {
          fields =
              write start.fields 5
                (record (field_named (codes "m") 0) { msg_type = some 9; cardinality = repeated });
          messages = write start.messages 9 (record (start.messages 9) { name = codes "mEntry" });
        })
        (message 9) (some (field 5)))
      0 5).0

-- A renamed map field leaves its old entry name in the message's symbols, so that it cannot have its
-- old name again.
stale_entry :
    let h = (try_set_field_name any_name entry_of with_map 5 (codes "n")).0 in
    ((h.messages 0).symbols (codes "mEntry") ≡ some (message 9))
    × ((try_set_field_name any_name entry_of h 5 (codes "m")).1 ≡ some symbol_taken)
unfolding try_set_field_name set_both_names set_field_name set_element_name set_name_with
    settle_name put_name renamed_field renamed_element renamed_in_field renamed_in_message
    register_entry_name add_symbol_at try_add_field is_present_but_not_child and_then append_element
    is_extension register_field register_with register_tag register_msg_type add_symbol_to
    add_tag_to unlink_builder parent_of is_child_of set_parent name_of put_symbol put_tag write
    bytes_eq same_builder
stale_entry = (refl, refl)

-- A choice that is added to a oneof in no message stays in the slice of the message where it was.
choice_in_two :
    let h = (try_add_choice two_fields 8 0).0 in
    ((h.fields 0).parent ≡ some (oneof 8))
    × ((h.messages 0).fields_and_oneofs ≡ field 0 ∷ field 1 ∷ [])
unfolding try_add_choice check_choice repeated_or_required add_choice_symbol register_choice
    append_choice message_of_oneof try_add_field is_present_but_not_child and_then append_element
    is_extension register_field register_with register_tag register_msg_type add_symbol_to
    add_tag_to unlink_builder parent_of is_child_of set_parent name_of put_symbol put_tag write
    bytes_eq same_builder
choice_in_two = (refl, refl)
