-- ===== src/Builder/Message/Examples.antt =====
-- Runs of the operations of protobuilder/message.go and field.go on a message, a oneof and its
-- choices, and the theorems at these inputs.
use protoreflect.Common.{
  ℕ, ◌≡◌, ◌⊎◌, refl, true, false, none, some, [], ◌∷◌, Bytes, codes, ◌==◌, if◌then◌else◌, bytes_eq,
  is_some, arith,
}
use protoreflect.Common.Int.{pos}
use protoreflect.Builder.Enum.{no_comments, write}
use protoreflect.Builder.Message.{
  field, message, unset, FieldBuilder, MessageBuilder, Builders, tag_taken, put_symbol, put_tag,
  set_message, set_parent, name_of, parent_of, is_child_of, is_extension,
}
use protoreflect.Builder.Message.Remove.{
  remove_from_field, forget_in_parent, unlink_builder, remove_child_of,
}
use protoreflect.Builder.Message.Register.{
  add_symbol_to, add_tag_to, register_msg_type, register_tag, register_with, register_field,
}
use protoreflect.Builder.Message.Registered.{
  registered, IsTaken, TagFree, EntryFree, register_field_result,
}
use protoreflect.Builder.Message.Add.{
  is_present_but_not_child, append_element, and_then, try_add_field, register_choices, undo_choice,
  undo_choices, finish_one_of, try_add_one_of,
}
use protoreflect.Builder.Message.Number.{
  check_number, message_of_field, message_of_parent, move_tag, try_set_number,
}
use protoreflect.Builder.Message.NumberAllowed.{NumberSet, NumberKept, try_set_number_result}
use protoreflect.Builder.Message.Tags.{TagsHold}
use protoreflect.Builder.Message.NumberTags.{try_set_number-TagsHold}

abbrev pub field_named : Bytes → ℕ → FieldBuilder
field_named n number = record {
  name = n;
  parent = none;
  comments = no_comments;
  number = pos number;
  msg_type = none;
  field_type = record { field_type = 5; local_msg_type = none };
  options = none;
  cardinality = unset;
  proto3_optional = false;
  default = [];
  json_name = [];
  foreign_extendee = none;
  local_extendee = none;
}

abbrev empty_message : Bytes → MessageBuilder
empty_message n = record {
  name = n;
  parent = none;
  comments = no_comments;
  options = none;
  extension_ranges = [];
  reserved_ranges = [];
  reserved_names = [];
  fields_and_oneofs = [];
  field_tags = λ _. none;
  nested_messages = [];
  nested_extensions = [];
  nested_enums = [];
  symbols = λ _. none;
}

-- Field 0 is `a`, with number 1; field 1 is `b`, with number 2; the others are `c`, with number 2.
abbrev pub start : Builders
start = record {
  messages = λ _. empty_message (codes "M");
  fields = λ f.
      if f == 0
      then field_named (codes "a") 1
      else if f == 1
      then field_named (codes "b") 2
      else field_named (codes "c") 2;
  oneofs = λ _. record {
    name = codes "choice";
    parent = none;
    comments = no_comments;
    options = none;
    choices = 0 ∷ 1 ∷ [];
    symbols = λ _. none;
  };
  enums = λ _. record { name = codes "E"; parent = none };
}

start-TagsHold : TagsHold start
start-TagsHold = record {
  sound = λ m f n e. absurd (ground (arith, e));
  complete =
      λ m f l nz. absurd (unfold message_of_field message_of_parent in ground (arith, l.owned));
}

register_field_result_example :
    ((register_field start 0 0).0 ≡ start)
      × (is_some (register_field start 0 0).1 ≡ true)
      × IsTaken (start.messages 0) (codes "a") (pos 1) none
    ⊎ ((register_field start 0 0
          ≡ (set_message start 0 (registered (start.messages 0) (codes "a") (pos 1) 0 none), none))
        × ((start.messages 0).symbols (codes "a") ≡ none)
        × TagFree (start.messages 0) (pos 1)
        × EntryFree (start.messages 0) (codes "a") none)
register_field_result_example = register_field_result start 0 0 refl

-- Message 0 with `b`, under number 2.
abbrev with_b : Builders
with_b = (try_add_field start 0 1).0

try_set_number_result_example :
    NumberSet with_b 1 (pos 19500) (try_set_number with_b 1 (pos 19500))
    ⊎ NumberKept with_b 1 (pos 19500) (try_set_number with_b 1 (pos 19500))
try_set_number_result_example = try_set_number_result with_b 1 (pos 19500)

try_set_number-TagsHold_example : TagsHold (try_set_number start 0 (pos 7)).0
try_set_number-TagsHold_example = try_set_number-TagsHold start 0 (pos 7) start-TagsHold

-- The number 2 moves to 5 in the message's tags.
tags_moved :
    let h = (try_set_number with_b 1 (pos 5)).0 in
    ((h.messages 0).field_tags (pos 2) ≡ none) × ((h.messages 0).field_tags (pos 5) ≡ some 1)
unfolding try_set_number check_number move_tag message_of_field message_of_parent try_add_field
    is_present_but_not_child and_then append_element is_extension register_field register_with
    register_tag register_msg_type add_symbol_to add_tag_to unlink_builder parent_of is_child_of
    set_parent name_of put_symbol put_tag write bytes_eq
tags_moved = (refl, refl)

-- TryAddOneOf with the choices `a` and `b`, where the message has another field with number 2: `b` is
-- refused, but `a` stays in the message's symbols and tags.
refused_one_of :
    let r = try_add_one_of (try_add_field start 0 2).0 0 0 in
    (r.1 ≡ some tag_taken)
    × ((r.0.messages 0).symbols (codes "a") ≡ some (field 0))
    × ((r.0.messages 0).field_tags (pos 1) ≡ some 0)
    × ((r.0.messages 0).symbols (codes "choice") ≡ none)
unfolding try_add_one_of register_choices finish_one_of undo_choices undo_choice try_add_field
    is_present_but_not_child and_then append_element is_extension register_field register_with
    register_tag register_msg_type add_symbol_to add_tag_to unlink_builder parent_of is_child_of
    set_parent name_of put_symbol put_tag write bytes_eq
refused_one_of = (refl, refl, refl, refl)

-- Field 3 has a message of its own, the message 9.
abbrev with_group : Builders
with_group =
    set_parent
      (record start {
        fields = write start.fields 3 (record (field_named (codes "g") 3) { msg_type = some 9 });
      })
      (message 9) (some (field 3))

-- Unlink on this message takes it from the field, but the message keeps the field as its parent.
unlinked_group :
    let h = unlink_builder with_group (message 9) in
    ((h.fields 3).msg_type ≡ none) × ((h.messages 9).parent ≡ some (field 3))
unfolding unlink_builder remove_child_of remove_from_field forget_in_parent parent_of set_parent
    write
unlinked_group = (refl, refl)
