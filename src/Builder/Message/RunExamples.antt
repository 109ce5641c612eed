-- ===== src/Builder/Message/RunExamples.antt =====
-- A run of the operations on fields of protobuilder/message.go, and the theorems at this run.
use protoreflect.Common.{
  ℕ, ◌≡◌, refl, sym, ◌∙◌, true, none, some, [], bytes_eq, is_some, inl, inr, arith,
}
use protoreflect.Common.Int.{pos}
use protoreflect.Builder.Enum.{write}
use protoreflect.Builder.Message.{
  oneof, Builders, put_symbol, put_tag, set_parent, name_of, parent_of, is_child_of, same_builder,
  is_extension, message_of_oneof,
}
use protoreflect.Builder.Message.Remove.{unlink_builder}
use protoreflect.Builder.Message.Register.{
  add_symbol_to, add_tag_to, register_msg_type, register_tag, register_with, register_field,
}
use protoreflect.Builder.Message.Add.{
  is_present_but_not_child, append_element, try_add_field, register_choices, finish_one_of,
  try_add_one_of,
}
use protoreflect.Builder.Message.Choice.{
  check_choice, repeated_or_required, add_choice_symbol, register_choice, append_choice,
  try_add_choice,
}
use protoreflect.Builder.Message.Number.{
  check_number, move_tag, message_of_field, message_of_parent, try_set_number,
}
use protoreflect.Builder.Message.Tags.{IsListed, TagsHold}
use protoreflect.Builder.Message.AddField.{try_add_field-TagsHold}
use protoreflect.Builder.Message.AddOneOf.{IsLoose, has_choice}
use protoreflect.Builder.Message.FieldRun.{
  FieldRun, begin, then_step, adds_one_of, adds_choice, sets_number, AllFieldsNew,
  FieldRun-TagsHold, FieldRun-same_field,
}
use protoreflect.Builder.Message.Examples.{start}

-- The oneofs have no choices.
abbrev new_builders : Builders
new_builders = record start { oneofs = λ o. record (start.oneofs o) { choices = [] } }

new_builders-AllFieldsNew : AllFieldsNew new_builders
new_builders-AllFieldsNew = record {
  no_parent = λ f. unfold message_of_field message_of_parent in ground arith;
  no_tags = λ m n. refl;
}

-- Field 0 is added to oneof 0, which is added to message 0; field 1 is added to the oneof, and gets the
-- number 5.
abbrev with_choice : Builders
with_choice = (try_add_choice new_builders 0 0).0

abbrev with_one_of : Builders
with_one_of = (try_add_one_of with_choice 0 0).0

abbrev with_both : Builders
with_both = (try_add_choice with_one_of 0 1).0

abbrev renumbered : Builders
renumbered = (try_set_number with_both 1 (pos 5)).0

choice_IsLoose : IsLoose with_choice 0
unfolding try_set_number check_number move_tag message_of_field message_of_parent try_add_choice
    check_choice repeated_or_required add_choice_symbol register_choice append_choice try_add_one_of
    register_choices finish_one_of message_of_oneof is_present_but_not_child append_element
    is_extension register_field register_with register_tag register_msg_type add_symbol_to
    add_tag_to unlink_builder parent_of is_child_of same_builder set_parent name_of put_symbol
    put_tag write bytes_eq has_choice
choice_IsLoose = record {
  no_parent = refl;
  regular = λ f e. ground arith;
  differ = (refl, tt);
  children = λ f. ground arith;
}

added : (try_add_one_of with_choice 0 0).1 ≡ none
unfolding try_set_number check_number move_tag message_of_field message_of_parent try_add_choice
    check_choice repeated_or_required add_choice_symbol register_choice append_choice try_add_one_of
    register_choices finish_one_of message_of_oneof is_present_but_not_child append_element
    is_extension register_field register_with register_tag register_msg_type add_symbol_to
    add_tag_to unlink_builder parent_of is_child_of same_builder set_parent name_of put_symbol
    put_tag write bytes_eq
added = refl

in_no_message : message_of_field new_builders 0 ≡ none
unfolding message_of_field message_of_parent
in_no_message = refl

in_a_message : is_some (message_of_oneof (with_one_of.oneofs 0)) ≡ true
unfolding try_set_number check_number move_tag message_of_field message_of_parent try_add_choice
    check_choice repeated_or_required add_choice_symbol register_choice append_choice try_add_one_of
    register_choices finish_one_of message_of_oneof is_present_but_not_child append_element
    is_extension register_field register_with register_tag register_msg_type add_symbol_to
    add_tag_to unlink_builder parent_of is_child_of same_builder set_parent name_of put_symbol
    put_tag write bytes_eq
in_a_message = refl

one_of_run : FieldRun new_builders with_one_of
one_of_run =
    then_step (then_step begin (adds_choice new_builders 0 0 (inr in_no_message)))
      (adds_one_of with_choice 0 0 choice_IsLoose added)

run : FieldRun new_builders renumbered
run =
    then_step (then_step one_of_run (adds_choice with_one_of 0 1 (inl in_a_message)))
      (sets_number with_both 1 (pos 5))

try_add_field-TagsHold_example : TagsHold (try_add_field with_one_of 0 1).0
try_add_field-TagsHold_example =
    try_add_field-TagsHold with_one_of 0 1 (FieldRun-TagsHold new_builders-AllFieldsNew one_of_run)

-- The run has the field in the oneof, and so in the message, under its new number.
in_one_of : (renumbered.fields 1).parent ≡ some (oneof 0)
unfolding try_set_number check_number move_tag message_of_field message_of_parent try_add_choice
    check_choice repeated_or_required add_choice_symbol register_choice append_choice try_add_one_of
    register_choices finish_one_of message_of_oneof is_present_but_not_child append_element
    is_extension register_field register_with register_tag register_msg_type add_symbol_to
    add_tag_to unlink_builder parent_of is_child_of same_builder set_parent name_of put_symbol
    put_tag write bytes_eq
in_one_of = refl

in_message : IsListed renumbered 0 1
unfolding try_set_number check_number move_tag message_of_field message_of_parent try_add_choice
    check_choice repeated_or_required add_choice_symbol register_choice append_choice try_add_one_of
    register_choices finish_one_of message_of_oneof is_present_but_not_child append_element
    is_extension register_field register_with register_tag register_msg_type add_symbol_to
    add_tag_to unlink_builder parent_of is_child_of same_builder set_parent name_of put_symbol
    put_tag write bytes_eq
in_message = record { regular = refl; owned = refl }

new_number : (renumbered.fields 1).number ≡ pos 5
unfolding try_set_number check_number move_tag message_of_field message_of_parent try_add_choice
    check_choice repeated_or_required add_choice_symbol register_choice append_choice try_add_one_of
    register_choices finish_one_of message_of_oneof is_present_but_not_child append_element
    is_extension register_field register_with register_tag register_msg_type add_symbol_to
    add_tag_to unlink_builder parent_of is_child_of same_builder set_parent name_of put_symbol
    put_tag write bytes_eq
new_number = refl

FieldRun-same_field_example : ◌≡◌ {A = ℕ} 1 1
FieldRun-same_field_example =
    FieldRun-same_field new_builders-AllFieldsNew run 0 1 1 in_message in_message
      (λ z. ground (arith, sym new_number ∙ z)) refl
