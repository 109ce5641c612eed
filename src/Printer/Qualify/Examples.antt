-- ===== src/Printer/Qualify/Examples.antt =====
-- The type foo.bar.Msg.Inner referred to from foo.bar.Msg.Other.
use protoreflect.Common.{◌≡◌, ◌≢◌, ◌⊎◌, refl, false, some, [], Bytes, bytes_eq, has_prefix, codes}
use protoreflect.Common.Int.{pos}
use protoreflect.Printer.Qualify.{
  qualify_element_name, qualify_loop, start_scope, without_dot, outer_scope, to_last_dot,
  ends_with_dot, qualify_name, qualify_message_option_name, qualify_extension_literal_name,
}
use protoreflect.Printer.Qualify.Result.{IsCut, qualify_element_name_result}

abbrev pkg : Bytes
pkg = codes "foo.bar"

abbrev scope : Bytes
scope = codes "foo.bar.Msg.Other"

abbrev inner : Bytes
inner = codes "foo.bar.Msg.Inner"

inner_name : qualify_name false pkg scope inner ≡ some (codes "Inner")
unfolding qualify_name qualify_element_name qualify_loop start_scope without_dot outer_scope
    to_last_dot ends_with_dot has_prefix bytes_eq
inner_name = refl

inner_option :
    qualify_message_option_name false pkg (codes "foo.bar.Msg") inner ≡ some (codes "Msg.Inner")
unfolding qualify_message_option_name qualify_element_name qualify_loop start_scope without_dot
    outer_scope to_last_dot ends_with_dot has_prefix bytes_eq
inner_option = refl

inner_literal : qualify_extension_literal_name false pkg scope inner ≡ some (codes "Msg.Inner")
unfolding qualify_extension_literal_name qualify_element_name qualify_loop start_scope without_dot
    outer_scope to_last_dot ends_with_dot has_prefix bytes_eq
inner_literal = refl

inner-nonempty : inner ≢ []
inner-nonempty e = cc e

qualify_element_name_result_example :
    (r : Bytes) × (qualify_element_name false pkg scope inner (pos 0) ≡ some r)
    × ((r ≡ without_dot inner)
        ⊎ IsCut (pos 0) (start_scope pkg scope (pos 0)) (without_dot inner) r)
qualify_element_name_result_example =
    qualify_element_name_result pkg scope inner (pos 0) inner-nonempty
