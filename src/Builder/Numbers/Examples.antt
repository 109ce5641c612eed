-- ===== src/Builder/Numbers/Examples.antt =====
-- The numbers of concrete enums, by buildProto of protobuilder/enum.go.
use protoreflect.Common.{
  ◌≡◌, ◌≤◌, ◌^◌, refl, true, false, none, List, [], ◌∷◌, codes, length, arith,
}
use protoreflect.Common.Int.{ℤ, pos, negsuc}
use protoreflect.Builder.Enum.{EnumValueBuilder, no_comments}
use protoreflect.Builder.Numbers.{
  set_numbers, build_numbers, needed, sort_ints, insert_int, drop_negative, search_nonneg, assign,
  skip_taken, fill, to_int32,
}
use protoreflect.Builder.Numbers.Sorted.{Unlike, member}
use protoreflect.Builder.Numbers.Fill.{Kept}
use protoreflect.Builder.Numbers.Distinct.{build_numbers_result}

abbrev numbered : ℤ → EnumValueBuilder
numbered n = record {
  name = codes "SET";
  parent = none;
  comments = no_comments;
  number = n;
  number_set = true;
  options = none;
}

abbrev unnumbered : EnumValueBuilder
unnumbered = record {
  name = codes "UNSET";
  parent = none;
  comments = no_comments;
  number = pos 0;
  number_set = false;
  options = none;
}

-- Values with the numbers 1, none, -1, 0 and none
abbrev mixed : List EnumValueBuilder
mixed = numbered (pos 1) ∷ unnumbered ∷ numbered (negsuc 0) ∷ numbered (pos 0) ∷ unnumbered ∷ []

mixed_numbers : build_numbers mixed ≡ pos 1 ∷ pos 2 ∷ negsuc 0 ∷ pos 0 ∷ pos 3 ∷ []
unfolding build_numbers set_numbers needed sort_ints insert_int drop_negative search_nonneg assign
    skip_taken fill to_int32
mixed_numbers = refl

mixed-Unlike : Unlike (set_numbers mixed)
unfolding set_numbers member
mixed-Unlike = (refl, (refl, (refl, tt)))

mixed_small : length mixed ≤ 2 ^ 31
mixed_small = omega arith

build_numbers_result_example : Unlike (build_numbers mixed) × Kept mixed (build_numbers mixed)
build_numbers_result_example = build_numbers_result mixed mixed-Unlike mixed_small

aliased_numbers :
    build_numbers (numbered (pos 0) ∷ numbered (pos 0) ∷ numbered (pos 1) ∷ unnumbered ∷ [])
    ≡ pos 0 ∷ pos 0 ∷ pos 1 ∷ pos 1 ∷ []
unfolding build_numbers set_numbers needed sort_ints insert_int drop_negative search_nonneg assign
    skip_taken fill to_int32
aliased_numbers = refl
