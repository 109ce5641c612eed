-- ===== src/Printer/Position/Examples.antt =====
-- findElement, isSpanWithin and findExtSi of protoprint/print.go on the data of the sourceloc runs.
use protoreflect.Common.{◌≡◌, refl, inr, true, some, arith}
use protoreflect.SourceLoc.{SourceLocation, is_subspan_of, path_for}
use protoreflect.SourceLoc.Examples.{
  nested, nested-is_linked, reserved_locs, reserved_locs-IsIndexed, spot, statement, third,
}
use protoreflect.Printer.Position.{find_element, find_ext_si}
use protoreflect.Printer.Position.Agree.{find_element-path_for}
use protoreflect.Printer.Position.Within.{FindsBlock, find_ext_si_result}

find_element-path_for_example : find_element nested ≡ path_for nested
find_element-path_for_example = find_element-path_for nested nested-is_linked

abbrev inner : SourceLocation
inner = spot third 5 5 0

abbrev outer : SourceLocation
outer = spot statement 5 6 0

inner_within : is_subspan_of inner outer ≡ true
unfolding is_subspan_of
inner_within = refl

find_ext_si_result_example :
    (r : SourceLocation) × (find_ext_si reserved_locs inner (spot statement 2 2 1) ≡ some r)
    × FindsBlock reserved_locs inner (spot statement 2 2 1) r
find_ext_si_result_example =
    find_ext_si_result reserved_locs inner (spot statement 2 2 1) reserved_locs-IsIndexed
      (inr (omega arith))

outer_within : is_subspan_of outer outer ≡ true
unfolding is_subspan_of
outer_within = refl
