-- ===== src/Printer/Custom.antt =====
-- protoprint/print.go: the printer's orders by a custom function and by position in the source.
pub mod ZeroFirst
pub mod Source
pub mod Examples
use protoreflect.Common.{
  ℕ, ◌-◌, ◌+◌, ◌%◌, ◌^◌, Bool, true, false, not, ◌&&◌, ◌||◌, Option, none, some, List, [], ◌∷◌,
  ◌++◌, Bytes, ltb, ◌==◌, if◌then◌else◌, length, take,
}
use protoreflect.Common.Int.{ℤ, pos, negsuc, ltz, eqz}
use protoreflect.Tags.{
  file_package_tag, file_dependency_tag, file_options_tag, message_options_tag, enum_options_tag,
  service_options_tag,
}
use protoreflect.SourceLoc.{SourcePath, SourceLocation, int32, is_zero}
use protoreflect.Printer.Item.{
  Item, enum_value, EnumValueItem, Dsc, file_dsc, message_dsc, enum_dsc, service_dsc, ElementAddr,
  at,
}
use protoreflect.Printer.Order.{both_less}
use protoreflect.Printer.Element.{Element, as_element}

unfoldable pub elements_less :
    (Element → Element → Bool) → Option Element → Option Element → Option Bool
elements_less less (some ei) (some ej) = some (less ei ej)
elements_less less _ _ = none

-- customSortOrder.Less on two elements; `same` is that their element types are the same.
unfoldable pub custom_items_less : (Element → Element → Bool) → Bool → Item → Item → Option Bool
unfolding elements_less as_element
custom_items_less less true (enum_value vi) (enum_value vj) =
    if vi.in_open_enum && eqz vi.number (pos 0)
    then some true
    else if vi.in_open_enum && eqz vj.number (pos 0)
    then some false
    else elements_less less (as_element (enum_value vi)) (as_element (enum_value vj))
custom_items_less less true (enum_value vi) _ = none
custom_items_less less same di dj = elements_less less (as_element di) (as_element dj)

-- customSortOrder.Less
unfoldable pub custom_less :
    (ℤ → List Bytes) → Dsc → (Element → Element → Bool) → ElementAddr → ElementAddr → Option Bool
unfolding custom_items_less both_less at
custom_less opts dsc less addri addrj =
    both_less (custom_items_less less (eqz addri.element_type addrj.element_type))
      (at opts dsc addri) (at opts dsc addrj)

-- int32(n), as a 32-bit pattern
abbrev pub int32_of : ℤ → ℕ
int32_of (pos n) = n % 2 ^ 32
int32_of (negsuc n) = 2 ^ 32 - 1 - n % 2 ^ 32

-- The path that elementSrcOrder.Less asks for. make panics if the prefix has fewer than two elements.
unfoldable pub element_path : SourcePath → ℤ → ℤ → Option SourcePath
element_path prefix t (negsuc n) = some (prefix ++ int32 (1 + n) ∷ [])
element_path prefix (negsuc n) (pos i) =
    if ltb (length prefix) 2
    then none
    else some (take (length prefix - 2) prefix ++ int32_of (negsuc n) ∷ int32 i ∷ [])
element_path prefix (pos t) (pos i) = some (prefix ++ int32_of (pos t) ∷ int32 i ∷ [])

-- The switch of elementSrcOrder.Less: an element that is not in the source goes before one that is.
unfoldable pub goes_first : Dsc → ℤ → ℤ → Bool
goes_first (file_dsc _) ti tj =
    eqz ti (pos file_package_tag)
    || (eqz ti (pos file_dependency_tag) && not (eqz tj (pos file_package_tag)))
    || (eqz ti (pos file_options_tag)
        && not (eqz tj (pos file_package_tag) || eqz tj (pos file_dependency_tag)))
goes_first (message_dsc _) ti tj = eqz ti (pos message_options_tag)
goes_first (enum_dsc _) ti tj = eqz ti (pos enum_options_tag)
goes_first (service_dsc _) ti tj = eqz ti (pos service_options_tag)
goes_first _ ti tj = false

-- The comparison of two spans
unfoldable pub span_less : SourceLocation → SourceLocation → Bool
span_less si sj =
    if ltb si.start_line sj.start_line
    then true
    else if ltb sj.start_line si.start_line
    then false
    else if ltb si.start_column sj.start_column
    then true
    else if ltb sj.start_column si.start_column
    then false
    else if ltb si.end_line sj.end_line
    then true
    else if ltb sj.end_line si.end_line
    then false
    else ltb si.end_column sj.end_column

-- elementSrcOrder.Less on the locations of two elements
unfoldable pub location_less : Dsc → ℤ → ℤ → SourceLocation → SourceLocation → Bool
unfolding goes_first span_less is_zero
location_less dsc ti tj si sj =
    if is_zero si && not (is_zero sj)
    then goes_first dsc ti tj
    else if not (is_zero si) && is_zero sj
    then not (goes_first dsc tj ti)
    else if is_zero si || is_zero sj
    then false
    else span_less si sj

unfoldable pub located : (SourcePath → SourceLocation) → Option SourcePath → Option SourceLocation
located by_path none = none
located by_path (some p) = some (by_path p)

unfoldable pub both_located :
    (SourceLocation → SourceLocation → Bool)
    → Option SourceLocation
    → Option SourceLocation
    → Option Bool
both_located less (some si) (some sj) = some (less si sj)
both_located less _ _ = none

-- elementSrcOrder.Less, with the source info's ByPath
unfoldable pub source_less :
    (SourcePath → SourceLocation) → SourcePath → Dsc → ElementAddr → ElementAddr → Option Bool
unfolding element_path located both_located location_less
source_less by_path prefix dsc addri addrj =
    both_located (location_less dsc addri.element_type addrj.element_type)
      (located by_path (element_path prefix addri.element_type addri.element_index))
      (located by_path (element_path prefix addrj.element_type addrj.element_index))
