-- ===== src/Printer/Order.antt =====
-- protoprint/print.go: the orders in which the printer sorts elements. `none` is a panic.
pub mod Items
pub mod Strict
use protoreflect.Common.{
  ℕ, ◌-◌, ◌%◌, ◌^◌, Bool, true, false, not, ◌&&◌, ◌||◌, Option, none, some, List, [], ◌∷◌, ◌++◌,
  Bytes, ltb, ◌==◌, if◌then◌else◌, bytes_less, length, take,
}
use protoreflect.Common.Int.{ℤ, pos, negsuc, ltz, eqz, ◌-ℤ◌}
use protoreflect.Printer.Item.{
  Item, pkg, file_import, options, reserved_range, reserved_name, field, message, enum, enum_value,
  service, method, extension_range, FieldItem, EnumValueItem, Dsc, ElementAddr, at,
}

-- The byte '('
abbrev pub paren : ℕ
paren = 40

-- optionLess; i[0] and ni[0] panic on an empty list
unfoldable pub option_less : List Bytes → List Bytes → Option Bool
option_less ((ci ∷ ni) ∷ _) ((cj ∷ nj) ∷ _) =
    if not (ci == paren) && cj == paren
    then some true
    else if ci == paren && not (cj == paren)
    then some false
    else some (bytes_less (ci ∷ ni) (cj ∷ nj))
option_less _ _ = none

unfoldable pub number_less : FieldItem → FieldItem → Bool
number_less vi vj = ltz vi.number vj.number

-- Two extensions: grouped by extendee
unfoldable pub extension_less : FieldItem → FieldItem → Bool
unfolding number_less
extension_less vi vj =
    if vi.containing == vj.containing
    then number_less vi vj
    else bytes_less vi.containing_name vj.containing_name

-- By vi.IsExtension() and vj.IsExtension()
unfoldable pub by_extension : Bool → Bool → FieldItem → FieldItem → Bool
unfolding extension_less number_less
by_extension false true vi vj = true
by_extension true false vi vj = false
by_extension true true vi vj = extension_less vi vj
by_extension false false vi vj = number_less vi vj

unfoldable pub field_less : FieldItem → FieldItem → Bool
unfolding by_extension
field_less vi vj = by_extension vi.is_extension vj.is_extension vi vj

unfoldable pub enum_value_less : EnumValueItem → EnumValueItem → Bool
enum_value_less vi vj =
    if eqz vi.number vj.number
    then bytes_less vi.name vj.name
    else if vi.in_open_enum && eqz vi.number (pos 0)
    then true
    else if vi.in_open_enum && eqz vj.number (pos 0)
    then false
    else ltz vi.number vj.number

-- Name() of what is a protoreflect.Descriptor
unfoldable pub descriptor_name : Item → Option Bytes
descriptor_name (field f) = some f.name
descriptor_name (message n) = some n
descriptor_name (enum n) = some n
descriptor_name (enum_value v) = some v.name
descriptor_name (service n) = some n
descriptor_name (method n) = some n
descriptor_name _ = none

unfoldable pub name_less : Option Bytes → Option Bytes → Option Bool
name_less (some a) (some b) = some (bytes_less a b)
name_less _ _ = none

-- The switch of elementAddrs.Less; a failed type assertion panics
unfoldable pub item_less : Item → Item → Option Bool
unfolding field_less enum_value_less option_less descriptor_name name_less
item_less (field vi) (field vj) = some (field_less vi vj)
item_less (enum_value vi) (enum_value vj) = some (enum_value_less vi vj)
item_less (extension_range si ei) (extension_range sj ej) = some (ltz si sj)
item_less (reserved_range si ei) (reserved_range sj ej) = some (ltz si sj)
item_less (reserved_name vi) (reserved_name vj) = some (bytes_less vi vj)
item_less (pkg vi) (pkg vj) = some (bytes_less vi vj)
item_less (file_import vi) (file_import vj) = some (bytes_less vi vj)
item_less (options vi) (options vj) = option_less vi vj
item_less (message n) dj = name_less (some n) (descriptor_name dj)
item_less (enum n) dj = name_less (some n) (descriptor_name dj)
item_less (service n) dj = name_less (some n) (descriptor_name dj)
item_less (method n) dj = name_less (some n) (descriptor_name dj)
item_less _ _ = none

unfoldable pub both_less : (Item → Item → Option Bool) → Option Item → Option Item → Option Bool
both_less less (some di) (some dj) = less di dj
both_less less _ _ = none

-- elementAddrs.Less
module _ (opts : ℤ → List Bytes) (dsc : Dsc) where
  unfoldable pub addr_less : ElementAddr → ElementAddr → Option Bool
  unfolding item_less both_less at
  addr_less addri addrj =
      if ltz addri.order addrj.order
      then some true
      else if ltz addrj.order addri.order
      then some false
      else if ltz addri.element_type addrj.element_type
      then some true
      else if ltz addrj.element_type addri.element_type
      then some false
      else both_less item_less (at opts dsc addri) (at opts dsc addrj)
