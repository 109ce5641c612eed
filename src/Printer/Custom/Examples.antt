-- ===== src/Printer/Custom/Examples.antt =====
-- Elements of a small file, message and enum under the orders of protoprint.
use protoreflect.Common.{
  ◌≢◌, ℕ, ◌≡◌, refl, Bool, true, false, none, some, List, [], ◌∷◌, Bytes, codes, if◌then◌else◌,
  bytes_less, ◌==◌,
}
use protoreflect.Common.Int.{ℤ, pos}
use protoreflect.SourceLoc.{SourcePath, SourceLocation, zero_location, is_zero}
use protoreflect.Printer.Item.{
  field, enum_value, FieldItem, EnumValueItem, Dsc, message_dsc, enum_dsc, ElementAddr, at,
  at_message, at_enum, get,
}
use protoreflect.Printer.Order.{
  addr_less, item_less, both_less, field_less, by_extension, number_less,
}
use protoreflect.Printer.Order.Strict.{IsValid, addr_less_trans}
use protoreflect.Printer.Element.{Element, as_element, enum_val_element}
use protoreflect.Printer.Element.Contract.{IsContractual, as_element-IsContractual}
use protoreflect.Printer.Custom.{
  custom_less, custom_items_less, elements_less, element_path, source_less, located, location_less,
  both_located, span_less,
}
use protoreflect.Printer.Custom.ZeroFirst.{zero_first, IsSorted, IsValueAddr}
use protoreflect.Printer.Custom.Source.{source_less_trans}

abbrev names : ℕ → Bytes
names _ = codes "M"

abbrev no_opts : ℤ → List Bytes
no_opts _ = []

abbrev field_numbered : ℕ → FieldItem
field_numbered n = record {
  name = codes "f";
  number = pos n;
  is_extension = false;
  containing = 0;
  containing_name = codes "M";
}

-- A message with the fields 3, 1 and 2
abbrev small_message : Dsc
small_message = message_dsc (record {
  fields = field_numbered 3 ∷ field_numbered 1 ∷ field_numbered 2 ∷ [];
  messages = [];
  enums = [];
  extensions = [];
  extension_ranges = [];
  reserved_ranges = [];
  reserved_names = [];
})

abbrev addr : ℕ → ℕ → ElementAddr
addr t i = record { element_type = pos t; element_index = pos i; order = pos 0 }

third-IsValid : IsValid names true no_opts small_message (addr 2 0)
unfolding at at_message get
third-IsValid = record { item = field (field_numbered 3); leads = refl; sound = refl }

first-IsValid : IsValid names true no_opts small_message (addr 2 1)
unfolding at at_message get
first-IsValid = record { item = field (field_numbered 1); leads = refl; sound = refl }

second-IsValid : IsValid names true no_opts small_message (addr 2 2)
unfolding at at_message get
second-IsValid = record { item = field (field_numbered 2); leads = refl; sound = refl }

less_1_2 : addr_less no_opts small_message (addr 2 1) (addr 2 2) ≡ some true
unfolding addr_less at at_message get both_less item_less field_less by_extension number_less
less_1_2 = refl

less_2_3 : addr_less no_opts small_message (addr 2 2) (addr 2 0) ≡ some true
unfolding addr_less at at_message get both_less item_less field_less by_extension number_less
less_2_3 = refl

addr_less_trans_example :
    (addr_less no_opts small_message (addr 2 1) (addr 2 0) ≡ some true)
    × (addr_less no_opts small_message (addr 2 1) (addr 2 1) ≡ some false)
addr_less_trans_example =
    addr_less_trans names true no_opts small_message (addr 2 1) (addr 2 2) (addr 2 0) first-IsValid
      second-IsValid third-IsValid less_1_2 less_2_3

abbrev value_numbered : Bytes → ℕ → EnumValueItem
value_numbered n i = record { name = n; number = pos i; in_open_enum = true }

-- An open enum with the values 2, 0, 1
abbrev small_enum : Dsc
small_enum = enum_dsc (record {
  values =
      value_numbered (codes "B") 2
      ∷ value_numbered (codes "Z") 0
      ∷ value_numbered (codes "A") 1
      ∷ [];
  reserved_ranges = [];
  reserved_names = [];
})

-- The order by name alone
abbrev by_name : Element → Element → Bool
by_name a b = elim a.name [
  | none ↦ false
  | some x ↦ elim b.name [ none ↦ false | some y ↦ bytes_less x y ]
]

value_at_0 : at no_opts small_enum (addr 2 0) ≡ some (enum_value (value_numbered (codes "B") 2))
unfolding at at_enum get
value_at_0 = refl

value_at_1 : at no_opts small_enum (addr 2 1) ≡ some (enum_value (value_numbered (codes "Z") 0))
unfolding at at_enum get
value_at_1 = refl

value_at_2 : at no_opts small_enum (addr 2 2) ≡ some (enum_value (value_numbered (codes "A") 1))
unfolding at at_enum get
value_at_2 = refl

value_addr :
    (i : ℕ) (v : EnumValueItem)
    → at no_opts small_enum (addr 2 i) ≡ some (enum_value v)
    → v.in_open_enum ≡ true
    → IsValueAddr no_opts small_enum (pos 2) (addr 2 i)
value_addr i v leads open_enum = record {
  value = v;
  leads = leads;
  open_enum = open_enum;
  same_type = refl;
}

-- The zero, and then the others by name.
values-IsSorted : IsSorted no_opts small_enum by_name (addr 2 1 ∷ addr 2 2 ∷ addr 2 0 ∷ [])
unfolding custom_less custom_items_less elements_less as_element enum_val_element both_less at
    at_enum get bytes_less
values-IsSorted = (refl, (refl, tt))

zero_first_example : ◌≢◌ {A = ℤ} (pos 1) (pos 0)
zero_first_example =
    zero_first no_opts small_enum by_name (pos 2) (addr 2 1) (addr 2 2 ∷ addr 2 0 ∷ [])
      (
        value_addr 1 (value_numbered (codes "Z") 0) value_at_1 refl,
        (
          value_addr 2 (value_numbered (codes "A") 1) value_at_2 refl,
          (value_addr 0 (value_numbered (codes "B") 2) value_at_0 refl, tt),
        ),
      )
      values-IsSorted 0 (addr 2 2) (value_numbered (codes "A") 1) refl value_at_2

abbrev element_of : Bytes → ℕ → Element
unfolding enum_val_element
element_of n i = enum_val_element (value_numbered n i)

as_element_of :
    (n : Bytes) (i : ℕ) → as_element (enum_value (value_numbered n i)) ≡ some (element_of n i)
unfolding as_element
as_element_of n i = refl

as_element-IsContractual_example : IsContractual (element_of (codes "A") 1)
as_element-IsContractual_example =
    as_element-IsContractual (enum_value (value_numbered (codes "A") 1)) (element_of (codes "A") 1)
      (as_element_of (codes "A") 1)

-- Each value but the last is on a line of its own.
abbrev line : ℕ → SourceLocation
line n = record {
  path = some [];
  start_line = n;
  start_column = 2;
  end_line = n;
  end_column = 9;
  leading_detached_comments = none;
  leading_comments = [];
  trailing_comments = [];
  next = 0;
}

abbrev by_path : SourcePath → SourceLocation
by_path (_ ∷ _ ∷ _ ∷ i ∷ []) =
    if i == 0 then line 7 else if i == 1 then line 5 else if i == 3 then line 6 else zero_location
by_path _ = zero_location

abbrev prefix : SourcePath
prefix = 5 ∷ 0 ∷ []

located_0 : located by_path (element_path prefix (pos 2) (pos 0)) ≡ some (line 7)
unfolding located element_path
located_0 = refl

located_1 : located by_path (element_path prefix (pos 2) (pos 1)) ≡ some (line 5)
unfolding located element_path
located_1 = refl

located_2 : located by_path (element_path prefix (pos 2) (pos 2)) ≡ some zero_location
unfolding located element_path
located_2 = refl

located_3 : located by_path (element_path prefix (pos 2) (pos 3)) ≡ some (line 6)
unfolding located element_path
located_3 = refl

line-is_zero : (n : ℕ) → is_zero (line n) ≡ false
unfolding is_zero
line-is_zero n = refl

zero_location-is_zero : is_zero zero_location ≡ true
unfolding is_zero
zero_location-is_zero = refl

source_less_1_3 : source_less by_path prefix small_enum (addr 2 1) (addr 2 3) ≡ some true
unfolding source_less element_path located both_located location_less span_less is_zero
source_less_1_3 = refl

source_less_3_0 : source_less by_path prefix small_enum (addr 2 3) (addr 2 0) ≡ some true
unfolding source_less element_path located both_located location_less span_less is_zero
source_less_3_0 = refl

source_less_trans_example :
    (source_less by_path prefix small_enum (addr 2 1) (addr 2 0) ≡ some true)
    × (source_less by_path prefix small_enum (addr 2 1) (addr 2 1) ≡ some false)
source_less_trans_example =
    source_less_trans by_path prefix small_enum (addr 2 1) (addr 2 3) (addr 2 0) (line 5) (line 6)
      (line 7) located_1 located_3 located_0 (line-is_zero 5) (line-is_zero 6) (line-is_zero 7)
      source_less_1_3 source_less_3_0
