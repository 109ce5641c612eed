-- ===== src/Printer/Element/Contract.antt =====
-- The contract of the Element interface of protoprint/sort.go: which methods apply to which kinds.
use protoreflect.Common.{
  ◌≡◌, refl, subst, ◌⊎◌, inl, inr, Bool, true, false, Option, none, some, [], ◌∷◌, Bool-cases,
}
use protoreflect.Common.Int.{pos}
use protoreflect.Printer.Item.{
  Item, pkg, file_import, options, reserved_range, reserved_name, field, message, enum, enum_value,
  service, method, extension_range, FieldItem,
}
use protoreflect.Printer.Element.{
  ElementKind, kind_option, kind_field, kind_extension_range, kind_extension, kind_reserved_range,
  kind_enum_value, Element, as_element, field_element,
}

-- The kinds that have a number
abbrev pub has_number : ElementKind → Bool
has_number kind_field = true
has_number kind_extension = true
has_number kind_enum_value = true
has_number _ = false

-- The kinds that have a number range, and no name
abbrev pub has_number_range : ElementKind → Bool
has_number_range kind_extension_range = true
has_number_range kind_reserved_range = true
has_number_range _ = false

-- What the comments of the interface say
pub record IsContractual (e : Element) : Type 0 where
  pub name_applies : (has_number_range e.kind ≡ false) ⊎ (e.name ≡ some [])
  pub number_applies : (has_number e.kind ≡ true) ⊎ (e.number ≡ pos 0)
  pub number_range_applies : (has_number_range e.kind ≡ true) ⊎ (e.number_range ≡ (pos 0, pos 0))
  pub extendee_applies : (e.kind ≡ kind_extension) ⊎ (e.extendee ≡ [])
  pub is_custom_option_applies : (e.kind ≡ kind_option) ⊎ (e.is_custom_option ≡ false)

field_element-IsContractual : (f : FieldItem) → IsContractual (field_element f)
unfolding field_element
field_element-IsContractual f = elim (Bool-cases f.is_extension) [
  | inl e ↦ rw e (record {
    name_applies = inl refl;
    number_applies = inl refl;
    number_range_applies = inr refl;
    extendee_applies = inl refl;
    is_custom_option_applies = inr refl;
  })
  | inr e ↦ rw e (record {
    name_applies = inl refl;
    number_applies = inl refl;
    number_range_applies = inr refl;
    extendee_applies = inr refl;
    is_custom_option_applies = inr refl;
  })
]

-- The element, if there is one, keeps to the contract.
abbrev Kept : Option Element → Type 0
Kept none = Unit
Kept (some e) = IsContractual e

as_element-Kept : (v : Item) → Kept (as_element v)
unfolding as_element
as_element-Kept (pkg n) = record {
  name_applies = inl refl;
  number_applies = inr refl;
  number_range_applies = inr refl;
  extendee_applies = inr refl;
  is_custom_option_applies = inr refl;
}
as_element-Kept (file_import n) = record {
  name_applies = inl refl;
  number_applies = inr refl;
  number_range_applies = inr refl;
  extendee_applies = inr refl;
  is_custom_option_applies = inr refl;
}
as_element-Kept (reserved_name n) = record {
  name_applies = inl refl;
  number_applies = inr refl;
  number_range_applies = inr refl;
  extendee_applies = inr refl;
  is_custom_option_applies = inr refl;
}
as_element-Kept (message n) = record {
  name_applies = inl refl;
  number_applies = inr refl;
  number_range_applies = inr refl;
  extendee_applies = inr refl;
  is_custom_option_applies = inr refl;
}
as_element-Kept (enum n) = record {
  name_applies = inl refl;
  number_applies = inr refl;
  number_range_applies = inr refl;
  extendee_applies = inr refl;
  is_custom_option_applies = inr refl;
}
as_element-Kept (service n) = record {
  name_applies = inl refl;
  number_applies = inr refl;
  number_range_applies = inr refl;
  extendee_applies = inr refl;
  is_custom_option_applies = inr refl;
}
as_element-Kept (method n) = record {
  name_applies = inl refl;
  number_applies = inr refl;
  number_range_applies = inr refl;
  extendee_applies = inr refl;
  is_custom_option_applies = inr refl;
}
as_element-Kept (options []) = tt
as_element-Kept (options (n ∷ _)) = record {
  name_applies = inl refl;
  number_applies = inr refl;
  number_range_applies = inr refl;
  extendee_applies = inr refl;
  is_custom_option_applies = inl refl;
}
as_element-Kept (reserved_range a b) = record {
  name_applies = inr refl;
  number_applies = inr refl;
  number_range_applies = inl refl;
  extendee_applies = inr refl;
  is_custom_option_applies = inr refl;
}
as_element-Kept (extension_range a b) = record {
  name_applies = inr refl;
  number_applies = inr refl;
  number_range_applies = inl refl;
  extendee_applies = inr refl;
  is_custom_option_applies = inr refl;
}
as_element-Kept (field f) = field_element-IsContractual f
as_element-Kept (enum_value v) = record {
  name_applies = inl refl;
  number_applies = inl refl;
  number_range_applies = inr refl;
  extendee_applies = inr refl;
  is_custom_option_applies = inr refl;
}

-- Every element keeps to the contract of the Element interface: only fields, extensions and enum
-- values have a number; only extension ranges and reserved ranges have a number range, and these have
-- no name; only an extension has an extendee; and only an option is a custom option.
pub as_element-IsContractual : (v : Item) (e : Element) → as_element v ≡ some e → IsContractual e
as_element-IsContractual v e h = subst Kept h (as_element-Kept v)
