-- ===== src/Printer/Element.antt =====
-- protoprint/sort.go: the elements that a custom sort function is given.
pub mod Contract
use protoreflect.Common.{
  ℕ, ◌-◌, ◌+◌, Bool, true, false, Option, none, some, List, [], ◌∷◌, Bytes, ltb, ◌==◌,
  if◌then◌else◌, codes, length, take, drop, has_prefix,
}
use protoreflect.Common.Int.{ℤ, pos, ◌-ℤ◌}
use protoreflect.Printer.Item.{
  Item, pkg, file_import, options, reserved_range, reserved_name, field, message, enum, enum_value,
  service, method, extension_range, FieldItem, EnumValueItem,
}

pub data ElementKind : Type 0 where
  kind_package : ElementKind
  kind_import : ElementKind
  kind_option : ElementKind
  kind_field : ElementKind
  kind_message : ElementKind
  kind_enum : ElementKind
  kind_service : ElementKind
  kind_extension_range : ElementKind
  kind_extension : ElementKind
  kind_reserved_range : ElementKind
  kind_reserved_name : ElementKind
  kind_enum_value : ElementKind
  kind_method : ElementKind

-- The Element interface; in `name`, `none` is a panic.
pub record Element : Type 0 where
  pub kind : ElementKind
  pub name : Option Bytes
  pub number : ℤ
  pub number_range : ℤ × ℤ
  pub extendee : Bytes
  pub is_custom_option : Bool

-- pkgElement
unfoldable pub pkg_element : Bytes → Element
pkg_element p = record {
  kind = kind_package;
  name = some p;
  number = pos 0;
  number_range = (pos 0, pos 0);
  extendee = [];
  is_custom_option = false;
}

-- impElement
unfoldable pub imp_element : Bytes → Element
imp_element i = record {
  kind = kind_import;
  name = some i;
  number = pos 0;
  number_range = (pos 0, pos 0);
  extendee = [];
  is_custom_option = false;
}

-- o.name[1 : len(o.name)-1], which panics on one byte
unfoldable pub without_parens : Bytes → Option Bytes
without_parens name =
    if ltb (length name) 2 then none else some (take (length name - 2) (drop 1 name))

-- optionElement
unfoldable pub option_element : Bytes → Element
unfolding without_parens has_prefix
option_element o = record {
  kind = kind_option;
  name = if has_prefix o (codes "(") then without_parens o else some o;
  number = pos 0;
  number_range = (pos 0, pos 0);
  extendee = [];
  is_custom_option = has_prefix o (codes "(");
}

-- resvdRangeElement
unfoldable pub resvd_range_element : ℤ → ℤ → Element
resvd_range_element start end = record {
  kind = kind_reserved_range;
  name = some [];
  number = pos 0;
  number_range = (start, end);
  extendee = [];
  is_custom_option = false;
}

-- resvdNameElement
unfoldable pub resvd_name_element : Bytes → Element
resvd_name_element r = record {
  kind = kind_reserved_name;
  name = some r;
  number = pos 0;
  number_range = (pos 0, pos 0);
  extendee = [];
  is_custom_option = false;
}

-- fieldElement
unfoldable pub field_element : FieldItem → Element
field_element f = record {
  kind = if f.is_extension then kind_extension else kind_field;
  name = some f.name;
  number = f.number;
  number_range = (pos 0, pos 0);
  extendee = if f.is_extension then f.containing_name else [];
  is_custom_option = false;
}

-- msgElement
unfoldable pub msg_element : Bytes → Element
msg_element m = record {
  kind = kind_message;
  name = some m;
  number = pos 0;
  number_range = (pos 0, pos 0);
  extendee = [];
  is_custom_option = false;
}

-- enumElement
unfoldable pub enum_element : Bytes → Element
enum_element e = record {
  kind = kind_enum;
  name = some e;
  number = pos 0;
  number_range = (pos 0, pos 0);
  extendee = [];
  is_custom_option = false;
}

-- enumValElement
unfoldable pub enum_val_element : EnumValueItem → Element
enum_val_element e = record {
  kind = kind_enum_value;
  name = some e.name;
  number = e.number;
  number_range = (pos 0, pos 0);
  extendee = [];
  is_custom_option = false;
}

-- svcElement
unfoldable pub svc_element : Bytes → Element
svc_element s = record {
  kind = kind_service;
  name = some s;
  number = pos 0;
  number_range = (pos 0, pos 0);
  extendee = [];
  is_custom_option = false;
}

-- methodElement
unfoldable pub method_element : Bytes → Element
method_element m = record {
  kind = kind_method;
  name = some m;
  number = pos 0;
  number_range = (pos 0, pos 0);
  extendee = [];
  is_custom_option = false;
}

-- extRangeElement
unfoldable pub ext_range_element : ℤ → ℤ → Element
ext_range_element start end = record {
  kind = kind_extension_range;
  name = some [];
  number = pos 0;
  number_range = (start, end -ℤ pos 1);
  extendee = [];
  is_custom_option = false;
}

-- asElement; v[0] panics on an empty slice
unfoldable pub as_element : Item → Option Element
unfolding pkg_element imp_element option_element resvd_range_element resvd_name_element
    field_element msg_element enum_element enum_val_element svc_element method_element
    ext_range_element
as_element (pkg v) = some (pkg_element v)
as_element (file_import v) = some (imp_element v)
as_element (options []) = none
as_element (options (v ∷ _)) = some (option_element v)
as_element (reserved_range start end) = some (resvd_range_element start end)
as_element (reserved_name v) = some (resvd_name_element v)
as_element (field v) = some (field_element v)
as_element (message v) = some (msg_element v)
as_element (enum v) = some (enum_element v)
as_element (enum_value v) = some (enum_val_element v)
as_element (service v) = some (svc_element v)
as_element (method v) = some (method_element v)
as_element (extension_range start end) = some (ext_range_element start end)
