-- ===== src/Descriptor/Kind.antt =====
-- protoresolve/kind.go
use protoreflect.Common.{true, false, Bytes, codes}
use protoreflect.Descriptor.{
  Descriptor, absent, file, message, field, oneof, enum, enum_value, service, method,
}

-- DescriptorKind. Its other integers, which no function here returns, are left out.
pub data DescriptorKind : Type 0 where
  kind_unknown kind_file kind_message kind_field kind_oneof : DescriptorKind
  kind_enum kind_enum_value kind_extension kind_service kind_method : DescriptorKind

-- KindOf
unfoldable pub kind_of : Descriptor → DescriptorKind
kind_of absent = kind_unknown
kind_of (file p) = kind_file
kind_of (message d i n) = kind_message
kind_of (field true d i n) = kind_extension
kind_of (field false d i n) = kind_field
kind_of (oneof d i n) = kind_oneof
kind_of (enum d i n) = kind_enum
kind_of (enum_value d i n) = kind_enum_value
kind_of (service d i n) = kind_service
kind_of (method d i n) = kind_method

-- DescriptorKind.String
unfoldable pub to_string : DescriptorKind → Bytes
to_string kind_file = codes "file"
to_string kind_message = codes "message"
to_string kind_field = codes "field"
to_string kind_oneof = codes "oneof"
to_string kind_enum = codes "enum"
to_string kind_enum_value = codes "enum value"
to_string kind_extension = codes "extension"
to_string kind_service = codes "service"
to_string kind_method = codes "method"
to_string kind_unknown = codes "unknown"

-- withArticle
unfoldable pub with_article : DescriptorKind → Bytes
with_article kind_file = codes "a file"
with_article kind_message = codes "a message"
with_article kind_field = codes "a field"
with_article kind_oneof = codes "a oneof"
with_article kind_enum = codes "an enum"
with_article kind_enum_value = codes "an enum value"
with_article kind_extension = codes "an extension"
with_article kind_service = codes "a service"
with_article kind_method = codes "a method"
with_article kind_unknown = codes "unknown"
