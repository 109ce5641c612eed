-- ===== src/SourceLoc/Path/Tags.antt =====
-- The tags that PathFor of sourceloc/sourceloc.go appends are those of descriptor.proto.
use protoreflect.Common.{ℕ, ◌≡◌, refl, true, false, some, is_some, arith}
use protoreflect.Descriptor.{Descriptor, file, field}
use protoreflect.Descriptor.Kind.{
  kind_message, kind_field, kind_oneof, kind_enum, kind_enum_value, kind_extension, kind_service,
  kind_method, kind_of,
}
use protoreflect.SourceLoc.{
  message_tag, field_tag, oneof_tag, enum_tag, enum_value_tag, service_tag, method_tag,
}
use protoreflect.SourceLoc.Path.{child_kind, may_contain}

pub message_tag-kind_message :
    (d : Descriptor) (t : ℕ) → message_tag d ≡ some t → child_kind (kind_of d) t ≡ some kind_message
unfolding message_tag child_kind kind_of
message_tag-kind_message (file _) t h = ground arith
message_tag-kind_message (field true _ _ _) t h = cc
message_tag-kind_message (field false _ _ _) t h = cc
message_tag-kind_message _ t h = ground arith

pub field_tag-kind_extension :
    (d : Descriptor) (t : ℕ)
    → field_tag true d ≡ some t
    → child_kind (kind_of d) t ≡ some kind_extension
unfolding field_tag child_kind kind_of
field_tag-kind_extension (file _) t h = ground arith
field_tag-kind_extension (field true _ _ _) t h = cc
field_tag-kind_extension (field false _ _ _) t h = cc
field_tag-kind_extension _ t h = ground arith

pub field_tag-kind_field :
    (d : Descriptor) (t : ℕ)
    → field_tag false d ≡ some t
    → child_kind (kind_of d) t ≡ some kind_field
unfolding field_tag child_kind kind_of
field_tag-kind_field (file _) t h = ground arith
field_tag-kind_field (field true _ _ _) t h = cc
field_tag-kind_field (field false _ _ _) t h = cc
field_tag-kind_field _ t h = ground arith

pub oneof_tag-kind_oneof :
    (d : Descriptor) (t : ℕ) → oneof_tag d ≡ some t → child_kind (kind_of d) t ≡ some kind_oneof
unfolding oneof_tag child_kind kind_of
oneof_tag-kind_oneof (file _) t h = ground arith
oneof_tag-kind_oneof (field true _ _ _) t h = cc
oneof_tag-kind_oneof (field false _ _ _) t h = cc
oneof_tag-kind_oneof _ t h = ground arith

pub enum_tag-kind_enum :
    (d : Descriptor) (t : ℕ) → enum_tag d ≡ some t → child_kind (kind_of d) t ≡ some kind_enum
unfolding enum_tag child_kind kind_of
enum_tag-kind_enum (file _) t h = ground arith
enum_tag-kind_enum (field true _ _ _) t h = cc
enum_tag-kind_enum (field false _ _ _) t h = cc
enum_tag-kind_enum _ t h = ground arith

pub enum_value_tag-kind_enum_value :
    (d : Descriptor) (t : ℕ)
    → enum_value_tag d ≡ some t
    → child_kind (kind_of d) t ≡ some kind_enum_value
unfolding enum_value_tag child_kind kind_of
enum_value_tag-kind_enum_value (file _) t h = ground arith
enum_value_tag-kind_enum_value (field true _ _ _) t h = cc
enum_value_tag-kind_enum_value (field false _ _ _) t h = cc
enum_value_tag-kind_enum_value _ t h = ground arith

pub service_tag-kind_service :
    (d : Descriptor) (t : ℕ) → service_tag d ≡ some t → child_kind (kind_of d) t ≡ some kind_service
unfolding service_tag child_kind kind_of
service_tag-kind_service (file _) t h = ground arith
service_tag-kind_service (field true _ _ _) t h = cc
service_tag-kind_service (field false _ _ _) t h = cc
service_tag-kind_service _ t h = ground arith

pub method_tag-kind_method :
    (d : Descriptor) (t : ℕ) → method_tag d ≡ some t → child_kind (kind_of d) t ≡ some kind_method
unfolding method_tag child_kind kind_of
method_tag-kind_method (file _) t h = ground arith
method_tag-kind_method (field true _ _ _) t h = cc
method_tag-kind_method (field false _ _ _) t h = cc
method_tag-kind_method _ t h = ground arith

pub is_some-message_tag-kind_message :
    (d : Descriptor) → is_some (message_tag d) ≡ may_contain (kind_of d) kind_message
unfolding message_tag kind_of
is_some-message_tag-kind_message (file _) = refl
is_some-message_tag-kind_message (field true _ _ _) = refl
is_some-message_tag-kind_message (field false _ _ _) = refl
is_some-message_tag-kind_message _ = refl

pub is_some-field_tag-kind_extension :
    (d : Descriptor) → is_some (field_tag true d) ≡ may_contain (kind_of d) kind_extension
unfolding field_tag kind_of
is_some-field_tag-kind_extension (file _) = refl
is_some-field_tag-kind_extension (field true _ _ _) = refl
is_some-field_tag-kind_extension (field false _ _ _) = refl
is_some-field_tag-kind_extension _ = refl

pub is_some-field_tag-kind_field :
    (d : Descriptor) → is_some (field_tag false d) ≡ may_contain (kind_of d) kind_field
unfolding field_tag kind_of
is_some-field_tag-kind_field (file _) = refl
is_some-field_tag-kind_field (field true _ _ _) = refl
is_some-field_tag-kind_field (field false _ _ _) = refl
is_some-field_tag-kind_field _ = refl

pub is_some-oneof_tag-kind_oneof :
    (d : Descriptor) → is_some (oneof_tag d) ≡ may_contain (kind_of d) kind_oneof
unfolding oneof_tag kind_of
is_some-oneof_tag-kind_oneof (file _) = refl
is_some-oneof_tag-kind_oneof (field true _ _ _) = refl
is_some-oneof_tag-kind_oneof (field false _ _ _) = refl
is_some-oneof_tag-kind_oneof _ = refl

pub is_some-enum_tag-kind_enum :
    (d : Descriptor) → is_some (enum_tag d) ≡ may_contain (kind_of d) kind_enum
unfolding enum_tag kind_of
is_some-enum_tag-kind_enum (file _) = refl
is_some-enum_tag-kind_enum (field true _ _ _) = refl
is_some-enum_tag-kind_enum (field false _ _ _) = refl
is_some-enum_tag-kind_enum _ = refl

pub is_some-enum_value_tag-kind_enum_value :
    (d : Descriptor) → is_some (enum_value_tag d) ≡ may_contain (kind_of d) kind_enum_value
unfolding enum_value_tag kind_of
is_some-enum_value_tag-kind_enum_value (file _) = refl
is_some-enum_value_tag-kind_enum_value (field true _ _ _) = refl
is_some-enum_value_tag-kind_enum_value (field false _ _ _) = refl
is_some-enum_value_tag-kind_enum_value _ = refl

pub is_some-service_tag-kind_service :
    (d : Descriptor) → is_some (service_tag d) ≡ may_contain (kind_of d) kind_service
unfolding service_tag kind_of
is_some-service_tag-kind_service (file _) = refl
is_some-service_tag-kind_service (field true _ _ _) = refl
is_some-service_tag-kind_service (field false _ _ _) = refl
is_some-service_tag-kind_service _ = refl

pub is_some-method_tag-kind_method :
    (d : Descriptor) → is_some (method_tag d) ≡ may_contain (kind_of d) kind_method
unfolding method_tag kind_of
is_some-method_tag-kind_method (file _) = refl
is_some-method_tag-kind_method (field true _ _ _) = refl
is_some-method_tag-kind_method (field false _ _ _) = refl
is_some-method_tag-kind_method _ = refl
