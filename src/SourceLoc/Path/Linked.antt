-- ===== src/SourceLoc/Path/Linked.antt =====
-- When PathFor of sourceloc/sourceloc.go returns a path, and when nil.
use protoreflect.Common.{
  ℕ, ◌≡◌, refl, true, false, ◌&&◌, Option, none, some, [], ◌∷◌, ◌++◌, is_some,
}
use protoreflect.Descriptor.{
  Descriptor, absent, file, message, field, oneof, enum, enum_value, service, method,
}
use protoreflect.Descriptor.Kind.{
  DescriptorKind, kind_message, kind_field, kind_oneof, kind_enum, kind_enum_value, kind_extension,
  kind_service, kind_method, kind_of,
}
use protoreflect.SourceLoc.{
  SourcePath, int32, path_loop, path_for, message_tag, field_tag, oneof_tag, enum_tag,
  enum_value_tag, service_tag, method_tag,
}
use protoreflect.SourceLoc.Path.{may_contain, is_linked}
use protoreflect.SourceLoc.Path.Tags.{
  is_some-message_tag-kind_message, is_some-field_tag-kind_extension, is_some-field_tag-kind_field,
  is_some-oneof_tag-kind_oneof, is_some-enum_tag-kind_enum, is_some-enum_value_tag-kind_enum_value,
  is_some-service_tag-kind_service, is_some-method_tag-kind_method,
}

through_tag_linked :
    (d : Descriptor) (k : DescriptorKind) (i : ℕ) (acc : SourcePath) (o : Option ℕ)
    → is_some o ≡ may_contain (kind_of d) k
    → ((acc' : SourcePath) → is_some (path_loop acc' d) ≡ is_linked d)
    → is_some {A = SourcePath}
        (elim o [ none ↦ none | some t ↦ path_loop (acc ++ int32 i ∷ t ∷ []) d ])
      ≡ (may_contain (kind_of d) k && is_linked d)
through_tag_linked d k i acc none e ih = rw (← e) refl
through_tag_linked d k i acc (some t) e ih = rw (← e) (ih (acc ++ int32 i ∷ t ∷ []))

path_loop-is_linked : (d : Descriptor) (acc : SourcePath) → is_some (path_loop acc d) ≡ is_linked d
unfolding path_loop is_linked
path_loop-is_linked absent acc = refl
path_loop-is_linked (file _) acc = refl
path_loop-is_linked (field true d i n) acc =
    through_tag_linked d kind_extension i acc (field_tag true d)
      (is_some-field_tag-kind_extension d) (path_loop-is_linked d)
path_loop-is_linked (field false d i n) acc =
    through_tag_linked d kind_field i acc (field_tag false d) (is_some-field_tag-kind_field d)
      (path_loop-is_linked d)
path_loop-is_linked (message d i n) acc =
    through_tag_linked d kind_message i acc (message_tag d) (is_some-message_tag-kind_message d)
      (path_loop-is_linked d)
path_loop-is_linked (oneof d i n) acc =
    through_tag_linked d kind_oneof i acc (oneof_tag d) (is_some-oneof_tag-kind_oneof d)
      (path_loop-is_linked d)
path_loop-is_linked (enum d i n) acc =
    through_tag_linked d kind_enum i acc (enum_tag d) (is_some-enum_tag-kind_enum d)
      (path_loop-is_linked d)
path_loop-is_linked (enum_value d i n) acc =
    through_tag_linked d kind_enum_value i acc (enum_value_tag d)
      (is_some-enum_value_tag-kind_enum_value d) (path_loop-is_linked d)
path_loop-is_linked (service d i n) acc =
    through_tag_linked d kind_service i acc (service_tag d) (is_some-service_tag-kind_service d)
      (path_loop-is_linked d)
path_loop-is_linked (method d i n) acc =
    through_tag_linked d kind_method i acc (method_tag d) (is_some-method_tag-kind_method d)
      (path_loop-is_linked d)

-- PathFor returns a path for exactly the descriptors whose parents may hold them, up to a file;
-- for every other it returns nil.
pub path_for-is_linked : (d : Descriptor) → is_some (path_for d) ≡ is_linked d
unfolding path_for
path_for-is_linked d = path_loop-is_linked d []
