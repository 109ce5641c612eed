-- ===== src/SourceLoc/Path/Read.antt =====
-- Reading the path of PathFor (sourceloc/sourceloc.go) down from the file.
use mathlib.Core.Option
use mathlib.Core.List.{reverse, reverse-append}
use protoreflect.Common.{
  ℕ, ◌<◌, ◌^◌, ◌≡◌, refl, sym, ap, ◌∙◌, true, false, Option, none, some, [], ◌∷◌, ◌++◌, append-nil,
  append_assoc, Option-cases, inl, inr, arith,
}
use protoreflect.Descriptor.{
  Descriptor, absent, file, message, field, oneof, enum, enum_value, service, method,
}
use protoreflect.Descriptor.Kind.{
  DescriptorKind, kind_file, kind_message, kind_field, kind_oneof, kind_enum, kind_enum_value,
  kind_extension, kind_service, kind_method, kind_of,
}
use protoreflect.SourceLoc.{
  SourcePath, int32, path_loop, path_for, message_tag, field_tag, oneof_tag, enum_tag,
  enum_value_tag, service_tag, method_tag,
}
use protoreflect.SourceLoc.Path.{Address, address, is_linked, Fits, child_kind, read_path}
use protoreflect.SourceLoc.Path.Tags.{
  message_tag-kind_message, field_tag-kind_extension, field_tag-kind_field, oneof_tag-kind_oneof,
  enum_tag-kind_enum, enum_value_tag-kind_enum_value, service_tag-kind_service,
  method_tag-kind_method,
}
use protoreflect.SourceLoc.Path.Linked.{path_for-is_linked}

below : Address → Option Address → Option Address
below a o = Option.map (λ (r : Address). a ++ r) o

below-nil : (o : Option Address) → below [] o ≡ o
unfolding below
below-nil none = refl
below-nil (some a) = refl

below-cons :
    (a : Address) (s : DescriptorKind × ℕ) (o : Option Address)
    → below a (Option.map (λ (r : Address). s ∷ r) o) ≡ below (a ++ s ∷ []) o
unfolding below
below-cons a s none = refl
below-cons a s (some r) = ap some (sym (append_assoc a (s ∷ []) r))

reverse_pair : (acc : SourcePath) (i t : ℕ) → reverse (acc ++ i ∷ t ∷ []) ≡ t ∷ i ∷ reverse acc
reverse_pair acc i t = reverse-append acc (i ∷ t ∷ [])

int32_fits : (i : ℕ) → i < 2 ^ 31 → int32 i ≡ i
int32_fits i h = omega arith

read_step :
    (k k' : DescriptorKind) (t i : ℕ) (a : Address) (acc : SourcePath)
    → child_kind k t ≡ some k'
    → i < 2 ^ 31
    → below a (read_path k (reverse (acc ++ int32 i ∷ t ∷ [])))
      ≡ below (a ++ (k', i) ∷ []) (read_path k' (reverse acc))
unfolding read_path
read_step k k' t i a acc h fits =
    rw (int32_fits i fits, reverse_pair acc i t, h, read_path)
      (below-cons a (k', i) (read_path k' (reverse acc)))

-- One level of the loop, over the result of the tag's switch.
module _ (d : Descriptor) (k : DescriptorKind) (i : ℕ) (acc : SourcePath) where
  through_tag :
      (o : Option ℕ) {p : SourcePath}
      → i < 2 ^ 31
      → ((t : ℕ) → o ≡ some t → child_kind (kind_of d) t ≡ some k)
      → ((acc' p' : SourcePath)
          → path_loop acc' d ≡ some p'
          → read_path kind_file p' ≡ below (address d) (read_path (kind_of d) (reverse acc')))
      → (elim o [ none ↦ none | some t ↦ path_loop (acc ++ int32 i ∷ t ∷ []) d ]) ≡ some p
      → read_path kind_file p ≡ below (address d ++ (k, i) ∷ []) (read_path k (reverse acc))
  through_tag none fits tag ih h = cc
  through_tag (some t) {p} fits tag ih h =
      ih (acc ++ int32 i ∷ t ∷ []) p h
      ∙ read_step (kind_of d) k t i (address d) acc (tag t refl) fits

path_loop-read :
    (d : Descriptor) (acc : SourcePath) {p : SourcePath}
    → Fits d
    → path_loop acc d ≡ some p
    → read_path kind_file p ≡ below (address d) (read_path (kind_of d) (reverse acc))
unfolding path_loop address kind_of
path_loop-read absent acc f h = cc
path_loop-read (file _) acc f h = rw below-nil (cc)
path_loop-read (field true d i n) acc (lt, f) h =
    through_tag d kind_extension i acc (field_tag true d) lt (field_tag-kind_extension d)
      (λ acc' p'. path_loop-read d acc' f) h
path_loop-read (field false d i n) acc (lt, f) h =
    through_tag d kind_field i acc (field_tag false d) lt (field_tag-kind_field d)
      (λ acc' p'. path_loop-read d acc' f) h
path_loop-read (message d i n) acc (lt, f) h =
    through_tag d kind_message i acc (message_tag d) lt (message_tag-kind_message d)
      (λ acc' p'. path_loop-read d acc' f) h
path_loop-read (oneof d i n) acc (lt, f) h =
    through_tag d kind_oneof i acc (oneof_tag d) lt (oneof_tag-kind_oneof d)
      (λ acc' p'. path_loop-read d acc' f) h
path_loop-read (enum d i n) acc (lt, f) h =
    through_tag d kind_enum i acc (enum_tag d) lt (enum_tag-kind_enum d)
      (λ acc' p'. path_loop-read d acc' f) h
path_loop-read (enum_value d i n) acc (lt, f) h =
    through_tag d kind_enum_value i acc (enum_value_tag d) lt (enum_value_tag-kind_enum_value d)
      (λ acc' p'. path_loop-read d acc' f) h
path_loop-read (service d i n) acc (lt, f) h =
    through_tag d kind_service i acc (service_tag d) lt (service_tag-kind_service d)
      (λ acc' p'. path_loop-read d acc' f) h
path_loop-read (method d i n) acc (lt, f) h =
    through_tag d kind_method i acc (method_tag d) lt (method_tag-kind_method d)
      (λ acc' p'. path_loop-read d acc' f) h

-- For a linked descriptor whose indices fit in int32, PathFor returns a path, and reading that path
-- down from the file, by the tags of descriptor.proto, gives the descriptor's kinds and indices.
pub path_for-read :
    (d : Descriptor)
    → is_linked d ≡ true
    → Fits d
    → (p : SourcePath) × (path_for d ≡ some p) × (read_path kind_file p ≡ some (address d))
unfolding path_for below read_path
path_for-read d linked f = elim (Option-cases (path_for d)) [
  | inl e ↦ cc (e, path_for-is_linked d)
  | inr (p, e) ↦ (p, e, path_loop-read d [] f e ∙ ap some (append-nil (address d)))
]
