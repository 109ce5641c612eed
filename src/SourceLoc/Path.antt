-- ===== src/SourceLoc/Path.antt =====
-- What a source path should be: the tags and indices that lead from the file to the descriptor.
-- The specification of PathFor in sourceloc/sourceloc.go; the proofs are in the modules below.
mod Tags
pub mod Linked
pub mod Read
use mathlib.Core.Option
use protoreflect.Common.{
  ℕ, ◌<◌, ◌^◌, Bool, true, false, ◌&&◌, Option, none, some, List, [], ◌∷◌, ◌++◌, ◌==◌,
  if◌then◌else◌,
}
use protoreflect.Descriptor.{
  Descriptor, absent, file, message, field, oneof, enum, enum_value, service, method,
}
use protoreflect.Descriptor.Kind.{
  DescriptorKind, kind_file, kind_message, kind_field, kind_oneof, kind_enum, kind_enum_value,
  kind_extension, kind_service, kind_method, kind_of,
}
use protoreflect.SourceLoc.{SourcePath}

-- Which kinds of element a descriptor proto holds directly.
abbrev pub may_contain : DescriptorKind → DescriptorKind → Bool
may_contain kind_file kind_message = true
may_contain kind_file kind_enum = true
may_contain kind_file kind_extension = true
may_contain kind_file kind_service = true
may_contain kind_message kind_message = true
may_contain kind_message kind_field = true
may_contain kind_message kind_oneof = true
may_contain kind_message kind_enum = true
may_contain kind_message kind_extension = true
may_contain kind_enum kind_enum_value = true
may_contain kind_service kind_method = true
may_contain _ _ = false

-- Every parent may hold its child, up to a file.
unfoldable pub is_linked : Descriptor → Bool
unfolding kind_of
is_linked absent = false
is_linked (file _) = true
is_linked (message d _ _) = may_contain (kind_of d) kind_message && is_linked d
is_linked (field true d _ _) = may_contain (kind_of d) kind_extension && is_linked d
is_linked (field false d _ _) = may_contain (kind_of d) kind_field && is_linked d
is_linked (oneof d _ _) = may_contain (kind_of d) kind_oneof && is_linked d
is_linked (enum d _ _) = may_contain (kind_of d) kind_enum && is_linked d
is_linked (enum_value d _ _) = may_contain (kind_of d) kind_enum_value && is_linked d
is_linked (service d _ _) = may_contain (kind_of d) kind_service && is_linked d
is_linked (method d _ _) = may_contain (kind_of d) kind_method && is_linked d

-- The kinds and indices that lead from the file down to the descriptor.
abbrev pub Address : Type 0
Address = List (DescriptorKind × ℕ)

unfoldable pub address : Descriptor → Address
unfolding kind_of
address absent = []
address (file _) = []
address (message d i _) = address d ++ (kind_message, i) ∷ []
address (field e d i n) = address d ++ (kind_of (field e d i n), i) ∷ []
address (oneof d i _) = address d ++ (kind_oneof, i) ∷ []
address (enum d i _) = address d ++ (kind_enum, i) ∷ []
address (enum_value d i _) = address d ++ (kind_enum_value, i) ∷ []
address (service d i _) = address d ++ (kind_service, i) ∷ []
address (method d i _) = address d ++ (kind_method, i) ∷ []

-- Every index is in the range of int32.
abbrev pub Fits : Descriptor → Type 0
Fits absent = Unit
Fits (file _) = Unit
Fits (message d i _) = (i < 2 ^ 31) × Fits d
Fits (field _ d i _) = (i < 2 ^ 31) × Fits d
Fits (oneof d i _) = (i < 2 ^ 31) × Fits d
Fits (enum d i _) = (i < 2 ^ 31) × Fits d
Fits (enum_value d i _) = (i < 2 ^ 31) × Fits d
Fits (service d i _) = (i < 2 ^ 31) × Fits d
Fits (method d i _) = (i < 2 ^ 31) × Fits d

-- The kind of element that a tag stands for in a descriptor proto, by descriptor.proto.
unfoldable pub child_kind : DescriptorKind → ℕ → Option DescriptorKind
child_kind kind_file t =
    if t == 4
    then some kind_message
    else if t == 5
    then some kind_enum
    else if t == 6
    then some kind_service
    else if t == 7
    then some kind_extension
    else none
child_kind kind_message t =
    if t == 2
    then some kind_field
    else if t == 3
    then some kind_message
    else if t == 4
    then some kind_enum
    else if t == 6
    then some kind_extension
    else if t == 8
    then some kind_oneof
    else none
child_kind kind_enum t = if t == 2 then some kind_enum_value else none
child_kind kind_service t = if t == 2 then some kind_method else none
child_kind _ _ = none

-- Reads a source path below an element of the given kind.
unfoldable pub read_path : DescriptorKind → SourcePath → Option Address
read_path k [] = some []
read_path k (t ∷ []) = none
read_path k (t ∷ i ∷ rest) = elim (child_kind k t) [
  | none ↦ none
  | some k' ↦ Option.map (λ (a : Address). (k', i) ∷ a) (read_path k' rest)
]
