-- ===== src/Printer/Extras.antt =====
-- protoprint/source_locs.go: source locations with extra ones, by the path keys of internal/util.go.
pub mod Keys
pub mod Put
pub mod Examples
use protoreflect.Common.{
  ℕ, ◌+◌, ◌-◌, ◌/◌, ◌%◌, ◌^◌, Bool, true, false, Option, none, some, List, [], ◌∷◌, ◌++◌, Bytes,
  ltb, if◌then◌else◌, bytes_eq, length, get_elem?, is_some,
}
use protoreflect.SourceLoc.{SourcePath, SourceLocation, SourceLocations, zero_location, is_zero}

-- PathKey: four bytes for each element, the low byte first
unfoldable pub path_key : SourcePath → Bytes
path_key [] = []
path_key (s ∷ path) = s % 256 ∷ s / 256 % 256 ∷ s / 65536 % 256 ∷ s / 16777216 % 256 ∷ path_key path

-- sourceLocations. extrasByPath points into extras, whose elements are never written again.
pub record ExtraLocations : Type 0 where
  pub base : SourceLocations
  pub extras_by_path : List (Bytes × SourceLocation)
  pub extras : List SourceLocation

-- Len
unfoldable pub extra_len : ExtraLocations → ℕ
extra_len s = s.base.len + length s.extras

-- Get; `none` is a panic
unfoldable pub extra_get : ExtraLocations → ℕ → Option SourceLocation
extra_get s i =
    if ltb i s.base.len then some (s.base.get i) else get_elem? s.extras (i - s.base.len)

-- extrasByPath[k]: the entry that was written last
unfoldable pub extra_lookup : Bytes → List (Bytes × SourceLocation) → Option SourceLocation
unfolding bytes_eq
extra_lookup k [] = none
extra_lookup k ((key, loc) ∷ entries) = if bytes_eq key k then some loc else extra_lookup k entries

unfoldable pub or_zero : Option SourceLocation → SourceLocation
or_zero none = zero_location
or_zero (some loc) = loc

-- ByPath
unfoldable pub extra_by_path : ExtraLocations → SourcePath → SourceLocation
unfolding path_key extra_lookup or_zero
extra_by_path s path =
    let loc = s.base.by_path path in
    if is_some loc.path then loc else or_zero (extra_lookup (path_key path) s.extras_by_path)

-- putIfAbsent
unfoldable pub put_if_absent : ExtraLocations → SourcePath → SourceLocation → ExtraLocations
unfolding extra_by_path is_zero
put_if_absent s path loc =
    if is_zero (extra_by_path s path)
    then record s {
      extras = s.extras ++ loc ∷ [];
      extras_by_path = (path_key path, loc) ∷ s.extras_by_path;
    }
    else s
