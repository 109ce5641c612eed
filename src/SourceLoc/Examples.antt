-- ===== src/SourceLoc/Examples.antt =====
-- Runs of sourceloc/sourceloc.go on a small file, and the theorems at these inputs.
use protoreflect.Common.{
  ℕ, ◌≡◌, refl, true, false, none, some, [], ◌∷◌, arith, codes, ◌==◌, if◌then◌else◌, bytes_eq, ◌⊎◌,
}
use protoreflect.Descriptor.{Descriptor, file, message, field, enum_value}
use protoreflect.Descriptor.Kind.{kind_file}
use protoreflect.SourceLoc.{
  SourcePath, SourceLocation, SourceLocations, zero_location, is_zero, is_subspan_of,
  enclosing_loop, path_for, enclosing_parent, drop_last,
}
use protoreflect.SourceLoc.Path.{is_linked, read_path, address}
use protoreflect.SourceLoc.Path.Read.{path_for-read}
use protoreflect.SourceLoc.Enclosing.{IsIndexed, IsAlone, Encloses, enclosing_parent_result}

-- field 3 of message 1 of message 0 of a file
abbrev pub nested : Descriptor
nested =
    field false (message (message (file (codes "a.proto")) 0 (codes "Outer")) 1 (codes "Inner")) 3
      (codes "name")

-- an enum value with no enum around it
abbrev stray : Descriptor
stray = enum_value (file (codes "a.proto")) 0 (codes "ZERO")

path_for-nested : path_for nested ≡ some (4 ∷ 0 ∷ 3 ∷ 1 ∷ 2 ∷ 3 ∷ [])
unfolding path_for
path_for-nested = refl

path_for-stray : path_for stray ≡ none
unfolding path_for
path_for-stray = refl

pub nested-is_linked : is_linked nested ≡ true
unfolding is_linked
nested-is_linked = refl

path_for-read_example :
    (p : SourcePath) × (path_for nested ≡ some p) × (read_path kind_file p ≡ some (address nested))
path_for-read_example = path_for-read nested nested-is_linked (omega arith)

-- Two reserved statements of message 0: lines 2 to 2 and 5 to 6, and a name on line 5.
abbrev pub spot : SourcePath → ℕ → ℕ → ℕ → SourceLocation
spot p from to next = record {
  path = some p;
  start_line = from;
  start_column = 2;
  end_line = to;
  end_column = 20;
  leading_detached_comments = none;
  leading_comments = [];
  trailing_comments = [];
  next = next;
}

abbrev pub statement : SourcePath
statement = 4 ∷ 0 ∷ 10 ∷ []

abbrev pub third : SourcePath
third = 4 ∷ 0 ∷ 10 ∷ 2 ∷ []

abbrev pub reserved_locs : SourceLocations
reserved_locs = record {
  len = 3;
  get = λ i.
      if i == 0
      then spot statement 2 2 1
      else if i == 1
      then spot statement 5 6 0
      else spot third 5 5 0;
  by_path = λ p.
      if bytes_eq p statement
      then spot statement 2 2 1
      else if bytes_eq p third
      then spot third 5 5 0
      else zero_location;
}

second_statement : enclosing_parent reserved_locs third ≡ some (spot statement 5 6 0)
unfolding enclosing_parent enclosing_loop is_zero is_subspan_of drop_last bytes_eq
second_statement = refl

pub reserved_locs-IsIndexed : IsIndexed reserved_locs
reserved_locs-IsIndexed = record {
  next_later = λ i lt. ground arith;
  by_path_next = λ p. ground arith;
}

enclosing_parent_result_example :
    (r : SourceLocation) × (enclosing_parent reserved_locs third ≡ some r)
    × (IsAlone (reserved_locs.by_path third) (reserved_locs.by_path (drop_last third)) r
        ⊎ Encloses reserved_locs
            (reserved_locs.by_path third)
            (reserved_locs.by_path (drop_last third))
            r)
enclosing_parent_result_example =
    enclosing_parent_result reserved_locs third reserved_locs-IsIndexed
