-- ===== src/Builder/Enum/Examples.antt =====
-- Runs of the operations of protobuilder/enum.go on two enums and three values, and the theorems at
-- these inputs.
use protoreflect.Common.{
  ◌≡◌, ◌⊎◌, refl, true, false, none, some, [], ◌∷◌, Bytes, codes, ◌==◌, if◌then◌else◌, bytes_eq,
}
use protoreflect.Common.Int.{pos}
use protoreflect.Builder.Enum.{
  EnumBuilder, EnumValueBuilder, Heap, already_contains, no_comments, is_child, get_value,
  try_add_value, try_set_name, try_remove_value, add_symbol, attach, unlink, put, write,
  remove_child, renamed_child,
}
use protoreflect.Builder.Enum.Map.{count}
use protoreflect.Builder.Enum.Invariant.{
  IsWellFormed, NothingRemoved, Removed, try_remove_value_result,
}
use protoreflect.Builder.Enum.Add.{Refused, Added, try_add_value_result}
use protoreflect.Builder.Enum.Rename.{HasNewName, KeepsName, try_set_name_result}

abbrev empty_enum : EnumBuilder
empty_enum = record {
  name = codes "Color";
  comments = no_comments;
  options = none;
  reserved_ranges = [];
  reserved_names = [];
  values = [];
  symbols = λ _. none;
}

abbrev value_named : Bytes → EnumValueBuilder
value_named n = record {
  name = n;
  parent = none;
  comments = no_comments;
  number = pos 0;
  number_set = false;
  options = none;
}

-- Value 0 is RED, value 1 is BLUE, and all others are RED too.
abbrev start : Heap
start = record {
  enums = λ _. empty_enum;
  evs = λ v. value_named (if v == 1 then codes "BLUE" else codes "RED");
}

start-IsWellFormed : IsWellFormed start
start-IsWellFormed = record {
  counted = λ e v. unfold count is_child in refl;
  symbol_of_child = λ e v c. unfold is_child in cc c;
  child_of_symbol = λ e v n s. cc s;
}

try_add_value_result_example :
    IsWellFormed (try_add_value start 7 0).0
    × (Refused start 7 0 (try_add_value start 7 0) ⊎ Added start 7 0 (try_add_value start 7 0))
try_add_value_result_example = try_add_value_result start 7 0 start-IsWellFormed

-- enum 7 holds RED
abbrev one : Heap
one = (try_add_value start 7 0).0

one-IsWellFormed : IsWellFormed one
one-IsWellFormed = (try_add_value_result start 7 0 start-IsWellFormed).0

-- and then BLUE
abbrev two : Heap
two = (try_add_value one 7 1).0

two-IsWellFormed : IsWellFormed two
two-IsWellFormed = (try_add_value_result one 7 1 one-IsWellFormed).0

two_values : ((two.enums 7).values ≡ 0 ∷ 1 ∷ []) × (get_value two 7 (codes "BLUE") ≡ some 1)
unfolding try_add_value add_symbol attach unlink put write get_value bytes_eq
two_values = (refl, refl)

-- another RED is refused
second_red : (try_add_value two 7 2).1 ≡ some already_contains
unfolding try_add_value add_symbol attach unlink put write bytes_eq
second_red = refl

try_set_name_result_example :
    IsWellFormed (try_set_name (λ _. true) two 1 (codes "RED")).0
    × (HasNewName two 1 (codes "RED") (try_set_name (λ _. true) two 1 (codes "RED"))
        ⊎ KeepsName (λ _. true) two 1 (codes "RED") (try_set_name (λ _. true) two 1 (codes "RED")))
try_set_name_result_example = try_set_name_result (λ _. true) two 1 (codes "RED") two-IsWellFormed

rename_collides : (try_set_name (λ _. true) two 1 (codes "RED")).1 ≡ some already_contains
unfolding try_set_name renamed_child is_child try_add_value add_symbol attach unlink put write
    bytes_eq
rename_collides = refl

try_remove_value_result_example :
    IsWellFormed (try_remove_value two 7 (codes "RED")).0
    × (NothingRemoved two 7 (codes "RED") (try_remove_value two 7 (codes "RED"))
        ⊎ Removed two 7 (codes "RED") (try_remove_value two 7 (codes "RED")))
try_remove_value_result_example = try_remove_value_result two 7 (codes "RED") two-IsWellFormed

red_removed : ((try_remove_value two 7 (codes "RED")).0.enums 7).values ≡ 1 ∷ []
unfolding try_remove_value remove_child try_add_value add_symbol attach unlink put write bytes_eq
red_removed = refl
