-- ===== src/Builder/Enum.antt =====
-- protobuilder/enum.go, with the base builder of protobuilder/builder.go: enums and their values.
-- The builders are shared by pointer, so they live in a heap: a pointer is a number.
pub mod Map
pub mod Invariant
pub mod Add
pub mod Renamed
pub mod Rename
pub mod Examples
use protoreflect.Common.{
  ℕ, Bool, true, false, Option, none, some, List, [], ◌∷◌, ◌++◌, Bytes, codes, ◌==◌, if◌then◌else◌,
  bytes_eq, is_some,
}
use protoreflect.Common.Int.{ℤ, pos}

-- Comments
pub record Comments : Type 0 where
  pub leading_detached_comments : List Bytes
  pub leading_comment : Bytes
  pub trailing_comment : Bytes

abbrev pub no_comments : Comments
no_comments = record { leading_detached_comments = []; leading_comment = []; trailing_comment = [] }

-- EnumBuilder, with the fields of its baseBuilder. `Options` is a pointer to a message that the
-- builder does not look into: its text, if it is not nil.
pub record EnumBuilder : Type 0 where
  pub name : Bytes
  pub comments : Comments
  pub options : Option Bytes
  pub reserved_ranges : List (ℤ × ℤ)
  pub reserved_names : List Bytes
  pub values : List ℕ
  pub symbols : Bytes → Option ℕ

-- EnumValueBuilder, with the fields of its baseBuilder. Its parent is an enum or nil.
pub record EnumValueBuilder : Type 0 where
  pub name : Bytes
  pub parent : Option ℕ
  pub comments : Comments
  pub number : ℤ
  pub number_set : Bool
  pub options : Option Bytes

pub record Heap : Type 0 where
  pub enums : ℕ → EnumBuilder
  pub evs : ℕ → EnumValueBuilder

-- Why an operation was refused.
pub data EnumError : Type 0 where
  invalid_name : EnumError
  already_contains : EnumError

-- A write through a pointer, and a write to a map under a key.
unfoldable pub write : {A : Type 0} → (ℕ → A) → ℕ → A → ℕ → A
write f p a q = if q == p then a else f q

unfoldable pub put : (Bytes → Option ℕ) → Bytes → Option ℕ → Bytes → Option ℕ
put m k o j = if bytes_eq j k then o else m j

-- *eb = eb'
abbrev pub set_enum : Heap → ℕ → EnumBuilder → Heap
set_enum h e eb = record h { enums = write h.enums e eb }

abbrev pub set_ev : Heap → ℕ → EnumValueBuilder → Heap
set_ev h v evb = record h { evs = write h.evs v evb }

-- NewEnum, NewEnumValue: `valid` is protoreflect's Name.IsValid; a bad name is a panic
unfoldable pub new_enum : (Bytes → Bool) → Bytes → Option EnumBuilder
new_enum valid name =
    if valid name
    then some (record {
      name = name;
      comments = no_comments;
      options = none;
      reserved_ranges = [];
      reserved_names = [];
      values = [];
      symbols = λ _. none;
    })
    else none

unfoldable pub new_enum_value : (Bytes → Bool) → Bytes → Option EnumValueBuilder
new_enum_value valid name =
    if valid name
    then some (record {
      name = name;
      parent = none;
      comments = no_comments;
      number = pos 0;
      number_set = false;
      options = none;
    })
    else none

-- GetValue
unfoldable pub get_value : Heap → ℕ → Bytes → Option ℕ
get_value h e name = (h.enums e).symbols name

-- addSymbol; `none` is its error
unfoldable pub add_symbol : Heap → ℕ → ℕ → Option Heap
unfolding put
add_symbol h e v =
    let eb = h.enums e in
    if is_some (eb.symbols (h.evs v).name)
    then none
    else some (set_enum h e (record eb { symbols = put eb.symbols (h.evs v).name (some v) }))

-- deleteBuilder on the values of an enum: the first of that name goes
unfoldable pub delete_builder : (ℕ → EnumValueBuilder) → Bytes → List ℕ → List ℕ
delete_builder evs name [] = []
delete_builder evs name (v ∷ vs) =
    if bytes_eq (evs v).name name then vs else v ∷ delete_builder evs name vs

-- p, ok := b.Parent().(*EnumBuilder); !ok || p != eb
unfoldable pub is_child : Heap → ℕ → ℕ → Bool
is_child h e v = elim (h.evs v).parent [ none ↦ false | some p ↦ p == e ]

-- removeChild
unfoldable pub remove_child : Heap → ℕ → ℕ → Heap
unfolding is_child delete_builder put write
remove_child h e v =
    let eb = h.enums e in
    let evb = h.evs v in
    if is_child h e v
    then set_ev
        (set_enum h e (record eb {
          values = delete_builder h.evs evb.name eb.values;
          symbols = put eb.symbols evb.name none;
        }))
        v (record evb { parent = none })
    else h

-- Unlink, on an enum value
unfoldable pub unlink : Heap → ℕ → Heap
unlink h v = elim (h.evs v).parent [ none ↦ h | some p ↦ remove_child h p v ]

-- The end of TryAddValue: setParent, and the value is appended.
unfoldable pub attach : Heap → ℕ → ℕ → Heap
unfolding write
attach h e v =
    let h1 = set_ev h v (record (h.evs v) { parent = some e }) in
    set_enum h1 e (record (h1.enums e) { values = (h1.enums e).values ++ v ∷ [] })

-- TryAddValue: the heap behind it, and its error
unfoldable pub try_add_value : Heap → ℕ → ℕ → Heap × Option EnumError
try_add_value h e v = elim (add_symbol h e v) [
  | none ↦ (h, some already_contains)
  | some h1 ↦ (attach (unlink h1 v) e v, none)
]

-- TryRemoveValue
unfoldable pub try_remove_value : Heap → ℕ → Bytes → Heap × Bool
try_remove_value h e name = elim ((h.enums e).symbols name) [
  | none ↦ (h, false)
  | some v ↦ (remove_child h e v, true)
]

-- renamedChild; `none` is its error
unfoldable pub renamed_child : Heap → ℕ → ℕ → Bytes → Option Heap
unfolding is_child
renamed_child h e v old_name =
    if is_child h e v
    then elim (add_symbol h e v) [
      | none ↦ none
      | some h1 ↦
          let eb = h1.enums e in
          some (set_enum h1 e (record eb { symbols = put eb.symbols old_name none }))
    ]
    else some h

-- The end of baseBuilder.setName: the rename is reverted if the parent refuses it.
unfoldable pub settle : Heap → ℕ → Bytes → Option Heap → Heap × Option EnumError
settle h1 v old_name none =
    (set_ev h1 v (record (h1.evs v) { name = old_name }), some already_contains)
settle h1 v old_name (some h2) = (h2, none)

unfoldable pub notify_parent : Heap → ℕ → Bytes → Option ℕ → Heap × Option EnumError
unfolding settle
notify_parent h1 v old_name none = (h1, none)
notify_parent h1 v old_name (some e) = settle h1 v old_name (renamed_child h1 e v old_name)

-- baseBuilder.setName on an enum value: `valid` is protoreflect's Name.IsValid
unfoldable pub try_set_name : (Bytes → Bool) → Heap → ℕ → Bytes → Heap × Option EnumError
unfolding notify_parent
try_set_name valid h v new_name =
    let evb = h.evs v in
    if bytes_eq new_name evb.name
    then (h, none)
    else if valid new_name
    then notify_parent (set_ev h v (record evb { name = new_name })) v evb.name evb.parent
    else (h, some invalid_name)

-- SetNumber and ClearNumber
unfoldable pub set_number : Heap → ℕ → ℤ → Heap
set_number h v number = set_ev h v (record (h.evs v) { number = number; number_set = true })

unfoldable pub clear_number : Heap → ℕ → Heap
clear_number h v = set_ev h v (record (h.evs v) { number = pos 0; number_set = false })

-- AddReservedRange, SetReservedRanges, AddReservedName, SetReservedNames
unfoldable pub add_reserved_range : Heap → ℕ → ℤ → ℤ → Heap
add_reserved_range h e start end =
    let eb = h.enums e in
    set_enum h e (record eb { reserved_ranges = eb.reserved_ranges ++ (start, end) ∷ [] })

unfoldable pub set_reserved_ranges : Heap → ℕ → List (ℤ × ℤ) → Heap
set_reserved_ranges h e ranges = set_enum h e (record (h.enums e) { reserved_ranges = ranges })

unfoldable pub add_reserved_name : Heap → ℕ → Bytes → Heap
add_reserved_name h e name =
    let eb = h.enums e in
    set_enum h e (record eb { reserved_names = eb.reserved_names ++ name ∷ [] })

unfoldable pub set_reserved_names : Heap → ℕ → List Bytes → Heap
set_reserved_names h e names = set_enum h e (record (h.enums e) { reserved_names = names })
