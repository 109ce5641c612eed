-- ===== src/Builder/Message/Optional.antt =====
-- processProto3OptionalFields of protobuilder/message.go: every proto3 optional field of a message
-- gets a oneof of its own, under a name that nothing in the message has.
use protoreflect.Common.{
  ℕ, zero, suc, ◌≤◌, ◌<◌, ◌≡◌, refl, ap, Bool, true, false, ◌||◌, Option, none, some, List, [], ◌∷◌,
  ◌++◌, map, Bytes, leb, if◌then◌else◌, bytes_eq, bytes_eq_iff, has_prefix, length, Bool-cases, inl,
  inr, arith,
}
use protoreflect.Common.Int.{ℤ}
use protoreflect.Builder.Numbers.{to_int32}

-- What the function reads and writes of a FieldDescriptorProto.
pub record FieldProto : Type 0 where
  pub name : Bytes
  pub proto3_optional : Bool
  pub oneof_index : Option ℤ

-- What it reads of an EnumDescriptorProto.
pub record EnumNames : Type 0 where
  pub name : Bytes
  pub values : List Bytes

-- What it reads and writes of a DescriptorProto: lists of names, but for the fields and enums.
pub record MessageProto : Type 0 where
  pub fields : List FieldProto
  pub oneof_decls : List Bytes
  pub extensions : List Bytes
  pub enum_types : List EnumNames
  pub nested_types : List Bytes
  pub reserved_names : List Bytes

-- _, ok := allNames[name]
unfoldable pub has : List Bytes → Bytes → Bool
has [] name = false
has (n ∷ ns) name = bytes_eq name n || has ns name

unfoldable pub enum_names : List EnumNames → List Bytes
enum_names [] = []
enum_names (e ∷ es) = e.name ∷ e.values ++ enum_names es

-- The names that are taken, in the order in which they are put into allNames.
unfoldable pub all_names : MessageProto → List Bytes
unfolding enum_names
all_names msgd =
    map (λ fd. fd.name) msgd.fields
    ++ msgd.oneof_decls
    ++ msgd.extensions
    ++ enum_names msgd.enum_types
    ++ msgd.nested_types
    ++ msgd.reserved_names

-- if !strings.HasPrefix(ooName, "_") { ooName = "_" + ooName }
unfoldable pub oneof_name : Bytes → Bytes
oneof_name name = if has_prefix name (95 ∷ []) then name else 95 ∷ name

-- The loop that puts an X before the name until it is free. `none` is for no fuel left.
unfoldable pub free_name : ℕ → List Bytes → Bytes → Option Bytes
unfolding has
free_name zero names name = none
free_name (suc fuel) names name =
    let longer = free_name fuel names (88 ∷ name) in if has names name then longer else some name

-- if allNames == nil { allNames = ... }
abbrev pub cached_names : List Bytes → Option (List Bytes) → List Bytes
cached_names all cache = elim cache [ none ↦ all | some names ↦ names ]

-- A field and its oneof before those of the other fields.
abbrev pub with_first :
    FieldProto → Option (List FieldProto × List Bytes) → Option (List FieldProto × List Bytes)
with_first fd rest = elim rest [ none ↦ none | some r ↦ some (fd ∷ r.0, r.1) ]

-- The loop over the fields: the fields and the oneofs behind it.
unfoldable pub process_loop :
    List Bytes
    → Option (List Bytes)
    → List Bytes
    → List FieldProto
    → Option (List FieldProto × List Bytes)
unfolding free_name oneof_name
process_loop all cache oneofs [] = some ([], oneofs)
process_loop all cache oneofs (fd ∷ fds) =
    let names = cached_names all cache in
    let plain = with_first fd (process_loop all cache oneofs fds) in
    let given : Option (List FieldProto × List Bytes) =
      elim (free_name (suc (length names)) names (oneof_name fd.name)) [
        | none ↦ none
        | some n ↦
            with_first (record fd { oneof_index = some (to_int32 (length oneofs)) })
              (process_loop all (some (n ∷ names)) (oneofs ++ n ∷ []) fds)
      ] in
    if fd.proto3_optional then given else plain

-- processProto3OptionalFields
unfoldable pub process_proto3_optional_fields : MessageProto → Option MessageProto
unfolding process_loop all_names
process_proto3_optional_fields msgd =
    elim (process_loop (all_names msgd) none msgd.oneof_decls msgd.fields) [
      | none ↦ none
      | some r ↦ some (record msgd { fields = r.0; oneof_decls = r.1 })
    ]

-- How many names are at least so long.
unfoldable pub count_long : ℕ → List Bytes → ℕ
count_long len [] = 0
count_long len (n ∷ ns) = if leb len (length n) then suc (count_long len ns) else count_long len ns

count_long-suc : (len : ℕ) (ns : List Bytes) → count_long (suc len) ns ≤ count_long len ns
unfolding count_long
count_long-suc len [] = omega arith
count_long-suc len (n ∷ ns) = ground (arith, count_long-suc len ns)

pub count_long-length : (len : ℕ) (ns : List Bytes) → count_long len ns ≤ length ns
unfolding count_long
count_long-length len [] = omega arith
count_long-length len (n ∷ ns) = ground (arith, count_long-length len ns)

count_long-has :
    (name : Bytes) (ns : List Bytes)
    → has ns name ≡ true
    → count_long (suc (length name)) ns < count_long (length name) ns
unfolding count_long has
count_long-has name [] h = absurd (ground (arith, h))
count_long-has name (n ∷ ns) h = elim (Bool-cases (bytes_eq name n)) [
  | inl same ↦
      let e : length name ≡ length n = ap length ((bytes_eq_iff name n).0 same) in
      ground (arith, e, count_long-suc (length name) ns)
  | inr other ↦ ground (arith, count_long-has name ns (ground (arith, h, other)))
]

-- With fuel for each name that is as long, the loop ends at a free name.
pub free_name_fuel :
    (fuel : ℕ) (names : List Bytes) (name : Bytes)
    → count_long (length name) names < fuel
    → (n : Bytes) × (free_name fuel names name ≡ some n) × (has names n ≡ false)
unfolding free_name
free_name_fuel zero names name lt = absurd (omega (arith, lt))
free_name_fuel (suc fuel) names name lt = elim (Bool-cases (has names name)) [
  | inl taken ↦
      let (n, e, free) =
        free_name_fuel fuel names (88 ∷ name)
          (omega (arith, lt, count_long-has name names taken)) in
      (n, rw (taken, free_name) e, free)
  | inr free ↦ (name, rw (free, free_name) refl, free)
]
