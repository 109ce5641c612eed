-- ===== src/Remote/Options.antt =====
-- protoresolve/remotereg/converter.go: options and default values, as google.protobuf.Type has them.
pub mod Order
pub mod Default
pub mod Same
pub mod Examples
use protoreflect.Common.{
  ℕ, ◌-◌, ◌%◌, ◌^◌, Bool, true, false, not, ◌||◌, Option, none, some, List, [], ◌∷◌, ◌++◌, Bytes,
  codes, ◌==◌, if◌then◌else◌, bytes_less,
}
use protoreflect.Common.Int.{ℤ, pos, negsuc}
use protoreflect.Builder.Numbers.{to_int32}

-- protoreflect.Kind
pub data Kind : Type 0 where
  bool_kind enum_kind int32_kind sint32_kind uint32_kind int64_kind sint64_kind : Kind
  uint64_kind sfixed32_kind fixed32_kind float_kind sfixed64_kind fixed64_kind : Kind
  double_kind string_kind bytes_kind message_kind group_kind : Kind

-- A protoreflect.Value that is valid, for a field of the kind: `F` are the floats, `M` the messages.
unfoldable pub ValueOf : Type 0 → Type 0 → Kind → Type 0
ValueOf F M bool_kind = Bool
ValueOf F M enum_kind = ℤ
ValueOf F M int32_kind = ℤ
ValueOf F M sint32_kind = ℤ
ValueOf F M uint32_kind = ℕ
ValueOf F M int64_kind = ℤ
ValueOf F M sint64_kind = ℤ
ValueOf F M uint64_kind = ℕ
ValueOf F M sfixed32_kind = ℤ
ValueOf F M fixed32_kind = ℕ
ValueOf F M float_kind = F
ValueOf F M sfixed64_kind = ℤ
ValueOf F M fixed64_kind = ℕ
ValueOf F M double_kind = F
ValueOf F M string_kind = Bytes
ValueOf F M bytes_kind = Bytes
ValueOf F M message_kind = M
ValueOf F M group_kind = M

-- The proto.Message that maybeWrap returns: the message itself, or a wrapper.
pub data Wrapped (F M : Type 0) : Type 0 where
  interface_of : M → Wrapped F M
  bool_wrapper : Bool → Wrapped F M
  bytes_wrapper : Bytes → Wrapped F M
  string_wrapper : Bytes → Wrapped F M
  float_wrapper : F → Wrapped F M
  double_wrapper : F → Wrapped F M
  int32_wrapper : ℤ → Wrapped F M
  int64_wrapper : ℤ → Wrapped F M
  uint32_wrapper : ℕ → Wrapped F M
  uint64_wrapper : ℕ → Wrapped F M

-- int32(n)
unfoldable pub convert_int32 : ℤ → ℤ
unfolding to_int32
convert_int32 (pos n) = to_int32 n
convert_int32 (negsuc n) = to_int32 (2 ^ 32 - 1 - n % 2 ^ 32)

-- maybeWrap on a valid value; `float32` is the conversion of a float.
unfoldable pub wrap : {F M : Type 0} → (F → F) → (k : Kind) → ValueOf F M k → Wrapped F M
unfolding ValueOf convert_int32
wrap float32 bool_kind v = bool_wrapper v
wrap float32 enum_kind v = int32_wrapper (convert_int32 v)
wrap float32 int32_kind v = int32_wrapper (convert_int32 v)
wrap float32 sint32_kind v = int32_wrapper (convert_int32 v)
wrap float32 uint32_kind v = uint32_wrapper (v % 2 ^ 32)
wrap float32 int64_kind v = int64_wrapper v
wrap float32 sint64_kind v = int64_wrapper v
wrap float32 uint64_kind v = uint64_wrapper v
wrap float32 sfixed32_kind v = int32_wrapper (convert_int32 v)
wrap float32 fixed32_kind v = uint32_wrapper (v % 2 ^ 32)
wrap float32 float_kind v = float_wrapper (float32 v)
wrap float32 sfixed64_kind v = int64_wrapper v
wrap float32 fixed64_kind v = uint64_wrapper v
wrap float32 double_kind v = double_wrapper v
wrap float32 string_kind v = string_wrapper v
wrap float32 bytes_kind v = bytes_wrapper v
wrap float32 message_kind v = interface_of v
wrap float32 group_kind v = interface_of v

-- maybeWrap; `none` is the invalid value, and nil
unfoldable pub maybe_wrap :
    {F M : Type 0} → (F → F) → (k : Kind) → Option (ValueOf F M k) → Option (Wrapped F M)
unfolding wrap
maybe_wrap float32 k none = none
maybe_wrap float32 k (some v) = some (wrap float32 k v)

-- What a field of an options message holds: one value, a list, or the entry messages of a map.
pub data Held (F M : Type 0) (k : Kind) : Type 0 where
  single : Option (ValueOf F M k) → Held F M k
  items : List (Option (ValueOf F M k)) → Held F M k
  entries : List M → Held F M k

-- A field that is set in an options message, as Range passes it on.
pub record OptionField (F M : Type 0) : Type 0 where
  pub name : Bytes
  pub full_name : Bytes
  pub is_extension : Bool
  pub kind : Kind
  pub held : Held F M kind

-- typepb.Option, with an anypb.Any of type `A`
pub record TypeOption (A : Type 0) : Type 0 where
  pub name : Bytes
  pub value : A

-- The name of the option in singleOption.
unfoldable pub option_name : {F M : Type 0} → OptionField F M → Bytes
option_name f = if f.is_extension then f.full_name else f.name

-- strings.Contains(name, ".")
unfoldable pub contains_dot : Bytes → Bool
contains_dot [] = false
contains_dot (c ∷ s) = c == 46 || contains_dot s

-- The less of `options`, on names: normal options first, then by name.
unfoldable pub option_name_less : Bytes → Bytes → Bool
unfolding contains_dot
option_name_less a b =
    if contains_dot a
    then if contains_dot b then bytes_less a b else false
    else if contains_dot b
    then true
    else bytes_less a b

-- sort.SliceStable with this less
unfoldable pub insert_option :
    {A : Type 0} → TypeOption A → List (TypeOption A) → List (TypeOption A)
unfolding option_name_less
insert_option x [] = x ∷ []
insert_option x (y ∷ ys) =
    if option_name_less y.name x.name then y ∷ insert_option x ys else x ∷ y ∷ ys

unfoldable pub sort_options : {A : Type 0} → List (TypeOption A) → List (TypeOption A)
unfolding insert_option
sort_options [] = []
sort_options (x ∷ xs) = insert_option x (sort_options xs)

-- `marshal` is anypb.MarshalFrom, with none for an error.
module _ {F M A : Type 0} (float32 : F → F) (marshal : Wrapped F M → Option A) where
  -- The rest of singleOption, behind maybeWrap.
  unfoldable pub marshalled : Bytes → Option (Wrapped F M) → Option (TypeOption A)
  marshalled name none = none
  marshalled name (some pm) = elim (marshal pm) [
    | none ↦ none
    | some a ↦ some (record { name = name; value = a })
  ]

  -- if opt != nil { opts = append(opts, opt) }
  unfoldable pub append_opt : Option (TypeOption A) → List (TypeOption A) → List (TypeOption A)
  append_opt none opts = opts
  append_opt (some o) opts = o ∷ opts

  -- The loop of `option` over a list, with singleOption.
  unfoldable pub list_options :
      Bytes → (k : Kind) → List (Option (ValueOf F M k)) → List (TypeOption A)
  unfolding append_opt marshalled maybe_wrap
  list_options name k [] = []
  list_options name k (v ∷ vs) =
      append_opt (marshalled name (maybe_wrap float32 k v)) (list_options name k vs)

  -- The loop of `option` over the entries of a map, with singleOption.
  unfoldable pub entry_options : Bytes → List M → List (TypeOption A)
  unfolding append_opt marshalled
  entry_options name [] = []
  entry_options name (m ∷ ms) =
      append_opt (marshalled name (some (interface_of m))) (entry_options name ms)

  -- option
  unfoldable pub held_options : Bytes → (k : Kind) → Held F M k → List (TypeOption A)
  unfolding list_options entry_options append_opt marshalled maybe_wrap
  held_options name k (single v) = append_opt (marshalled name (maybe_wrap float32 k v)) []
  held_options name k (items vs) = list_options name k vs
  held_options name k (entries ms) = entry_options name ms

  unfoldable pub option : OptionField F M → List (TypeOption A)
  unfolding held_options option_name
  option f = held_options (option_name f) f.kind f.held

  -- What the callback of Range gathers.
  unfoldable pub gathered : List (OptionField F M) → List (TypeOption A)
  unfolding option
  gathered [] = []
  gathered (f ∷ fs) = option f ++ gathered fs

  -- options, on the fields in the order in which Range passes them on
  unfoldable pub options : List (OptionField F M) → List (TypeOption A)
  unfolding gathered sort_options
  options fs = sort_options (gathered fs)
