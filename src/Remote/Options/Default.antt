-- ===== src/Remote/Options/Default.antt =====
-- Default values as text: defaultValueString of protoresolve/remotereg/converter.go, and DefaultValue of
-- internal/fielddefault/field_default.go.
use protoreflect.Common.{
  ℕ, zero, suc, ◌+◌, ◌/◌, ◌%◌, Bool, true, false, not, ◌||◌, ◌&&◌, Option, none, some, [], ◌∷◌,
  ◌++◌, Bytes, codes, ltb, leb, ◌==◌, if◌then◌else◌,
}
use protoreflect.Common.Int.{ℤ, pos, negsuc}
use protoreflect.Escape.{octal_escape, encode_default_bytes}
use protoreflect.Remote.Options.{
  Kind, ValueOf, bool_kind, enum_kind, int32_kind, sint32_kind, uint32_kind, int64_kind,
  sint64_kind, uint64_kind, sfixed32_kind, fixed32_kind, float_kind, sfixed64_kind, fixed64_kind,
  double_kind, string_kind, bytes_kind, message_kind, group_kind,
}

-- A float64; a finite one by its bits.
pub data Float : Type 0 where
  negative_infinity : Float
  positive_infinity : Float
  not_a_number : Float
  finite : ℕ → Float

-- math.IsInf(f, -1), math.IsInf(f, +1), math.IsNaN(f)
unfoldable pub is_negative_infinity : Float → Bool
is_negative_infinity negative_infinity = true
is_negative_infinity f = false

unfoldable pub is_positive_infinity : Float → Bool
is_positive_infinity positive_infinity = true
is_positive_infinity f = false

unfoldable pub is_not_a_number : Float → Bool
is_not_a_number not_a_number = true
is_not_a_number f = false

-- strconv.FormatUint(n, 10): each round puts a digit in front, until the rest is one digit.
unfoldable pub digits : ℕ → ℕ → Bytes → Bytes
digits zero n text = text
digits (suc fuel) n text =
    let more = digits fuel (n / 10) ((48 + n % 10) ∷ text) in
    if ltb n 10 then (48 + n) ∷ text else more

unfoldable pub format_uint : ℕ → Bytes
unfolding digits
format_uint n = digits (suc n) n []

-- strconv.FormatInt(n, 10)
unfoldable pub format_int : ℤ → Bytes
unfolding format_uint
format_int (pos n) = format_uint n
format_int (negsuc n) = 45 ∷ format_uint (suc n)

-- strconv.FormatBool
unfoldable pub format_bool : Bool → Bytes
format_bool true = codes "true"
format_bool false = codes "false"

-- One round of the loop of defaultValueString over bytes
unfoldable pub default_byte : ℕ → Bytes
unfolding octal_escape
default_byte c =
    if c == 10
    then 92 ∷ 110 ∷ []
    else if c == 13
    then 92 ∷ 114 ∷ []
    else if c == 9
    then 92 ∷ 116 ∷ []
    else if c == 34
    then 92 ∷ 34 ∷ []
    else if c == 39
    then 92 ∷ 39 ∷ []
    else if c == 92
    then 92 ∷ 92 ∷ []
    else if leb 32 c && leb c 126
    then c ∷ []
    else octal_escape c

unfoldable pub default_bytes : Bytes → Bytes
unfolding default_byte
default_bytes [] = []
default_bytes (c ∷ b) = default_byte c ++ default_bytes b

-- What the two functions ask of a field. `enum_name` is the name of DefaultEnumValue, `is_optional`
-- that the cardinality is Optional, `has_message` that Message is not nil.
pub record DefaultField (M : Type 0) : Type 0 where
  pub kind : Kind
  pub has_default : Bool
  pub has_presence : Bool
  pub is_optional : Bool
  pub has_message : Bool
  pub default : Option (ValueOf Float M kind)
  pub enum_name : Bytes

-- `format_float` is strconv.FormatFloat on a finite number, with the bit size; `format_value` is the
-- format of fmt.Sprintf("%v").
module _ {M : Type 0} (format_float : ℕ → ℕ → Bytes) (format_value : M → Bytes) where
  unfoldable pub finite_text : ℕ → Float → Bytes
  finite_text size (finite bits) = format_float size bits
  finite_text size f = []

  -- The branch of defaultValueString for floats.
  unfoldable pub float_text : ℕ → Float → Bytes
  unfolding finite_text is_negative_infinity is_positive_infinity is_not_a_number
  float_text size f =
      if is_negative_infinity f
      then codes "-inf"
      else if is_positive_infinity f
      then codes "inf"
      else if is_not_a_number f
      then codes "nan"
      else finite_text size f

  -- defaultValueString, on a valid value; the last argument is evd.Name()
  unfoldable pub default_value_string : (k : Kind) → ValueOf Float M k → Bytes → Bytes
  unfolding ValueOf float_text default_bytes format_int format_uint
  default_value_string bool_kind v name = if v then codes "true" else codes "false"
  default_value_string enum_kind v name = name
  default_value_string int32_kind v name = format_int v
  default_value_string sint32_kind v name = format_int v
  default_value_string uint32_kind v name = format_uint v
  default_value_string int64_kind v name = format_int v
  default_value_string sint64_kind v name = format_int v
  default_value_string uint64_kind v name = format_uint v
  default_value_string sfixed32_kind v name = format_int v
  default_value_string fixed32_kind v name = format_uint v
  default_value_string float_kind v name = float_text 32 v
  default_value_string sfixed64_kind v name = format_int v
  default_value_string fixed64_kind v name = format_uint v
  default_value_string double_kind v name = float_text 64 v
  default_value_string string_kind v name = v
  default_value_string bytes_kind v name = default_bytes v
  default_value_string message_kind v name = []
  default_value_string group_kind v name = []

  -- The default text that descriptorAsField gives; `none` is the panic on an invalid value.
  unfoldable pub field_default : DefaultField M → Option Bytes
  unfolding default_value_string
  field_default fld =
      let text : Option Bytes = elim fld.default [
        | none ↦ none
        | some v ↦ some (default_value_string fld.kind v fld.enum_name)
      ] in
      if fld.has_default then text else some []

  -- The branch of DefaultValue for floats.
  unfoldable pub float_default : ℕ → Float → Bytes
  unfolding finite_text is_negative_infinity is_positive_infinity is_not_a_number
  float_default size f =
      if is_positive_infinity f
      then codes "inf"
      else if is_negative_infinity f
      then codes "-inf"
      else if is_not_a_number f
      then codes "nan"
      else finite_text size f

  -- The switch of DefaultValue.
  unfoldable pub default_text : (k : Kind) → ValueOf Float M k → Bytes → Bytes
  unfolding ValueOf float_default encode_default_bytes format_int format_uint format_bool
  default_text bool_kind v name = format_bool v
  default_text enum_kind v name = name
  default_text int32_kind v name = format_int v
  default_text sint32_kind v name = format_int v
  default_text uint32_kind v name = format_uint v
  default_text int64_kind v name = format_int v
  default_text sint64_kind v name = format_int v
  default_text uint64_kind v name = format_uint v
  default_text sfixed32_kind v name = format_int v
  default_text fixed32_kind v name = format_uint v
  default_text float_kind v name = float_default 32 v
  default_text sfixed64_kind v name = format_int v
  default_text fixed64_kind v name = format_uint v
  default_text double_kind v name = float_default 64 v
  default_text string_kind v name = v
  default_text bytes_kind v name = encode_default_bytes v
  default_text message_kind v name = format_value v
  default_text group_kind v name = format_value v

  -- DefaultValue
  unfoldable pub default_value : DefaultField M → Bytes
  unfolding default_text
  default_value fld =
      let text : Bytes = elim fld.default [
        | none ↦ []
        | some v ↦ default_text fld.kind v fld.enum_name
      ] in
      if not fld.has_default || not fld.has_presence || not fld.is_optional || fld.has_message
      then []
      else text
