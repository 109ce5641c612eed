-- ===== src/Escape/Read.antt =====
-- How a protobuf compiler reads the escapes in a string literal, as far as the printers write them:
-- one character at a time, an octal escape having three digits.
use protoreflect.Common.{
  ℕ, ◌+◌, ◌*◌, ◌-◌, Bool, true, false, ◌&&◌, Option, none, some, [], ◌∷◌, Bytes, ltb, leb, ◌==◌,
  if◌then◌else◌,
}

pub data ReadState : Type 0 where
  plain : ReadState
  escaped : ReadState
  two_digits_left : ℕ → ReadState
  one_digit_left : ℕ → ReadState

pub data ReadStep : Type 0 where
  bad : ReadStep
  closes : ReadStep
  gives : ℕ → ReadStep
  goes : ReadState → ReadStep

abbrev pub is_octal : ℕ → Bool
is_octal c = leb 48 c && ltb c 56

unfoldable pub read_step : ReadState → ℕ → ReadStep
read_step plain c = if c == 92 then goes escaped else if c == 34 then closes else gives c
read_step escaped c =
    if c == 110
    then gives 10
    else if c == 114
    then gives 13
    else if c == 116
    then gives 9
    else if c == 34
    then gives 34
    else if c == 39
    then gives 39
    else if c == 92
    then gives 92
    else if leb 48 c && ltb c 52
    then goes (two_digits_left (c - 48))
    else bad
read_step (two_digits_left v) c =
    if is_octal c then goes (one_digit_left (v * 8 + (c - 48))) else bad
read_step (one_digit_left v) c = if is_octal c then gives (v * 8 + (c - 48)) else bad

unfoldable pub with_byte : ℕ → Option Bytes → Option Bytes
with_byte c none = none
with_byte c (some s) = some (c ∷ s)

-- The end of the text and the closing quote
unfoldable pub at_end : Bool → ReadState → Option Bytes
at_end false plain = some []
at_end _ _ = none

unfoldable pub at_quote : Bool → Bytes → Option Bytes
at_quote true [] = some []
at_quote _ _ = none

-- Reads the text from a state; `quoted` says that a quote ends it, and not the end of the text.
unfoldable pub read : Bool → ReadState → Bytes → Option Bytes
unfolding read_step with_byte at_end at_quote
read quoted st [] = at_end quoted st
read quoted st (c ∷ s) = elim (read_step st c) [
  | bad ↦ none
  | closes ↦ at_quote quoted s
  | gives b ↦ with_byte b (read quoted plain s)
  | goes st' ↦ read quoted st' s
]

-- The bytes of an unquoted text
unfoldable pub unescape : Bytes → Option Bytes
unfolding read
unescape s = read false plain s

-- The bytes of a literal in double quotes
unfoldable pub unquote : Bytes → Option Bytes
unfolding read
unquote [] = none
unquote (c ∷ s) = if c == 34 then read true plain s else none
