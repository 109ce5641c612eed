-- ===== src/Escape.antt =====
-- The escapes of bytes in a .proto source: encodeDefaultBytes of internal/fielddefault/field_default.go and
-- quotedBytes of protoprint/print.go. Characters are their codes.
pub mod Read
pub mod RoundTrip
pub mod Examples
use protoreflect.Common.{
  ℕ, ◌+◌, ◌/◌, ◌%◌, Bool, true, false, ◌&&◌, List, [], ◌∷◌, ◌++◌, Bytes, ltb, leb, ◌==◌,
  if◌then◌else◌,
}

-- A backslash and the three octal digits of a byte, as `\\%03o` writes it
unfoldable pub octal_escape : ℕ → Bytes
octal_escape c = 92 ∷ (48 + c / 64 % 8) ∷ (48 + c / 8 % 8) ∷ (48 + c % 8) ∷ []

-- The default case of both loops
unfoldable pub other_byte : ℕ → Bytes
unfolding octal_escape
other_byte c = if leb 32 c && ltb c 127 then c ∷ [] else octal_escape c

-- One round of the loop of encodeDefaultBytes
unfoldable pub encode_byte : ℕ → Bytes
unfolding other_byte
encode_byte c =
    if c == 10
    then 92 ∷ 110 ∷ []
    else if c == 13
    then 92 ∷ 114 ∷ []
    else if c == 9
    then 92 ∷ 116 ∷ []
    else if c == 34
    then 92 ∷ 34 ∷ []
    else if c == 39
    then 92 ∷ 39 ∷ []
    else if c == 92
    then 92 ∷ 92 ∷ []
    else other_byte c

-- encodeDefaultBytes
unfoldable pub encode_default_bytes : Bytes → Bytes
unfolding encode_byte
encode_default_bytes [] = []
encode_default_bytes (c ∷ input) = encode_byte c ++ encode_default_bytes input

-- One round of the loop of quotedBytes, which leaves apostrophes as they are
unfoldable pub quote_byte : ℕ → Bytes
unfolding other_byte
quote_byte c =
    if c == 10
    then 92 ∷ 110 ∷ []
    else if c == 13
    then 92 ∷ 114 ∷ []
    else if c == 9
    then 92 ∷ 116 ∷ []
    else if c == 34
    then 92 ∷ 34 ∷ []
    else if c == 92
    then 92 ∷ 92 ∷ []
    else other_byte c

unfoldable pub quote_loop : Bytes → Bytes
unfolding quote_byte
quote_loop [] = []
quote_loop (c ∷ s) = quote_byte c ++ quote_loop s

-- quotedBytes
unfoldable pub quoted_bytes : Bytes → Bytes
unfolding quote_loop
quoted_bytes s = 34 ∷ quote_loop s ++ 34 ∷ []
