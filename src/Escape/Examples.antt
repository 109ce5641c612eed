-- ===== src/Escape/Examples.antt =====
-- The bytes 10, 39, 0 and 65 escaped.
use protoreflect.Common.{◌≡◌, refl, some, [], ◌∷◌, Bytes, All, codes, arith}
use protoreflect.Escape.{
  encode_default_bytes, encode_byte, quoted_bytes, quote_loop, quote_byte, other_byte, octal_escape,
}
use protoreflect.Escape.Read.{unescape, unquote}
use protoreflect.Escape.RoundTrip.{IsByte, unescape-encode_default_bytes, unquote-quoted_bytes}

abbrev few_bytes : Bytes
few_bytes = 10 ∷ 39 ∷ 0 ∷ 65 ∷ []

few_bytes-IsByte : All IsByte few_bytes
few_bytes-IsByte = (omega arith, (omega arith, (omega arith, (omega arith, tt))))

few_bytes_escaped : encode_default_bytes few_bytes ≡ codes "\\n\\'\\000A"
unfolding encode_default_bytes encode_byte other_byte octal_escape
few_bytes_escaped = refl

unescape-encode_default_bytes_example : unescape (encode_default_bytes few_bytes) ≡ some few_bytes
unescape-encode_default_bytes_example = unescape-encode_default_bytes few_bytes few_bytes-IsByte

few_bytes_quoted : quoted_bytes few_bytes ≡ codes "\"\\n'\\000A\""
unfolding quoted_bytes quote_loop quote_byte other_byte octal_escape
few_bytes_quoted = refl

unquote-quoted_bytes_example : unquote (quoted_bytes few_bytes) ≡ some few_bytes
unquote-quoted_bytes_example = unquote-quoted_bytes few_bytes few_bytes-IsByte
