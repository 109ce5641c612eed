-- ===== src/Escape/RoundTrip.antt =====
-- What encodeDefaultBytes and quotedBytes write is read back as the same bytes.
use protoreflect.Common.{
  ℕ, ◌+◌, ◌*◌, ◌/◌, ◌%◌, ◌<◌, ◌≡◌, refl, sym, ap, subst, ◌∙◌, Bool, true, false, ◌&&◌, some, [],
  ◌∷◌, ◌++◌, append_assoc, Bytes, ltb, leb, ◌==◌, if◌then◌else◌, All, ==_iff, Bool-cases, inl, inr,
  arith,
}
use protoreflect.Escape.{
  octal_escape, other_byte, encode_byte, encode_default_bytes, quote_byte, quote_loop, quoted_bytes,
}
use protoreflect.Escape.Read.{
  ReadState, plain, escaped, two_digits_left, one_digit_left, gives, goes, read_step, with_byte,
  read, unescape, unquote,
}

abbrev pub IsByte : ℕ → Type 0
IsByte c = c < 256

-- A chunk of text that reads as one byte
abbrev Reads : ℕ → Bytes → Type 0
Reads c chunk =
    (quoted : Bool) (s : Bytes) → read quoted plain (chunk ++ s) ≡ with_byte c (read quoted plain s)

read_goes :
    (quoted : Bool) (st st' : ReadState) (c : ℕ) (s : Bytes)
    → read_step st c ≡ goes st'
    → read quoted st (c ∷ s) ≡ read quoted st' s
unfolding read
read_goes quoted st st' c s e = rw (read, e) refl

read_gives :
    (quoted : Bool) (st : ReadState) (c b : ℕ) (s : Bytes)
    → read_step st c ≡ gives b
    → read quoted st (c ∷ s) ≡ with_byte b (read quoted plain s)
unfolding read
read_gives quoted st c b s e = rw (read, e) refl

step_backslash : read_step plain 92 ≡ goes escaped
unfolding read_step
step_backslash = refl

step_first : (d : ℕ) → d < 4 → read_step escaped (48 + d) ≡ goes (two_digits_left d)
unfolding read_step
step_first d lt = ground arith

step_second :
    (v d : ℕ) → d < 8 → read_step (two_digits_left v) (48 + d) ≡ goes (one_digit_left (v * 8 + d))
unfolding read_step
step_second v d lt = ground arith

step_third : (v d : ℕ) → d < 8 → read_step (one_digit_left v) (48 + d) ≡ gives (v * 8 + d)
unfolding read_step
step_third v d lt = ground arith

octal_digits : (c : ℕ) → c < 256 → ((c / 64 % 8) * 8 + c / 8 % 8) * 8 + c % 8 ≡ c
octal_digits c lt = omega arith

octal_escape-Reads : (c : ℕ) → c < 256 → Reads c (octal_escape c)
unfolding octal_escape
octal_escape-Reads c lt quoted s =
    let d1 = c / 64 % 8 in
    let d2 = c / 8 % 8 in
    let d3 = c % 8 in
    read_goes quoted plain escaped 92 _ step_backslash
    ∙ read_goes quoted escaped (two_digits_left d1) (48 + d1) _ (step_first d1 (omega (arith, lt)))
    ∙ read_goes quoted (two_digits_left d1) (one_digit_left (d1 * 8 + d2)) (48 + d2) _
        (step_second d1 d2 (omega arith))
    ∙ read_gives quoted (one_digit_left (d1 * 8 + d2)) (48 + d3) _ s
        (step_third (d1 * 8 + d2) d3 (omega arith))
    ∙ ap (λ b. with_byte b (read quoted plain s)) (octal_digits c lt)

step_plain : (c : ℕ) → (c == 34) ≡ false → (c == 92) ≡ false → read_step plain c ≡ gives c
unfolding read_step
step_plain c q b = rw (b, q) refl

other_byte-Reads :
    (c : ℕ) → c < 256 → (c == 34) ≡ false → (c == 92) ≡ false → Reads c (other_byte c)
unfolding other_byte
other_byte-Reads c lt q b quoted s = elim (Bool-cases (leb 32 c && ltb c 127)) [
  | inl e ↦ rw e (read_gives quoted plain c c s (step_plain c q b))
  | inr e ↦ rw e (octal_escape-Reads c lt quoted s)
]

-- An escape of two characters
pair-Reads : (c d : ℕ) → read_step escaped d ≡ gives c → Reads c (92 ∷ d ∷ [])
pair-Reads c d e quoted s =
    read_goes quoted plain escaped 92 (d ∷ s) step_backslash ∙ read_gives quoted escaped d c s e

-- What comes behind a test for one character
Reads-if :
    (c k : ℕ) (d e : Bytes)
    → Reads k d
    → ((c == k) ≡ false → Reads c e)
    → Reads c (if c == k then d else e)
Reads-if c k d e hd he = elim (Bool-cases (c == k)) [
  | inl t ↦ rw t (subst (λ n. Reads n d) (sym ((==_iff c k).0 t)) hd)
  | inr f ↦ rw f (he f)
]

step_n : read_step escaped 110 ≡ gives 10
unfolding read_step
step_n = refl

step_r : read_step escaped 114 ≡ gives 13
unfolding read_step
step_r = refl

step_t : read_step escaped 116 ≡ gives 9
unfolding read_step
step_t = refl

step_quote : read_step escaped 34 ≡ gives 34
unfolding read_step
step_quote = refl

step_apostrophe : read_step escaped 39 ≡ gives 39
unfolding read_step
step_apostrophe = refl

step_backslashes : read_step escaped 92 ≡ gives 92
unfolding read_step
step_backslashes = refl

encode_byte-Reads : (c : ℕ) → c < 256 → Reads c (encode_byte c)
unfolding encode_byte
encode_byte-Reads c lt = Reads-if c 10 _ _ (pair-Reads 10 110 step_n) (λ _.
    Reads-if c 13 _ _ (pair-Reads 13 114 step_r) (λ _.
      Reads-if c 9 _ _ (pair-Reads 9 116 step_t) (λ _.
        Reads-if c 34 _ _ (pair-Reads 34 34 step_quote) (λ q.
          Reads-if c 39 _ _ (pair-Reads 39 39 step_apostrophe) (λ _.
            Reads-if c 92 _ _ (pair-Reads 92 92 step_backslashes)
              (λ b. other_byte-Reads c lt q b))))))

quote_byte-Reads : (c : ℕ) → c < 256 → Reads c (quote_byte c)
unfolding quote_byte
quote_byte-Reads c lt = Reads-if c 10 _ _ (pair-Reads 10 110 step_n) (λ _.
    Reads-if c 13 _ _ (pair-Reads 13 114 step_r) (λ _.
      Reads-if c 9 _ _ (pair-Reads 9 116 step_t) (λ _.
        Reads-if c 34 _ _ (pair-Reads 34 34 step_quote) (λ q.
          Reads-if c 92 _ _ (pair-Reads 92 92 step_backslashes) (λ b. other_byte-Reads c lt q b)))))

read-encode_default_bytes :
    (input : Bytes) → All IsByte input → read false plain (encode_default_bytes input) ≡ some input
unfolding encode_default_bytes read
read-encode_default_bytes [] h = refl
read-encode_default_bytes (c ∷ input) (lt, h) =
    encode_byte-Reads c lt false (encode_default_bytes input)
    ∙ rw (read-encode_default_bytes input h) refl

read-quote_loop : (s : Bytes) → All IsByte s → read true plain (quote_loop s ++ 34 ∷ []) ≡ some s
unfolding quote_loop read
read-quote_loop [] h = refl
read-quote_loop (c ∷ s) (lt, h) =
    ap (read true plain) (append_assoc (quote_byte c) (quote_loop s) (34 ∷ []))
    ∙ quote_byte-Reads c lt true (quote_loop s ++ 34 ∷ [])
    ∙ rw (read-quote_loop s h) refl

-- The text that encodeDefaultBytes writes for a bytes default is read back as the same bytes.
pub unescape-encode_default_bytes :
    (input : Bytes) → All IsByte input → unescape (encode_default_bytes input) ≡ some input
unfolding unescape
unescape-encode_default_bytes input h = read-encode_default_bytes input h

-- The literal that quotedBytes writes, its quotes included, is read back as the same bytes.
pub unquote-quoted_bytes : (s : Bytes) → All IsByte s → unquote (quoted_bytes s) ≡ some s
unfolding unquote quoted_bytes
unquote-quoted_bytes s h = read-quote_loop s h
