-- ===== src/Common/Text.antt =====
-- Go strings as lists of bytes: literals, equality, prefixes and the byte-wise order.
use Prim.Native.Nat.{ℕ}
use Prim.Native.Char.{code}
use Prim.Native.String.{String}
use mathlib.Core.Path.{◌≡◌, refl, subst}
use mathlib.Core.Logic.{◌↔◌}
use mathlib.Core.Bool.{Bool, true, false, ◌&&◌}
use mathlib.Core.List.{List, [], ◌∷◌, ◌++◌}
use native.Mathlib.Omega.{arith}
use protoreflect.Common.Tests.{◌==◌, ltb, if◌then◌else◌}
use protoreflect.Common.Lists.{length, drop}

abbrev pub Bytes : Type 0
Bytes = List ℕ

-- The code points of a literal: its bytes, if it is ASCII.
abbrev pub codes : String → Bytes
codes String.[] = []
codes (String.◌∷◌ c s) = code c ∷ codes s

-- a == b on strings
unfoldable pub bytes_eq : Bytes → Bytes → Bool
bytes_eq [] [] = true
bytes_eq (x ∷ xs) (y ∷ ys) = x == y && bytes_eq xs ys
bytes_eq _ _ = false

pub bytes_eq_sound : (xs ys : Bytes) → bytes_eq xs ys ≡ true → xs ≡ ys
unfolding bytes_eq
bytes_eq_sound [] [] h = refl
bytes_eq_sound (x ∷ xs) (y ∷ ys) h = ground (arith, bytes_eq_sound xs ys)
bytes_eq_sound [] (y ∷ ys) h = cc
bytes_eq_sound (x ∷ xs) [] h = cc

pub bytes_eq_refl : (xs : Bytes) → bytes_eq xs xs ≡ true
unfolding bytes_eq
bytes_eq_refl [] = refl
bytes_eq_refl (x ∷ xs) = ground (arith, bytes_eq_refl xs)

pub bytes_eq_iff : (xs ys : Bytes) → (bytes_eq xs ys ≡ true) ↔ (xs ≡ ys)
bytes_eq_iff xs ys =
    (bytes_eq_sound xs ys, λ e. subst (λ z. bytes_eq xs z ≡ true) e (bytes_eq_refl xs))

-- a < b on strings: byte by byte, a proper prefix first
unfoldable pub bytes_less : Bytes → Bytes → Bool
bytes_less [] [] = false
bytes_less [] (y ∷ ys) = true
bytes_less (x ∷ xs) [] = false
bytes_less (x ∷ xs) (y ∷ ys) =
    let rest = bytes_less xs ys in if ltb x y then true else if ltb y x then false else rest

pub bytes_less_irrefl : (xs : Bytes) → bytes_less xs xs ≡ false
unfolding bytes_less
bytes_less_irrefl [] = refl
bytes_less_irrefl (x ∷ xs) = ground (arith, bytes_less_irrefl xs)

pub bytes_less_trans :
    (xs ys zs : Bytes) → bytes_less xs ys ≡ true → bytes_less ys zs ≡ true → bytes_less xs zs ≡ true
unfolding bytes_less
bytes_less_trans [] [] zs h k = cc
bytes_less_trans [] (y ∷ ys) [] h k = cc
bytes_less_trans [] (y ∷ ys) (z ∷ zs) h k = refl
bytes_less_trans (x ∷ xs) [] zs h k = cc
bytes_less_trans (x ∷ xs) (y ∷ ys) [] h k = cc
bytes_less_trans (x ∷ xs) (y ∷ ys) (z ∷ zs) h k = ground (arith, bytes_less_trans xs ys zs)

-- Two strings neither of which is less are the same string.
pub bytes_less_total :
    (xs ys : Bytes) → bytes_less xs ys ≡ false → bytes_less ys xs ≡ false → xs ≡ ys
unfolding bytes_less
bytes_less_total [] [] h k = refl
bytes_less_total [] (y ∷ ys) h k = cc
bytes_less_total (x ∷ xs) [] h k = cc
bytes_less_total (x ∷ xs) (y ∷ ys) h k = ground (arith, bytes_less_total xs ys)

-- strings.HasPrefix(s, prefix)
unfoldable pub has_prefix : Bytes → Bytes → Bool
has_prefix s [] = true
has_prefix [] (p ∷ ps) = false
has_prefix (c ∷ s) (p ∷ ps) = c == p && has_prefix s ps

-- `s[len(p):]` after `strings.HasPrefix(s, p)`: the prefix and the rest spell the string.
pub has_prefix-append : (s p : Bytes) → has_prefix s p ≡ true → p ++ drop (length p) s ≡ s
unfolding has_prefix
has_prefix-append s [] h = refl
has_prefix-append [] (p ∷ ps) h = cc
has_prefix-append (c ∷ s) (p ∷ ps) h = ground (arith, has_prefix-append s ps)

pub has_prefix_self : (p s : Bytes) → has_prefix (p ++ s) p ≡ true
unfolding has_prefix
has_prefix_self [] s = refl
has_prefix_self (c ∷ p) s = ground (arith, has_prefix_self p s)
