-- ===== src/Printer/Extras/Keys.antt =====
-- PathKey of internal/util.go.
use protoreflect.Common.{ℕ, ◌/◌, ◌%◌, ◌^◌, ◌<◌, ◌≡◌, refl, ap, ◌∙◌, [], ◌∷◌, All, arith}
use protoreflect.SourceLoc.{SourcePath}
use protoreflect.Printer.Extras.{path_key}

abbrev pub IsPattern : ℕ → Type 0
IsPattern s = s < 2 ^ 32

from_bytes :
    (s t : ℕ)
    → s < 2 ^ 32
    → t < 2 ^ 32
    → s % 256 ≡ t % 256
    → s / 256 % 256 ≡ t / 256 % 256
    → s / 65536 % 256 ≡ t / 65536 % 256
    → s / 16777216 % 256 ≡ t / 16777216 % 256
    → s ≡ t
from_bytes s t ls lt a b c d = omega (arith, ls, lt, a, b, c, d)

-- Two paths of 32-bit elements with the same key are the same path.
pub path_key_injective :
    (p q : SourcePath) → All IsPattern p → All IsPattern q → path_key p ≡ path_key q → p ≡ q
unfolding path_key
path_key_injective [] [] hp hq e = refl
path_key_injective [] (t ∷ q) hp hq e = cc e
path_key_injective (s ∷ p) [] hp hq e = cc e
path_key_injective (s ∷ p) (t ∷ q) (hs, hp) (ht, hq) e =
    ap (λ n. n ∷ p) (from_bytes s t hs ht (cc e) (cc e) (cc e) (cc e))
    ∙ ap (λ l. t ∷ l) (path_key_injective p q hp hq (cc e))
