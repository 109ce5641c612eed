-- ===== src/Builder/Numbers/Alias.antt =====
-- The loop over needNumbersAssigned of protobuilder/enum.go, when two values have the same number.
use protoreflect.Common.{ℕ, zero, suc, ◌<◌, ◌≡◌, refl, ap, List, [], ◌∷◌, arith}
use protoreflect.Common.Int.{ℤ, pos}
use protoreflect.Builder.Numbers.{skip_taken, assign}

-- t, t + 1, and so on: k numbers
abbrev pub count_up : ℕ → ℕ → List ℕ
count_up zero t = []
count_up (suc k) t = t ∷ count_up k (suc t)

skip_taken_stuck :
    (m t : ℕ) (rest : List ℤ) → m < t → skip_taken t (pos m ∷ rest) ≡ (t, pos m ∷ rest)
unfolding skip_taken
skip_taken_stuck m t rest lt = ground arith

assign_stuck : (k m t : ℕ) (rest : List ℤ) → m < t → assign k t (pos m ∷ rest) ≡ count_up k t
unfolding assign
assign_stuck zero m t rest lt = refl
assign_stuck (suc k) m t rest lt =
    rw (skip_taken_stuck m t rest lt)
      (ap (λ l. t ∷ l) (assign_stuck k m (suc t) rest (omega (arith, lt))))

skip_taken_once :
    (m : ℕ) (rest : List ℤ) → skip_taken m (pos m ∷ pos m ∷ rest) ≡ (suc m, pos m ∷ rest)
unfolding skip_taken
skip_taken_once m rest = ground arith

-- When the loop reaches a number that two values have, it passes by one of the two and stays at the
-- other: every value with no number gets the next number in turn, whatever `rest` says is taken.
pub assign_alias :
    (k m : ℕ) (rest : List ℤ) → assign k m (pos m ∷ pos m ∷ rest) ≡ count_up k (suc m)
unfolding assign
assign_alias zero m rest = refl
assign_alias (suc k) m rest =
    rw (skip_taken_once m rest)
      (ap (λ l. suc m ∷ l) (assign_stuck k m (suc (suc m)) rest (omega arith)))
