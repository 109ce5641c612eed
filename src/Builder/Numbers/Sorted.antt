-- ===== src/Builder/Numbers/Sorted.antt =====
-- sort.Ints and sort.Search, as buildProto of protobuilder/enum.go uses them.
use protoreflect.Common.{
  ℕ, ◌≤◌, ◌≡◌, refl, ◌⊎◌, inl, inr, Bool, false, ◌||◌, List, [], ◌∷◌, ltb, length, drop, Bool-cases,
  arith,
}
use protoreflect.Common.Int.{ℤ, pos, negsuc, ◌<ℤ◌, ltz, eqz}
use protoreflect.Builder.Numbers.{insert_int, sort_ints, search_nonneg, drop_negative}

unfoldable pub member : ℤ → List ℤ → Bool
member r [] = false
member r (x ∷ xs) = eqz r x || member r xs

-- The numbers differ from one another.
abbrev pub Unlike : List ℤ → Type 0
Unlike [] = Unit
Unlike (x ∷ xs) = (member x xs ≡ false) × Unlike xs

-- The numbers increase strictly, from above `lo`.
abbrev pub Above : ℤ → List ℤ → Type 0
Above lo [] = Unit
Above lo (x ∷ xs) = (lo <ℤ x) × Above x xs

abbrev pub Increases : List ℤ → Type 0
Increases [] = Unit
Increases (x ∷ xs) = Above x xs

member-insert_int : (r x : ℤ) (ys : List ℤ) → member r (insert_int x ys) ≡ (eqz r x || member r ys)
unfolding member insert_int
member-insert_int r x [] = refl
member-insert_int r x (y ∷ ys) = ground (arith, member-insert_int r x ys)

pub member-sort_ints : (r : ℤ) (xs : List ℤ) → member r (sort_ints xs) ≡ member r xs
unfolding member sort_ints
member-sort_ints r [] = refl
member-sort_ints r (x ∷ xs) =
    ground (arith, member-insert_int r x (sort_ints xs), member-sort_ints r xs)

Above-insert_int :
    (lo x : ℤ) (ys : List ℤ)
    → lo <ℤ x
    → member x ys ≡ false
    → Above lo ys
    → Above lo (insert_int x ys)
unfolding member insert_int
Above-insert_int lo x [] lt fresh inc = (lt, tt)
Above-insert_int lo x (y ∷ ys) lt fresh (ly, inc) = elim (Bool-cases (ltz y x)) [
  | inl less ↦ rw less (ly, Above-insert_int y x ys (ground arith) (ground arith) inc)
  | inr more ↦ rw more (lt, (ground arith, inc))
]

Increases-insert_int :
    (x : ℤ) (ys : List ℤ) → member x ys ≡ false → Increases ys → Increases (insert_int x ys)
unfolding member insert_int
Increases-insert_int x [] fresh inc = tt
Increases-insert_int x (y ∷ ys) fresh inc = elim (Bool-cases (ltz y x)) [
  | inl less ↦ rw less (Above-insert_int y x ys (ground arith) (ground arith) inc)
  | inr more ↦ rw more (ground arith, inc)
]

-- Sorting numbers that differ gives a strictly increasing list.
pub sort_ints-Increases : (xs : List ℤ) → Unlike xs → Increases (sort_ints xs)
unfolding sort_ints
sort_ints-Increases [] u = tt
sort_ints-Increases (x ∷ xs) (fresh, u) =
    Increases-insert_int x (sort_ints xs) (ground (arith, member-sort_ints x xs))
      (sort_ints-Increases xs u)

-- Every number is negative.
abbrev pub AllNegative : List ℤ → Type 0
AllNegative [] = Unit
AllNegative (pos n ∷ xs) = ⊥
AllNegative (negsuc n ∷ xs) = AllNegative xs

pub AllNegative-member : (r : ℕ) (xs : List ℤ) → AllNegative xs → member (pos r) xs ≡ false
unfolding member
AllNegative-member r [] h = refl
AllNegative-member r (pos n ∷ xs) h = absurd h
AllNegative-member r (negsuc n ∷ xs) h = ground (arith, AllNegative-member r xs h)

-- What the assignment may assume of the tags: they increase strictly from 0, or all are negative.
abbrev pub Ready : List ℤ → Type 0
Ready tags = Above (negsuc 0) tags ⊎ AllNegative tags

abbrev dropped : List ℤ → List ℤ
dropped xs = drop (search_nonneg xs) xs

search_nonneg-le : (xs : List ℤ) → search_nonneg xs ≤ length xs
unfolding search_nonneg
search_nonneg-le [] = omega arith
search_nonneg-le (pos n ∷ xs) = omega arith
search_nonneg-le (negsuc n ∷ xs) = omega (arith, search_nonneg-le xs)

Increases-tail : (x : ℤ) (xs : List ℤ) → Increases (x ∷ xs) → Increases xs
Increases-tail x [] h = tt
Increases-tail x (y ∷ ys) (lt, h) = h

dropped-Above : (xs : List ℤ) → Increases xs → Above (negsuc 0) (dropped xs)
unfolding search_nonneg
dropped-Above [] inc = tt
dropped-Above (pos n ∷ xs) inc = (omega arith, inc)
dropped-Above (negsuc n ∷ xs) inc = dropped-Above xs (Increases-tail (negsuc n) xs inc)

member-dropped : (r : ℕ) (xs : List ℤ) → member (pos r) (dropped xs) ≡ member (pos r) xs
unfolding search_nonneg member
member-dropped r [] = refl
member-dropped r (pos n ∷ xs) = refl
member-dropped r (negsuc n ∷ xs) = ground (arith, member-dropped r xs)

all_dropped : (xs : List ℤ) → ltb (search_nonneg xs) (length xs) ≡ false → AllNegative xs
unfolding search_nonneg
all_dropped [] h = tt
all_dropped (pos n ∷ xs) h = absurd (ground arith)
all_dropped (negsuc n ∷ xs) h = all_dropped xs (ground arith)

pub drop_negative-Ready : (xs : List ℤ) → Increases xs → Ready (drop_negative xs)
unfolding drop_negative
drop_negative-Ready xs inc = elim (Bool-cases (ltb (search_nonneg xs) (length xs))) [
  | inl some_left ↦ rw some_left (inl (dropped-Above xs inc))
  | inr none_left ↦ rw none_left (inr (all_dropped xs none_left))
]

pub member-drop_negative :
    (r : ℕ) (xs : List ℤ) → member (pos r) (drop_negative xs) ≡ member (pos r) xs
unfolding drop_negative
member-drop_negative r xs = elim (Bool-cases (ltb (search_nonneg xs) (length xs))) [
  | inl some_left ↦ rw some_left (member-dropped r xs)
  | inr none_left ↦ rw none_left refl
]
