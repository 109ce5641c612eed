-- ===== src/Builder/Numbers/Assign.antt =====
-- The numbers that buildProto of protobuilder/enum.go gives out.
use protoreflect.Common.{
  ℕ, zero, suc, ◌+◌, ◌≤◌, ◌<◌, ◌≡◌, refl, ◌⊎◌, inl, inr, true, false, List, [], ◌∷◌, length, All,
  All-map, ap, Bool-cases, arith,
}
use protoreflect.Common.Int.{ℤ, pos, negsuc, ◌<ℤ◌, ltz, eqz}
use protoreflect.Builder.Numbers.{skip_taken, assign}
use protoreflect.Builder.Numbers.Sorted.{member, Above, AllNegative, AllNegative-member}

-- t - 1
abbrev pub before : ℕ → ℤ
before zero = negsuc 0
before (suc t) = pos t

Above-member :
    (lo : ℤ) (r : ℕ) (xs : List ℤ)
    → Above lo xs
    → ltz lo (pos r) ≡ false
    → member (pos r) xs ≡ false
unfolding member
Above-member lo r [] inc le = refl
Above-member lo r (x ∷ xs) (lt, inc) le = ground (arith, Above-member x r xs inc)

-- The tags from `t` on are left, or they are all negative.
abbrev pub Left : ℕ → List ℤ → Type 0
Left t tags = Above (before t) tags ⊎ AllNegative tags

-- After the inner loop `t` is not taken, and what is taken from there on is still in the list.
record Skipped (t : ℕ) (tags : List ℤ) (r : ℕ × List ℤ) : Type 0 where
  later : t ≤ r.0
  shorter : r.0 + length r.1 ≤ t + length tags
  left : Left (suc r.0) r.1
  free : member (pos r.0) tags ≡ false
  same : (n : ℕ) → r.0 ≤ n → member (pos n) r.1 ≡ false → member (pos n) tags ≡ false

Above-eq : (t : ℕ) (x : ℤ) (xs : List ℤ) → eqz (pos t) x ≡ true → Above x xs → Above (pos t) xs
Above-eq t x [] e h = tt
Above-eq t x (y ∷ ys) e (lt, h) = (ground arith, h)

not_member_cons :
    (t n : ℕ) (x : ℤ) (xs : List ℤ)
    → eqz (pos t) x ≡ true
    → suc t ≤ n
    → member (pos n) xs ≡ false
    → member (pos n) (x ∷ xs) ≡ false
unfolding member
not_member_cons t n x xs e le h = ground arith

above_fresh : (t : ℕ) (x : ℤ) → before t <ℤ x → eqz (pos t) x ≡ false → pos t <ℤ x
above_fresh zero x lt e = ground arith
above_fresh (suc t) x lt e = ground arith

not_member_below :
    (t : ℕ) (x : ℤ) (xs : List ℤ) → pos t <ℤ x → Above x xs → member (pos t) (x ∷ xs) ≡ false
unfolding member
not_member_below t x xs lt inc = ground (arith, Above-member x t xs inc)

negative_fresh : (t m : ℕ) → eqz (pos t) (negsuc m) ≡ false
negative_fresh t m = ground arith

skip_taken-Skipped : (t : ℕ) (tags : List ℤ) → Left t tags → Skipped t tags (skip_taken t tags)
unfolding skip_taken
skip_taken-Skipped t [] l = record {
  later = omega arith;
  shorter = omega arith;
  left = inl tt;
  free = unfold member in refl;
  same = λ n le h. h;
}
skip_taken-Skipped t (x ∷ xs) (inl (lt, inc)) = elim (Bool-cases (eqz (pos t) x)) [
  | inl taken ↦
      let sk = skip_taken-Skipped (suc t) xs (inl (Above-eq t x xs taken inc)) in
      rw taken (record {
        later = omega (arith, sk.later);
        shorter = omega (arith, sk.shorter);
        left = sk.left;
        free = not_member_cons t _ x xs taken sk.later sk.free;
        same = λ n le h. not_member_cons t n x xs taken (omega (arith, sk.later)) (sk.same n le h);
      })
  | inr fresh ↦
      let lt' = above_fresh t x lt fresh in
      rw fresh (record {
        later = omega arith;
        shorter = omega arith;
        left = inl (lt', inc);
        free = not_member_below t x xs lt' inc;
        same = λ n le h. h;
      })
]
skip_taken-Skipped t (pos m ∷ xs) (inr neg) = absurd neg
skip_taken-Skipped t (negsuc m ∷ xs) (inr neg) = rw (negative_fresh t m) (record {
  later = omega arith;
  shorter = omega arith;
  left = inr neg;
  free = AllNegative-member t (negsuc m ∷ xs) neg;
  same = λ n le h. h;
})

-- What the numbers given out are: from `t` on, below `top`, not taken, and strictly increasing.
pub record Given (t top : ℕ) (tags : List ℤ) (r : ℕ) : Type 0 where
  pub from : t ≤ r
  pub under : r < top
  pub free : member (pos r) tags ≡ false

abbrev pub Rises : ℕ → List ℕ → Type 0
Rises t [] = Unit
Rises t (r ∷ rs) = (t ≤ r) × Rises (suc r) rs

module _ (k t : ℕ) (tags : List ℤ) (l : Left t tags) where
  Given-later :
      (r : ℕ)
      → Given
          (suc (skip_taken t tags).0)
          (suc (skip_taken t tags).0 + length (skip_taken t tags).1 + k)
          (skip_taken t tags).1
          r
      → Given t (t + length tags + suc k) tags r
  Given-later r g =
      let sk = skip_taken-Skipped t tags l in
      record {
        from = omega (arith, sk.later, g.from);
        under = omega (arith, sk.shorter, g.under);
        free = sk.same r (omega (arith, g.from)) g.free;
      }

pub assign-Given :
    (k t : ℕ) (tags : List ℤ)
    → Left t tags
    → All (Given t (t + length tags + k) tags) (assign k t tags) × Rises t (assign k t tags)
unfolding assign
assign-Given zero t tags l = (tt, tt)
assign-Given (suc k) t tags l =
    let sk = skip_taken-Skipped t tags l in
    let (given, rises) = assign-Given k (suc (skip_taken t tags).0) (skip_taken t tags).1 sk.left in
    (
      (
        record { from = sk.later; under = omega (arith, sk.shorter); free = sk.free },
        All-map (Given-later k t tags l)
            (assign k (suc (skip_taken t tags).0) (skip_taken t tags).1) given,
      ),
      (sk.later, rises),
    )

pub length-assign : (k t : ℕ) (tags : List ℤ) → length (assign k t tags) ≡ k
unfolding assign
length-assign zero t tags = refl
length-assign (suc k) t tags =
    ap suc (length-assign k (suc (skip_taken t tags).0) (skip_taken t tags).1)
