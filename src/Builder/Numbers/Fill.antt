-- ===== src/Builder/Numbers/Fill.antt =====
-- The numbers that buildProto of protobuilder/enum.go gives to the values of an enum in turn.
use protoreflect.Common.{
  ℕ, suc, ◌^◌, ◌≤◌, ◌<◌, ◌≡◌, refl, subst, ◌∙◌, inl, inr, Bool, true, false, not, ◌||◌, List, [],
  ◌∷◌, map, if◌then◌else◌, length, All, All-map, Bool-cases, arith,
}
use protoreflect.Common.Int.{ℤ, pos, ltz, eqz, eqz_iff}
use protoreflect.Builder.Enum.{EnumValueBuilder}
use protoreflect.Builder.Numbers.{to_int32, set_numbers, needed, fill}
use protoreflect.Builder.Numbers.Sorted.{member, Unlike}
use protoreflect.Builder.Numbers.Assign.{Rises}

to_int32_fits : (n : ℕ) → n < 2 ^ 31 → to_int32 n ≡ pos n
unfolding to_int32
to_int32_fits n h = ground arith

abbrev pub Fits : List ℕ → Type 0
Fits = All (λ (r : ℕ). r < 2 ^ 31)

-- No number given out is set.
abbrev Apart : List ℤ → List ℕ → Type 0
Apart taken = All (λ (r : ℕ). member (pos r) taken ≡ false)

member-fill :
    (r : ℤ) (evbs : List EnumValueBuilder) (given : List ℕ)
    → length given ≡ needed evbs
    → Fits given
    → member r (fill evbs given) ≡ (member r (set_numbers evbs) || member r (map pos given))
unfolding member fill set_numbers needed
member-fill r [] [] len fits = refl
member-fill r [] (t ∷ given) len fits = absurd (omega arith)
member-fill r (evb ∷ evbs) [] len fits = ground (arith, member-fill r evbs [])
member-fill r (evb ∷ evbs) (t ∷ given) len (fit, fits) =
    ground (arith, to_int32_fits t fit, member-fill r evbs given, member-fill r evbs (t ∷ given))

not_given :
    (x : ℤ) (taken : List ℤ) (given : List ℕ)
    → Apart taken given
    → member x taken ≡ true
    → member x (map pos given) ≡ false
unfolding member
not_given x taken [] apart m = refl
not_given x taken (t ∷ given) (a, apart) m =
    ground (arith, eqz_iff x (pos t), not_given x taken given apart m)

Apart-tail : (y : ℤ) (taken : List ℤ) (given : List ℕ) → Apart (y ∷ taken) given → Apart taken given
unfolding member
Apart-tail y taken given apart = All-map (λ r h. ground arith) given apart

Rises-member :
    (x : ℕ) (t : ℕ) (given : List ℕ)
    → Rises t given
    → x < t
    → member (pos x) (map pos given) ≡ false
unfolding member
Rises-member x t [] rises lt = refl
Rises-member x t (r ∷ given) (le, rises) lt = ground (arith, Rises-member x (suc r) given rises)

Rises-later : (t u : ℕ) (given : List ℕ) → t ≤ u → Rises u given → Rises t given
Rises-later t u [] le h = tt
Rises-later t u (r ∷ given) le (l, h) = (omega arith, h)

-- One value: with a number of its own, and without.
module _ (evb : EnumValueBuilder) (evbs : List EnumValueBuilder) where
  fill_set :
      (given : List ℕ)
      → evb.number_set ≡ true
      → fill (evb ∷ evbs) given ≡ evb.number ∷ fill evbs given
  unfolding fill
  fill_set [] e = refl
  fill_set (t ∷ given) e = rw e refl

  fill_unset :
      (t : ℕ) (given : List ℕ)
      → evb.number_set ≡ false
      → fill (evb ∷ evbs) (t ∷ given) ≡ to_int32 t ∷ fill evbs given
  unfolding fill
  fill_unset t given e = rw e refl

  numbers_set : evb.number_set ≡ true → set_numbers (evb ∷ evbs) ≡ evb.number ∷ set_numbers evbs
  unfolding set_numbers
  numbers_set e = rw e refl

  numbers_unset : evb.number_set ≡ false → set_numbers (evb ∷ evbs) ≡ set_numbers evbs
  unfolding set_numbers
  numbers_unset e = rw e refl

  needed_set : evb.number_set ≡ true → needed (evb ∷ evbs) ≡ needed evbs
  unfolding needed
  needed_set e = rw e refl

  needed_unset : evb.number_set ≡ false → needed (evb ∷ evbs) ≡ suc (needed evbs)
  unfolding needed
  needed_unset e = rw e refl

member_head : (x : ℤ) (xs : List ℤ) → member x (x ∷ xs) ≡ true
unfolding member
member_head x xs = ground arith

-- The conditions on what is given out, and what they give.
abbrev Fillable : List EnumValueBuilder → List ℕ → ℕ → Type 0
Fillable evbs given t =
    (length given ≡ needed evbs)
    × Fits given
    × Rises t given
    × Apart (set_numbers evbs) given
    × Unlike (set_numbers evbs)

module _ (evb : EnumValueBuilder) (evbs : List EnumValueBuilder) where
  Unlike-fill_set :
      (given : List ℕ) (t : ℕ)
      → evb.number_set ≡ true
      → Fillable (evb ∷ evbs) given t
      → (Fillable evbs given t → Unlike (fill evbs given))
      → Unlike (fill (evb ∷ evbs) given)
  Unlike-fill_set given t e (len, fits, rises, apart, u) ih =
      let apart' : Apart (evb.number ∷ set_numbers evbs) given =
        subst (λ ns. Apart ns given) (numbers_set evb evbs e) apart in
      let (fresh, u') = subst Unlike (numbers_set evb evbs e) u in
      let len' = len ∙ needed_set evb evbs e in
      rw (fill_set evb evbs given e) (
        rw (member-fill evb.number evbs given len' fits, fresh)
            (not_given evb.number (evb.number ∷ set_numbers evbs) given apart'
              (member_head evb.number (set_numbers evbs))),
        ih (len', fits, rises, Apart-tail evb.number (set_numbers evbs) given apart', u'),
      )

  Unlike-fill_unset :
      (r : ℕ) (given : List ℕ) (t : ℕ)
      → evb.number_set ≡ false
      → Fillable (evb ∷ evbs) (r ∷ given) t
      → (Fillable evbs given (suc r) → Unlike (fill evbs given))
      → Unlike (fill (evb ∷ evbs) (r ∷ given))
  Unlike-fill_unset r given t e (len, (fit, fits), (le, rises), apart, u) ih =
      let (free, apart') : Apart (set_numbers evbs) (r ∷ given) =
        subst (λ ns. Apart ns (r ∷ given)) (numbers_unset evb evbs e) apart in
      let u' = subst Unlike (numbers_unset evb evbs e) u in
      let len' : length given ≡ needed evbs = omega (arith, len, needed_unset evb evbs e) in
      rw (fill_unset evb evbs r given e, to_int32_fits r fit)
        (
          rw (member-fill (pos r) evbs given len' fits, free)
              (Rises-member r (suc r) given rises (omega arith)),
          ih (len', fits, rises, apart', u'),
        )

pub Unlike-fill :
    (evbs : List EnumValueBuilder) (given : List ℕ) (t : ℕ)
    → Fillable evbs given t
    → Unlike (fill evbs given)
Unlike-fill [] given t f = unfold fill in tt
Unlike-fill (evb ∷ evbs) [] t f = elim (Bool-cases evb.number_set) [
  | inl e ↦ Unlike-fill_set evb evbs [] t e f (Unlike-fill evbs [] t)
  | inr e ↦ absurd (omega (arith, f.0, needed_unset evb evbs e))
]
Unlike-fill (evb ∷ evbs) (r ∷ given) t f = elim (Bool-cases evb.number_set) [
  | inl e ↦ Unlike-fill_set evb evbs (r ∷ given) t e f (Unlike-fill evbs (r ∷ given) t)
  | inr e ↦ Unlike-fill_unset evb evbs r given t e f (Unlike-fill evbs given (suc r))
]

-- A value with a number keeps it; one with none gets one that is not negative.
abbrev pub keeps : EnumValueBuilder → ℤ → Bool
keeps evb n = if evb.number_set then eqz n evb.number else not (ltz n (pos 0))

abbrev pub Kept : List EnumValueBuilder → List ℤ → Type 0
Kept [] [] = Unit
Kept (evb ∷ evbs) (n ∷ ns) = (keeps evb n ≡ true) × Kept evbs ns
Kept _ _ = ⊥

pub Kept-fill :
    (evbs : List EnumValueBuilder) (given : List ℕ)
    → length given ≡ needed evbs
    → Fits given
    → Kept evbs (fill evbs given)
Kept-fill [] given len fits = unfold fill in tt
Kept-fill (evb ∷ evbs) [] len fits = elim (Bool-cases evb.number_set) [
  | inl e ↦
      rw (fill_set evb evbs [] e)
        (rw e (ground arith), Kept-fill evbs [] (len ∙ needed_set evb evbs e) fits)
  | inr e ↦ absurd (omega (arith, len, needed_unset evb evbs e))
]
Kept-fill (evb ∷ evbs) (r ∷ given) len fits = elim (Bool-cases evb.number_set) [
  | inl e ↦
      rw (fill_set evb evbs (r ∷ given) e)
        (rw e (ground arith), Kept-fill evbs (r ∷ given) (len ∙ needed_set evb evbs e) fits)
  | inr e ↦
      rw (fill_unset evb evbs r given e, to_int32_fits r fits.0)
        (
          rw e (ground arith),
          Kept-fill evbs given (omega (arith, len, needed_unset evb evbs e)) fits.1,
        )
]
