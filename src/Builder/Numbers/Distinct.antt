-- ===== src/Builder/Numbers/Distinct.antt =====
-- The numbers of an enum that buildProto of protobuilder/enum.go builds.
use protoreflect.Common.{
  ℕ, suc, ◌+◌, ◌^◌, ◌≤◌, ◌<◌, ◌≡◌, refl, ◌∙◌, false, List, [], ◌∷◌, length, length-drop, All-map,
  sym, arith,
}
use protoreflect.Common.Int.{ℤ, pos}
use protoreflect.Builder.Enum.{EnumValueBuilder}
use protoreflect.Builder.Numbers.{
  insert_int, sort_ints, search_nonneg, drop_negative, assign, set_numbers, needed, build_numbers,
}
use protoreflect.Builder.Numbers.Sorted.{
  member, Unlike, member-sort_ints, sort_ints-Increases, drop_negative-Ready, member-drop_negative,
}
use protoreflect.Builder.Numbers.Assign.{Given, assign-Given, length-assign}
use protoreflect.Builder.Numbers.Fill.{Fits, Kept, Kept-fill, Unlike-fill}

length-insert_int : (x : ℤ) (ys : List ℤ) → length (insert_int x ys) ≡ suc (length ys)
unfolding insert_int
length-insert_int x [] = refl
length-insert_int x (y ∷ ys) = ground (arith, length-insert_int x ys)

pub length-sort_ints : (xs : List ℤ) → length (sort_ints xs) ≡ length xs
unfolding sort_ints
length-sort_ints [] = refl
length-sort_ints (x ∷ xs) = omega (arith, length-insert_int x (sort_ints xs), length-sort_ints xs)

length-drop_negative : (xs : List ℤ) → length (drop_negative xs) ≤ length xs
unfolding drop_negative
length-drop_negative xs = ground (arith, length-drop (search_nonneg xs) xs)

length-set_numbers :
    (evbs : List EnumValueBuilder) → length (set_numbers evbs) + needed evbs ≡ length evbs
unfolding set_numbers needed
length-set_numbers [] = omega arith
length-set_numbers (evb ∷ evbs) = ground (arith, length-set_numbers evbs)

-- The tags that the loop goes through.
abbrev tags_of : List EnumValueBuilder → List ℤ
tags_of evbs = drop_negative (sort_ints (set_numbers evbs))

Given-fits :
    (evbs : List EnumValueBuilder) (r : ℕ)
    → length evbs ≤ 2 ^ 31
    → Given 0 (0 + length (tags_of evbs) + needed evbs) (tags_of evbs) r
    → r < 2 ^ 31
Given-fits evbs r small g = omega (
  arith,
  g.under,
  length-drop_negative (sort_ints (set_numbers evbs)),
  length-sort_ints (set_numbers evbs),
  length-set_numbers evbs,
)

Given-free :
    (evbs : List EnumValueBuilder) (r : ℕ)
    → Given 0 (0 + length (tags_of evbs) + needed evbs) (tags_of evbs) r
    → member (pos r) (set_numbers evbs) ≡ false
Given-free evbs r g =
    sym (
      member-drop_negative r (sort_ints (set_numbers evbs))
      ∙ member-sort_ints (pos r) (set_numbers evbs))
    ∙ g.free

-- If the numbers that are set differ from one another and there are at most 2^31 values, then all
-- numbers of the built enum differ from one another, every value that has a number keeps it, and
-- every other value gets a number that is not negative.
pub build_numbers_result :
    (evbs : List EnumValueBuilder)
    → Unlike (set_numbers evbs)
    → length evbs ≤ 2 ^ 31
    → Unlike (build_numbers evbs) × Kept evbs (build_numbers evbs)
unfolding build_numbers
build_numbers_result evbs u small =
    let tags = tags_of evbs in
    let given = assign (needed evbs) 0 tags in
    let ready =
      drop_negative-Ready (sort_ints (set_numbers evbs))
        (sort_ints-Increases (set_numbers evbs) u) in
    let (all, rises) = assign-Given (needed evbs) 0 tags ready in
    let len = length-assign (needed evbs) 0 tags in
    let fits : Fits given = All-map (λ r g. Given-fits evbs r small g) given all in
    (
      Unlike-fill evbs given 0 (len, fits, rises, All-map (Given-free evbs) given all, u),
      Kept-fill evbs given len fits,
    )
