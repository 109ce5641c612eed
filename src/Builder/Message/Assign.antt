-- ===== src/Builder/Message/Assign.antt =====
-- buildProto of protobuilder/message.go: the tags of a message's fields. Fields with the number 0 get
-- the least numbers from 1 on that are not taken.
use protoreflect.Common.{
  ℕ, suc, ◌+◌, ◌≤◌, ◌<◌, ◌^◌, ◌≡◌, refl, sym, ap, ◌∙◌, subst, Bool, true, false, not, none, List,
  [], ◌∷◌, map, if◌then◌else◌, length, All, All-map, Bool-cases, inl, inr, arith,
}
use protoreflect.Common.Int.{ℤ, pos, eqz, ltz, ◌≤ℤ◌, ◌<ℤ◌}
use protoreflect.Builder.Enum.{EnumValueBuilder, no_comments}
use protoreflect.Builder.Numbers.{to_int32, sort_ints, assign, set_numbers, needed, fill}
use protoreflect.Builder.Numbers.Sorted.{
  member, Unlike, Above, Increases, member-sort_ints, sort_ints-Increases,
}
use protoreflect.Builder.Numbers.Assign.{assign-Given, length-assign}
use protoreflect.Builder.Numbers.Fill.{Fits, Unlike-fill}
use protoreflect.Builder.Numbers.Distinct.{length-sort_ints}

-- The tags that are set: tag != 0
unfoldable pub nonzero_tags : List ℤ → List ℤ
nonzero_tags [] = []
nonzero_tags (n ∷ ns) = if eqz n (pos 0) then nonzero_tags ns else n ∷ nonzero_tags ns

-- len(needTagsAssigned)
unfoldable pub zero_count : List ℤ → ℕ
zero_count [] = 0
zero_count (n ∷ ns) = if eqz n (pos 0) then suc (zero_count ns) else zero_count ns

-- The tags of the descriptor's fields: one with no number takes the next that was given out.
unfoldable pub fill_tags : List ℤ → List ℕ → List ℤ
fill_tags [] given = []
fill_tags (n ∷ ns) [] = n ∷ fill_tags ns []
fill_tags (n ∷ ns) (t ∷ given) =
    let keep = n ∷ fill_tags ns (t ∷ given) in
    let take = to_int32 t ∷ fill_tags ns given in if eqz n (pos 0) then take else keep

-- The part of buildProto that gives the fields their tags.
unfoldable pub assign_tags : List ℤ → List ℤ
unfolding nonzero_tags zero_count fill_tags
assign_tags ns = fill_tags ns (assign (zero_count ns) 1 (sort_ints (nonzero_tags ns)))

-- A field's number as that of an enum's value, of which 0 is not set.
abbrev as_value : ℤ → EnumValueBuilder
as_value n = record {
  name = [];
  parent = none;
  comments = no_comments;
  number = n;
  number_set = not (eqz n (pos 0));
  options = none;
}

set_numbers-as_value : (ns : List ℤ) → set_numbers (map as_value ns) ≡ nonzero_tags ns
unfolding set_numbers nonzero_tags
set_numbers-as_value [] = refl
set_numbers-as_value (n ∷ ns) = ground (arith, set_numbers-as_value ns)

needed-as_value : (ns : List ℤ) → needed (map as_value ns) ≡ zero_count ns
unfolding needed zero_count
needed-as_value [] = refl
needed-as_value (n ∷ ns) = ground (arith, needed-as_value ns)

fill-as_value : (ns : List ℤ) (given : List ℕ) → fill (map as_value ns) given ≡ fill_tags ns given
unfolding fill fill_tags
fill-as_value [] given = refl
fill-as_value (n ∷ ns) [] = ap (λ l. n ∷ l) (fill-as_value ns [])
fill-as_value (n ∷ ns) (t ∷ given) =
    ground (arith, fill-as_value ns given, fill-as_value ns (t ∷ given))

length-nonzero_tags : (ns : List ℤ) → length (nonzero_tags ns) + zero_count ns ≡ length ns
unfolding nonzero_tags zero_count
length-nonzero_tags [] = omega arith
length-nonzero_tags (n ∷ ns) = ground (arith, length-nonzero_tags ns)

-- No number is negative.
abbrev pub NoneNegative : List ℤ → Type 0
NoneNegative = All (λ (n : ℤ). pos 0 ≤ℤ n)

member_positive :
    (x : ℤ) (ns : List ℤ) → NoneNegative ns → member x (nonzero_tags ns) ≡ true → pos 0 <ℤ x
unfolding member nonzero_tags
member_positive x [] nn m = absurd (ground (arith, m))
member_positive x (n ∷ ns) (lo, nn) m = elim (Bool-cases (eqz n (pos 0))) [
  | inl at_zero ↦ member_positive x ns nn (ground (arith, m, at_zero))
  | inr other ↦ elim (Bool-cases (eqz x n)) [
    | inl same ↦ ground (arith, same, other, lo)
    | inr differs ↦ member_positive x ns nn (ground (arith, m, other, differs))
  ]
]

positive-Above :
    (xs : List ℤ) → Increases xs → ((x : ℤ) → member x xs ≡ true → pos 0 <ℤ x) → Above (pos 0) xs
unfolding member
positive-Above [] inc p = tt
positive-Above (x ∷ xs) inc p = (p x (ground arith), inc)

-- A field with a number keeps it; one with none gets one from 1 on.
abbrev pub keeps_tag : ℤ → ℤ → Bool
keeps_tag n k = if eqz n (pos 0) then not (ltz k (pos 1)) else eqz k n

abbrev pub TagsKept : List ℤ → List ℤ → Type 0
TagsKept [] [] = Unit
TagsKept (n ∷ ns) (k ∷ ks) = (keeps_tag n k ≡ true) × TagsKept ns ks
TagsKept _ _ = ⊥

to_int32_from : (t : ℕ) → 1 ≤ t → t < 2 ^ 31 → ltz (to_int32 t) (pos 1) ≡ false
unfolding to_int32
to_int32_from t lo hi = ground arith

abbrev FromOne : List ℕ → Type 0
FromOne = All (λ (r : ℕ). (1 ≤ r) × (r < 2 ^ 31))

fill_zero :
    (n : ℤ) (ns : List ℤ) (t : ℕ) (given : List ℕ)
    → eqz n (pos 0) ≡ true
    → fill_tags (n ∷ ns) (t ∷ given) ≡ to_int32 t ∷ fill_tags ns given
unfolding fill_tags
fill_zero n ns t given e = rw e refl

fill_nonzero :
    (n : ℤ) (ns : List ℤ) (given : List ℕ)
    → eqz n (pos 0) ≡ false
    → fill_tags (n ∷ ns) given ≡ n ∷ fill_tags ns given
unfolding fill_tags
fill_nonzero n ns [] e = refl
fill_nonzero n ns (t ∷ given) e = rw e refl

count_zero :
    (n : ℤ) (ns : List ℤ) → eqz n (pos 0) ≡ true → zero_count (n ∷ ns) ≡ suc (zero_count ns)
unfolding zero_count
count_zero n ns e = rw e refl

count_nonzero : (n : ℤ) (ns : List ℤ) → eqz n (pos 0) ≡ false → zero_count (n ∷ ns) ≡ zero_count ns
unfolding zero_count
count_nonzero n ns e = rw e refl

nil_kept : TagsKept [] (fill_tags [] [])
unfolding fill_tags
nil_kept = tt

nil_absent :
    (t : ℕ) (given : List ℕ)
    → length (t ∷ given) ≡ zero_count []
    → TagsKept [] (fill_tags [] (t ∷ given))
unfolding fill_tags zero_count
nil_absent t given len = tt

fill_tags-TagsKept :
    (ns : List ℤ) (given : List ℕ)
    → length given ≡ zero_count ns
    → FromOne given
    → TagsKept ns (fill_tags ns given)
fill_tags-TagsKept [] [] len from = nil_kept
fill_tags-TagsKept [] (t ∷ given) len from = nil_absent t given len
fill_tags-TagsKept (n ∷ ns) [] len from = elim (Bool-cases (eqz n (pos 0))) [
  | inl e ↦ absurd (omega (arith, len, count_zero n ns e))
  | inr e ↦
      rw (fill_nonzero n ns [] e)
        (rw e (ground arith), fill_tags-TagsKept ns [] (len ∙ count_nonzero n ns e) from)
]
fill_tags-TagsKept (n ∷ ns) (t ∷ given) len (from, rest) = elim (Bool-cases (eqz n (pos 0))) [
  | inl e ↦ rw (fill_zero n ns t given e) (
    rw (e, to_int32_from t from.0 from.1) refl,
    fill_tags-TagsKept ns given (omega (arith, len, count_zero n ns e)) rest,
  )
  | inr e ↦ rw (fill_nonzero n ns (t ∷ given) e) (
    rw e (ground arith),
    fill_tags-TagsKept ns (t ∷ given) (len ∙ count_nonzero n ns e) (from, rest),
  )
]

-- If no field's number is negative, the numbers other than 0 differ from one another and there are
-- fewer than 2^31 fields, then the tags of all fields of the built message differ from one another,
-- every field with a number other than 0 keeps it, and every other field gets a tag from 1 on.
pub assign_tags_result :
    (ns : List ℤ)
    → NoneNegative ns
    → Unlike (nonzero_tags ns)
    → length ns < 2 ^ 31
    → Unlike (assign_tags ns) × TagsKept ns (assign_tags ns)
unfolding assign_tags
assign_tags_result ns nn u small =
    let tags = sort_ints (nonzero_tags ns) in
    let given = assign (zero_count ns) 1 tags in
    let above =
      positive-Above tags (sort_ints-Increases (nonzero_tags ns) u)
        (λ x m. member_positive x ns nn (sym (member-sort_ints x (nonzero_tags ns)) ∙ m)) in
    let (all, rises) = assign-Given (zero_count ns) 1 tags (inl above) in
    let len = length-assign (zero_count ns) 1 tags in
    let from : FromOne given =
      All-map
        (λ r g. (
          g.from,
          omega (arith, g.under, small, length-sort_ints (nonzero_tags ns), length-nonzero_tags ns),
        ))
        given all in
    let fits : Fits given = All-map (λ r g. g.1) given from in
    (
      subst Unlike (fill-as_value ns given) (
          Unlike-fill (map as_value ns) given 1 (
            len ∙ sym (needed-as_value ns),
            fits,
            rises,
            All-map
                (λ r g.
                  ap (member (pos r)) (set_numbers-as_value ns)
                  ∙ sym (member-sort_ints (pos r) (nonzero_tags ns))
                  ∙ g.free)
                given all,
            subst Unlike (sym (set_numbers-as_value ns)) u,
          )),
      fill_tags-TagsKept ns given len from,
    )
