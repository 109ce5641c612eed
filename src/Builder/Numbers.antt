-- ===== src/Builder/Numbers.antt =====
-- protobuilder/enum.go, buildProto: the numbers of an enum's values. Values with no number get the
-- least numbers that are not negative and not taken.
pub mod Sorted
pub mod Assign
pub mod Fill
pub mod Distinct
pub mod Alias
pub mod Examples
use protoreflect.Common.{
  ℕ, zero, suc, ◌+◌, ◌-◌, ◌%◌, ◌^◌, Bool, true, false, not, Option, none, some, List, [], ◌∷◌,
  Bytes, ltb, ◌==◌, if◌then◌else◌, length, drop,
}
use protoreflect.Common.Int.{ℤ, pos, negsuc, ltz, eqz}
use protoreflect.Builder.Enum.{EnumValueBuilder, EnumBuilder}

-- int32(n) on a Go int that is not negative
unfoldable pub to_int32 : ℕ → ℤ
to_int32 n = let m = n % 2 ^ 32 in if ltb m (2 ^ 31) then pos m else negsuc (2 ^ 32 - 1 - m)

-- sort.Ints
unfoldable pub insert_int : ℤ → List ℤ → List ℤ
insert_int x [] = x ∷ []
insert_int x (y ∷ ys) = if ltz y x then y ∷ insert_int x ys else x ∷ y ∷ ys

unfoldable pub sort_ints : List ℤ → List ℤ
unfolding insert_int
sort_ints [] = []
sort_ints (x ∷ xs) = insert_int x (sort_ints xs)

-- sort.Search on a sorted slice: the least index whose number is not negative, or the length
unfoldable pub search_nonneg : List ℤ → ℕ
search_nonneg [] = 0
search_nonneg (pos n ∷ xs) = 0
search_nonneg (negsuc n ∷ xs) = suc (search_nonneg xs)

-- if ti < len(tags) { tags = tags[ti:] }
unfoldable pub drop_negative : List ℤ → List ℤ
unfolding search_nonneg
drop_negative tags =
    if ltb (search_nonneg tags) (length tags) then drop (search_nonneg tags) tags else tags

-- for len(tags) > 0 && t == tags[0]
unfoldable pub skip_taken : ℕ → List ℤ → ℕ × List ℤ
skip_taken t [] = (t, [])
skip_taken t (x ∷ xs) = if eqz (pos t) x then skip_taken (suc t) xs else (t, x ∷ xs)

-- The loop over needNumbersAssigned: the numbers that it gives out, in order.
unfoldable pub assign : ℕ → ℕ → List ℤ → List ℕ
unfolding skip_taken
assign zero t tags = []
assign (suc needed) t tags =
    let (t', tags') = skip_taken t tags in t' ∷ assign needed (suc t') tags'

-- The numbers of the values that have one, in the order of the values.
unfoldable pub set_numbers : List EnumValueBuilder → List ℤ
set_numbers [] = []
set_numbers (evb ∷ evbs) =
    if evb.number_set then evb.number ∷ set_numbers evbs else set_numbers evbs

-- len(needNumbersAssigned)
unfoldable pub needed : List EnumValueBuilder → ℕ
needed [] = 0
needed (evb ∷ evbs) = if evb.number_set then needed evbs else suc (needed evbs)

-- The numbers of the descriptor's values: a value with no number takes the next that was given out.
unfoldable pub fill : List EnumValueBuilder → List ℕ → List ℤ
fill [] given = []
fill (evb ∷ evbs) [] = evb.number ∷ fill evbs []
fill (evb ∷ evbs) (t ∷ given) =
    let keep = evb.number ∷ fill evbs (t ∷ given) in
    let take = to_int32 t ∷ fill evbs given in if evb.number_set then keep else take

-- The part of buildProto that numbers the values.
unfoldable pub build_numbers : List EnumValueBuilder → List ℤ
unfolding needed set_numbers sort_ints drop_negative assign fill
build_numbers evbs =
    let tags = drop_negative (sort_ints (set_numbers evbs)) in
    fill evbs (assign (needed evbs) 0 tags)

-- EnumValueDescriptorProto and EnumDescriptorProto, as buildProto fills them
pub record EnumValueProto : Type 0 where
  pub name : Bytes
  pub number : ℤ
  pub options : Option Bytes

pub record EnumProto : Type 0 where
  pub name : Bytes
  pub options : Option Bytes
  pub value : List EnumValueProto
  pub reserved_range : List (ℤ × ℤ)
  pub reserved_name : List Bytes

unfoldable pub number_values : List EnumValueBuilder → List ℤ → List EnumValueProto
number_values (evb ∷ evbs) (n ∷ ns) =
    record { name = evb.name; number = n; options = evb.options } ∷ number_values evbs ns
number_values _ _ = []

-- buildProto, without the comments that go to the source info
unfoldable pub build_proto : EnumBuilder → List EnumValueBuilder → EnumProto
unfolding build_numbers number_values
build_proto eb evbs = record {
  name = eb.name;
  options = eb.options;
  value = number_values evbs (build_numbers evbs);
  reserved_range = eb.reserved_ranges;
  reserved_name = eb.reserved_names;
}
