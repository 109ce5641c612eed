-- ===== src/Printer/Position/Within.antt =====
-- isSpanWithin and findExtSi of protoprint/print.go.
use protoreflect.Common.{
  ℕ, zero, suc, ◌+◌, ◌<◌, ◌≡◌, refl, ◌⊎◌, inl, inr, true, some, ◌==◌, ltb, leb, ◌||◌, ◌&&◌,
  Bool-cases, arith,
}
use protoreflect.SourceLoc.{SourceLocation, SourceLocations, zero_location, is_zero, is_subspan_of}
use protoreflect.SourceLoc.Enclosing.{IsIndexed, Follows, here, later}
use protoreflect.Printer.Position.{is_span_within, find_ext_loop, find_ext_si}

-- The location does not end before it starts.
abbrev pub IsForward : SourceLocation → Type 0
IsForward a =
    (ltb a.start_line a.end_line || a.start_line == a.end_line && leb a.start_column a.end_column)
    ≡ true

-- A forward span that IsSubspanOf places inside another is inside it for isSpanWithin too, so an
-- extension that lies in an extend block is found by the printer.
pub is_subspan_of-is_span_within :
    (a b : SourceLocation) → IsForward a → is_subspan_of a b ≡ true → is_span_within a b ≡ true
unfolding is_subspan_of is_span_within
is_subspan_of-is_span_within a b fwd h = ground arith

-- The results of findExtSi from the location `ext_si`.
pub data FindsBlock (locs : SourceLocations) (field_si ext_si : SourceLocation)
    : SourceLocation → Type 0 where
  block :
      {r : SourceLocation}
      → Follows locs ext_si r
      → is_span_within field_si r ≡ true
      → FindsBlock locs field_si ext_si r
  none_found : {r : SourceLocation} → r ≡ zero_location → FindsBlock locs field_si ext_si r

module _ (locs : SourceLocations) (ok : IsIndexed locs) (field_si start : SourceLocation) where
  find_ext_loop_at :
      (fuel i : ℕ)
      → Follows locs start (locs.get i)
      → locs.len < fuel + i
      → i < locs.len
      → (r : SourceLocation) × (find_ext_loop locs fuel field_si (locs.get i) ≡ some r)
        × FindsBlock locs field_si start r
  unfolding find_ext_loop
  find_ext_loop_at zero i fl h lt = absurd (omega arith)
  find_ext_loop_at (suc fuel) i fl h lt = elim (Bool-cases (is_span_within field_si (locs.get i))) [
    | inl inside ↦ (locs.get i, rw inside refl, block fl inside)
    | inr outside ↦ elim (ok.next_later i lt) [
      | inl last ↦ (zero_location, rw (outside, last) refl, none_found refl)
      | inr (gt, fits) ↦
          let (r, e, enc) = find_ext_loop_at fuel (locs.get i).next (later fl) (omega arith) fits in
          (r, ground arith, enc)
    ]
  ]

  find_ext_loop_from :
      ((start.next ≡ 0) ⊎ (start.next < locs.len))
      → (r : SourceLocation) × (find_ext_loop locs (suc locs.len) field_si start ≡ some r)
        × FindsBlock locs field_si start r
  unfolding find_ext_loop
  find_ext_loop_from next = elim (Bool-cases (is_span_within field_si start)) [
    | inl inside ↦ (start, rw inside refl, block here inside)
    | inr outside ↦ elim (Bool-cases (start.next == 0)) [
      | inl last ↦ (zero_location, rw (outside, last) refl, none_found refl)
      | inr more ↦
          let (r, e, enc) =
            find_ext_loop_at locs.len start.next (later here) (ground arith) (ground arith) in
          (r, ground arith, enc)
    ]
  ]

-- If `Next` leads on as protoreflect documents it, findExtSi returns within its fuel: a location
-- that the extensions' location leads to and that the field lies in, or the zero location.
pub find_ext_si_result :
    (locs : SourceLocations) (field_si ext_si : SourceLocation)
    → IsIndexed locs
    → ((ext_si.next ≡ 0) ⊎ (ext_si.next < locs.len))
    → (r : SourceLocation) × (find_ext_si locs field_si ext_si ≡ some r)
      × FindsBlock locs field_si ext_si r
unfolding find_ext_si
find_ext_si_result locs field_si ext_si ok next = elim (Bool-cases (is_zero field_si)) [
  | inl z ↦ (zero_location, rw z refl, none_found refl)
  | inr nz ↦ let (r, e, enc) = find_ext_loop_from locs ok field_si ext_si next in (r, rw nz e, enc)
]
