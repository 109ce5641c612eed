-- ===== src/SourceLoc/Enclosing.antt =====
-- enclosingParent of sourceloc/sourceloc.go: the walk along `Next` ends, and what it finds.
use protoreflect.Common.{
  ℕ, zero, suc, ◌+◌, ◌<◌, ◌≡◌, refl, ◌⊎◌, inl, inr, true, some, arith, Bool-cases, ◌==◌,
}
use protoreflect.SourceLoc.{
  SourcePath, SourceLocation, SourceLocations, zero_location, is_zero, is_subspan_of,
  enclosing_loop, enclosing_parent, drop_last,
}

-- What protoreflect documents of `Next`: zero, or the index of a later location with the same path.
-- ByPath returns such a location, or the zero value.
pub record IsIndexed (locs : SourceLocations) : Type 0 where
  pub next_later :
      (i : ℕ)
      → i < locs.len
      → ((locs.get i).next ≡ 0) ⊎ ((i < (locs.get i).next) × ((locs.get i).next < locs.len))
  pub by_path_next :
      (p : SourcePath) → ((locs.by_path p).next ≡ 0) ⊎ ((locs.by_path p).next < locs.len)

-- The locations that the walk may come to: a location and those that its `Next` leads to.
pub data Follows (locs : SourceLocations) (start : SourceLocation) : SourceLocation → Type 0 where
  here : Follows locs start start
  later : {l : SourceLocation} → Follows locs start l → Follows locs start (locs.get l.next)

-- The results of the walk from `start` for `loc`.
pub data Encloses (locs : SourceLocations) (loc start : SourceLocation)
    : SourceLocation → Type 0 where
  found :
      {r : SourceLocation}
      → Follows locs start r
      → is_subspan_of loc r ≡ true
      → Encloses locs loc start r
  nowhere : {r : SourceLocation} → r ≡ zero_location → Encloses locs loc start r

module _ (locs : SourceLocations) (ok : IsIndexed locs) (loc start : SourceLocation) where
  -- From the location at `i` the rest of the list bounds the walk.
  enclosing_loop_at :
      (fuel i : ℕ)
      → Follows locs start (locs.get i)
      → locs.len < fuel + i
      → i < locs.len
      → (r : SourceLocation) × (enclosing_loop locs fuel loc (locs.get i) ≡ some r)
        × Encloses locs loc start r
  unfolding enclosing_loop
  enclosing_loop_at zero i fl h lt = absurd (omega arith)
  enclosing_loop_at (suc fuel) i fl h lt = elim (Bool-cases (is_subspan_of loc (locs.get i))) [
    | inl inside ↦ (locs.get i, rw inside refl, found fl inside)
    | inr outside ↦ elim (ok.next_later i lt) [
      | inl last ↦ (zero_location, rw (outside, last) refl, nowhere refl)
      | inr (gt, fits) ↦
          let (r, e, enc) =
            enclosing_loop_at fuel (locs.get i).next (later fl) (omega arith) fits in
          (r, ground arith, enc)
    ]
  ]

  -- The first round is at the location that ByPath returned.
  enclosing_loop_from :
      ((start.next ≡ 0) ⊎ (start.next < locs.len))
      → (r : SourceLocation) × (enclosing_loop locs (suc locs.len) loc start ≡ some r)
        × Encloses locs loc start r
  unfolding enclosing_loop
  enclosing_loop_from next = elim (Bool-cases (is_subspan_of loc start)) [
    | inl inside ↦ (start, rw inside refl, found here inside)
    | inr outside ↦ elim (Bool-cases (start.next == 0)) [
      | inl last ↦ (zero_location, rw (outside, last) refl, nowhere refl)
      | inr more ↦
          let (r, e, enc) =
            enclosing_loop_at locs.len start.next (later here) (ground arith) (ground arith) in
          (r, ground arith, enc)
    ]
  ]

-- The location itself is the result, because it or its parent path has no location.
abbrev pub IsAlone : SourceLocation → SourceLocation → SourceLocation → Type 0
IsAlone loc start r = (r ≡ loc) × ((is_zero loc ≡ true) ⊎ (is_zero start ≡ true))

-- If `Next` leads on as protoreflect documents it, enclosingParent returns within its fuel: the
-- location itself where it or the parent path has none, or else a location that the parent path's
-- location leads to and that contains it, or the zero location.
pub enclosing_parent_result :
    (locs : SourceLocations) (path : SourcePath)
    → IsIndexed locs
    → (r : SourceLocation) × (enclosing_parent locs path ≡ some r)
      × (IsAlone (locs.by_path path) (locs.by_path (drop_last path)) r
          ⊎ Encloses locs (locs.by_path path) (locs.by_path (drop_last path)) r)
unfolding enclosing_parent
enclosing_parent_result locs path ok =
    let loc = locs.by_path path in
    let start = locs.by_path (drop_last path) in
    elim (Bool-cases (is_zero loc)) [
      | inl z ↦ (loc, rw z refl, inl (refl, inl z))
      | inr nz ↦ elim (Bool-cases (is_zero start)) [
        | inl z ↦ (loc, rw (nz, z) refl, inl (refl, inr z))
        | inr nz' ↦
            let (r, e, enc) =
              enclosing_loop_from locs ok loc start (ok.by_path_next (drop_last path)) in
            (r, rw (nz, nz') e, inr enc)
      ]
    ]
