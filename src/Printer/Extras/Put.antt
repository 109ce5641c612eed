-- ===== src/Printer/Extras/Put.antt =====
-- putIfAbsent of protoprint/source_locs.go, and what is read behind it.
use protoreflect.Common.{
  ℕ, ◌+◌, ◌-◌, ◌≡◌, ◌≢◌, refl, sym, ap, ◌∙◌, true, false, some, List, [], ◌∷◌, ◌++◌, Bytes, ltb,
  bytes_eq, bytes_eq_sound, bytes_eq_refl, length, get_elem?, is_some, All, Bool-cases, inl, inr,
  arith,
}
use protoreflect.SourceLoc.{SourcePath, SourceLocation, is_zero}
use protoreflect.Printer.Extras.{
  path_key, ExtraLocations, extra_len, extra_get, extra_lookup, or_zero, extra_by_path,
  put_if_absent,
}
use protoreflect.Printer.Extras.Keys.{IsPattern, path_key_injective}

is_zero-path : (loc : SourceLocation) → is_zero loc ≡ true → is_some loc.path ≡ false
unfolding is_zero
is_zero-path loc h = ground (arith, h)

-- The locations with one more
abbrev with_extra : ExtraLocations → SourcePath → SourceLocation → ExtraLocations
with_extra s p loc = record s {
  extras = s.extras ++ loc ∷ [];
  extras_by_path = (path_key p, loc) ∷ s.extras_by_path;
}

base_reached :
    (s : ExtraLocations) (p : SourcePath)
    → is_some (s.base.by_path p).path ≡ true
    → extra_by_path s p ≡ s.base.by_path p
unfolding extra_by_path
base_reached s p e = rw e refl

extra_reached :
    (s : ExtraLocations) (p : SourcePath)
    → is_some (s.base.by_path p).path ≡ false
    → extra_by_path s p ≡ or_zero (extra_lookup (path_key p) s.extras_by_path)
unfolding extra_by_path
extra_reached s p e = rw e refl

lookup_first :
    (k : Bytes) (loc : SourceLocation) (entries : List (Bytes × SourceLocation))
    → extra_lookup k ((k, loc) ∷ entries) ≡ some loc
unfolding extra_lookup
lookup_first k loc entries = rw (bytes_eq_refl k) refl

lookup_later :
    (k l : Bytes) (loc : SourceLocation) (entries : List (Bytes × SourceLocation))
    → k ≢ l
    → extra_lookup l ((k, loc) ∷ entries) ≡ extra_lookup l entries
unfolding extra_lookup
lookup_later k l loc entries ne = elim (Bool-cases (bytes_eq k l)) [
  | inl e ↦ absurd (ne (bytes_eq_sound k l e))
  | inr e ↦ rw e refl
]

put_absent :
    (s : ExtraLocations) (p : SourcePath) (loc : SourceLocation)
    → is_zero (extra_by_path s p) ≡ true
    → put_if_absent s p loc ≡ with_extra s p loc
unfolding put_if_absent
put_absent s p loc h = rw h refl

put_present :
    (s : ExtraLocations) (p : SourcePath) (loc : SourceLocation)
    → is_zero (extra_by_path s p) ≡ false
    → put_if_absent s p loc ≡ s
unfolding put_if_absent
put_present s p loc h = rw h refl

base_silent :
    (s : ExtraLocations) (p : SourcePath)
    → is_zero (extra_by_path s p) ≡ true
    → is_some (s.base.by_path p).path ≡ false
base_silent s p h = elim (Bool-cases (is_some (s.base.by_path p).path)) [
  | inl e ↦ is_zero-path (s.base.by_path p) (sym (ap is_zero (base_reached s p e)) ∙ h)
  | inr e ↦ e
]

with_extra_here :
    (s : ExtraLocations) (p : SourcePath) (loc : SourceLocation)
    → is_some (s.base.by_path p).path ≡ false
    → extra_by_path (with_extra s p loc) p ≡ loc
unfolding or_zero
with_extra_here s p loc e =
    extra_reached (with_extra s p loc) p e
    ∙ ap or_zero (lookup_first (path_key p) loc s.extras_by_path)

with_extra_elsewhere :
    (s : ExtraLocations) (p q : SourcePath) (loc : SourceLocation)
    → path_key p ≢ path_key q
    → extra_by_path (with_extra s p loc) q ≡ extra_by_path s q
with_extra_elsewhere s p q loc ne = elim (Bool-cases (is_some (s.base.by_path q).path)) [
  | inl e ↦ base_reached (with_extra s p loc) q e ∙ sym (base_reached s q e)
  | inr e ↦
      extra_reached (with_extra s p loc) q e
      ∙ ap or_zero (lookup_later (path_key p) (path_key q) loc s.extras_by_path ne)
      ∙ sym (extra_reached s q e)
]

get_elem?-last : {A : Type 0} (xs : List A) (x : A) → get_elem? (xs ++ x ∷ []) (length xs) ≡ some x
get_elem?-last [] x = refl
get_elem?-last (y ∷ xs) x = get_elem?-last xs x

length-last : {A : Type 0} (xs : List A) (x : A) → length (xs ++ x ∷ []) ≡ 1 + length xs
length-last [] x = refl
length-last (y ∷ xs) x = omega (arith, length-last xs x)

offset : (a b : ℕ) → (a + b) - a ≡ b
offset a b = omega arith

beyond : (a b : ℕ) → ltb (a + b) a ≡ false
beyond a b = ground arith

with_extra_last :
    (s : ExtraLocations) (p : SourcePath) (loc : SourceLocation)
    → extra_get (with_extra s p loc) (extra_len s) ≡ some loc
unfolding extra_get extra_len
with_extra_last s p loc = rw (beyond s.base.len (length s.extras)) (
    ap (get_elem? (s.extras ++ loc ∷ [])) (offset s.base.len (length s.extras))
    ∙ get_elem?-last s.extras loc)

with_extra_len :
    (s : ExtraLocations) (p : SourcePath) (loc : SourceLocation)
    → extra_len (with_extra s p loc) ≡ 1 + extra_len s
unfolding extra_len
with_extra_len s p loc = omega (arith, length-last s.extras loc)

-- If a path has no location, then after putIfAbsent it has the given one, which is also the last of
-- all locations.
pub put_if_absent_here :
    (s : ExtraLocations) (p : SourcePath) (loc : SourceLocation)
    → is_zero (extra_by_path s p) ≡ true
    → (extra_by_path (put_if_absent s p loc) p ≡ loc)
      × (extra_get (put_if_absent s p loc) (extra_len s) ≡ some loc)
      × (extra_len (put_if_absent s p loc) ≡ 1 + extra_len s)
put_if_absent_here s p loc h =
    rw (put_absent s p loc h)
      (with_extra_here s p loc (base_silent s p h), with_extra_last s p loc, with_extra_len s p loc)

-- For any other path, ByPath answers after putIfAbsent what it answered before, if the elements of both
-- paths are 32-bit patterns.
pub put_if_absent_elsewhere :
    (s : ExtraLocations) (p q : SourcePath) (loc : SourceLocation)
    → All IsPattern p
    → All IsPattern q
    → p ≢ q
    → extra_by_path (put_if_absent s p loc) q ≡ extra_by_path s q
put_if_absent_elsewhere s p q loc hp hq ne = elim (Bool-cases (is_zero (extra_by_path s p))) [
  | inl absent ↦
      ap (λ t. extra_by_path t q) (put_absent s p loc absent)
      ∙ with_extra_elsewhere s p q loc (λ e. ne (path_key_injective p q hp hq e))
  | inr present ↦ ap (λ t. extra_by_path t q) (put_present s p loc present)
]
