-- ===== src/SourceLoc/Span.antt =====
-- IsSubspanOf and IsSubpathOf of sourceloc/sourceloc.go.
use protoreflect.Common.{
  ◌≡◌, ◌↔◌, ◌++◌, true, arith, length, take, drop, bytes_eq_sound, bytes_eq_refl,
  take-length-append, length-append, take-append-drop,
}
use protoreflect.SourceLoc.{SourcePath, SourceLocation, is_subpath_of, is_subspan_of}

-- The two spans have the same four ends.
abbrev pub SameSpan : SourceLocation → SourceLocation → Type 0
SameSpan a b =
    (a.start_line ≡ b.start_line)
    × (a.start_column ≡ b.start_column)
    × (a.end_line ≡ b.end_line)
    × (a.end_column ≡ b.end_column)

pub is_subspan_of_refl : (a : SourceLocation) → is_subspan_of a a ≡ true
unfolding is_subspan_of
is_subspan_of_refl a = ground arith

pub is_subspan_of_trans :
    (a b c : SourceLocation)
    → is_subspan_of a b ≡ true
    → is_subspan_of b c ≡ true
    → is_subspan_of a c ≡ true
unfolding is_subspan_of
is_subspan_of_trans a b c h k = ground arith

pub is_subspan_of_antisymm :
    (a b : SourceLocation) → is_subspan_of a b ≡ true → is_subspan_of b a ≡ true → SameSpan a b
unfolding is_subspan_of
is_subspan_of_antisymm a b h k = ground arith

is_subspan_of_same : (a b : SourceLocation) → SameSpan a b → is_subspan_of a b ≡ true
unfolding is_subspan_of
is_subspan_of_same a b same = ground (arith, same)

-- IsSubspanOf is a partial order on spans: if a lies in b and b in c, then a lies in c, and a lies in
-- a; and c lies in a just if the two have the same start and the same end.
pub is_subspan_of_order :
    (a b c : SourceLocation)
    → is_subspan_of a b ≡ true
    → is_subspan_of b c ≡ true
    → (is_subspan_of a c ≡ true)
      × (is_subspan_of a a ≡ true)
      × ((is_subspan_of c a ≡ true) ↔ SameSpan c a)
is_subspan_of_order a b c h k = (
  is_subspan_of_trans a b c h k,
  is_subspan_of_refl a,
  ((λ l. is_subspan_of_antisymm c a l (is_subspan_of_trans a b c h k)), is_subspan_of_same c a),
)

subpath_splits :
    (candidate path : SourcePath)
    → is_subpath_of candidate path ≡ true
    → candidate ≡ path ++ drop (length path) candidate
unfolding is_subpath_of
subpath_splits candidate path h = ground (
  arith,
  bytes_eq_sound (take (length path) candidate) path,
  take-append-drop (length path) candidate,
)

subpath_holds : (path rest : SourcePath) → is_subpath_of (path ++ rest) path ≡ true
unfolding is_subpath_of
subpath_holds path rest =
    rw (take-length-append path rest, bytes_eq_refl path) (ground (arith, length-append path rest))

-- IsSubpathOf holds exactly when the candidate continues the path.
pub is_subpath_of_iff :
    (candidate path : SourcePath)
    → (is_subpath_of candidate path ≡ true) ↔ ((rest : SourcePath) × (candidate ≡ path ++ rest))
is_subpath_of_iff candidate path = (
  λ h. (drop (length path) candidate, subpath_splits candidate path h),
  λ (rest, e). rw e (subpath_holds path rest),
)
