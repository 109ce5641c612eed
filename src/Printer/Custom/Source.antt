-- ===== src/Printer/Custom/Source.antt =====
-- elementSrcOrder.Less of protoprint/print.go.
use mathlib.Core.Option
use protoreflect.Common.{
  unwrap_true, ℕ, ◌-◌, ◌<◌, ◌≡◌, refl, ap, subst, sym, ◌∙◌, Bool, true, false, not, Option, none,
  some, [], ◌∷◌, ◌++◌, ltb, if◌then◌else◌, length, take, arith, Bool-cases, inl, inr,
}
use protoreflect.Common.Int.{ℤ, pos, negsuc}
use protoreflect.Descriptor.Kind.{DescriptorKind, kind_file, kind_message, kind_enum, kind_service}
use protoreflect.SourceLoc.{SourcePath, SourceLocation, int32, is_zero}
use protoreflect.SourceLoc.Path.{Address, child_kind, read_path}
use protoreflect.Printer.Item.{Dsc, ElementAddr}
use protoreflect.Printer.Custom.{
  int32_of, element_path, goes_first, span_less, location_less, located, both_located, source_less,
}

-- The location that Less looks at for an address
abbrev pub IsLocated :
    (SourcePath → SourceLocation) → SourcePath → ElementAddr → SourceLocation → Type 0
IsLocated by_path prefix addr si =
    located by_path (element_path prefix addr.element_type addr.element_index) ≡ some si

source_less_located :
    (by_path : SourcePath → SourceLocation) (prefix : SourcePath) (dsc : Dsc) (a b : ElementAddr)
    (sa sb : SourceLocation)
    → IsLocated by_path prefix a sa
    → IsLocated by_path prefix b sb
    → source_less by_path prefix dsc a b
      ≡ some (location_less dsc a.element_type b.element_type sa sb)
unfolding source_less both_located
source_less_located by_path prefix dsc a b sa sb la lb = rw (la, lb) refl

span_less_trans :
    (a b c : SourceLocation) → span_less a b ≡ true → span_less b c ≡ true → span_less a c ≡ true
unfolding span_less
span_less_trans a b c h k = ground arith

span_less_irrefl : (a : SourceLocation) → span_less a a ≡ false
unfolding span_less
span_less_irrefl a = ground arith

location_less_known :
    (dsc : Dsc) (t u : ℤ) (a b : SourceLocation)
    → is_zero a ≡ false
    → is_zero b ≡ false
    → location_less dsc t u a b ≡ span_less a b
unfolding location_less
location_less_known dsc t u a b ka kb = rw (ka, kb) refl

double_negation : (b : Bool) → not (not b) ≡ b
double_negation true = refl
double_negation false = refl

location_less_mixed :
    (dsc : Dsc) (t u : ℤ) (a b : SourceLocation)
    → is_zero a ≡ not (is_zero b)
    → location_less dsc u t b a ≡ not (location_less dsc t u a b)
unfolding location_less
location_less_mixed dsc t u a b m = elim (Bool-cases (is_zero b)) [
  | inl e ↦ rw (m, e) (sym (double_negation (goes_first dsc u t)))
  | inr e ↦ rw (m, e) refl
]

source_less_known :
    (by_path : SourcePath → SourceLocation) (prefix : SourcePath) (dsc : Dsc) (a b : ElementAddr)
    (sa sb : SourceLocation)
    → IsLocated by_path prefix a sa
    → IsLocated by_path prefix b sb
    → is_zero sa ≡ false
    → is_zero sb ≡ false
    → source_less by_path prefix dsc a b ≡ some (span_less sa sb)
source_less_known by_path prefix dsc a b sa sb la lb ka kb =
    source_less_located by_path prefix dsc a b sa sb la lb
    ∙ ap some (location_less_known dsc a.element_type b.element_type sa sb ka kb)

-- Among elements that have a location, Less is a strict order: if a is less than b and b less than
-- c, then a is less than c, and no element is less than itself.
pub source_less_trans :
    (by_path : SourcePath → SourceLocation) (prefix : SourcePath) (dsc : Dsc) (a b c : ElementAddr)
    (sa sb sc : SourceLocation)
    → IsLocated by_path prefix a sa
    → IsLocated by_path prefix b sb
    → IsLocated by_path prefix c sc
    → is_zero sa ≡ false
    → is_zero sb ≡ false
    → is_zero sc ≡ false
    → source_less by_path prefix dsc a b ≡ some true
    → source_less by_path prefix dsc b c ≡ some true
    → (source_less by_path prefix dsc a c ≡ some true)
      × (source_less by_path prefix dsc a a ≡ some false)
source_less_trans by_path prefix dsc a b c sa sb sc la lb lc ka kb kc h k = (
  source_less_known by_path prefix dsc a c sa sc la lc ka kc
      ∙ ap some (
          span_less_trans sa sb sc
            (unwrap_true _ (sym (source_less_known by_path prefix dsc a b sa sb la lb ka kb) ∙ h))
            (unwrap_true _ (sym (source_less_known by_path prefix dsc b c sb sc lb lc kb kc) ∙ k))),
  source_less_known by_path prefix dsc a a sa sa la la ka ka ∙ ap some (span_less_irrefl sa),
)

-- If just one of two elements has a location, then exactly one of them is less than the other.
pub source_less_mixed :
    (by_path : SourcePath → SourceLocation) (prefix : SourcePath) (dsc : Dsc) (a b : ElementAddr)
    (sa sb : SourceLocation)
    → IsLocated by_path prefix a sa
    → IsLocated by_path prefix b sb
    → is_zero sa ≡ not (is_zero sb)
    → (r : Bool) × (source_less by_path prefix dsc a b ≡ some r)
      × (source_less by_path prefix dsc b a ≡ some (not r))
source_less_mixed by_path prefix dsc a b sa sb la lb m = (
  location_less dsc a.element_type b.element_type sa sb,
  source_less_located by_path prefix dsc a b sa sb la lb,
  source_less_located by_path prefix dsc b a sb sa lb la
      ∙ ap some (location_less_mixed dsc a.element_type b.element_type sa sb m),
)

no_child_kind : (k : DescriptorKind) (n : ℕ) → 8 < n → child_kind k n ≡ none
unfolding child_kind
no_child_kind kind_file n h = ground arith
no_child_kind kind_message n h = ground arith
no_child_kind kind_enum n h = ground arith
no_child_kind kind_service n h = ground arith
no_child_kind _ n h = refl

read_path_stuck :
    (k : DescriptorKind) (p : SourcePath) (t i : ℕ) → 8 < t → read_path k (p ++ t ∷ i ∷ []) ≡ none
unfolding read_path
read_path_stuck k [] t i h = rw (read_path, no_child_kind k t h) refl
read_path_stuck k (u ∷ []) t i h = of_child (child_kind k u)
  where
    of_child :
        (o : Option DescriptorKind)
        → elim o [
          | none ↦ none
          | some k' ↦ Option.map (λ (a : Address). (k', t) ∷ a) (read_path k' (i ∷ []))
        ]
          ≡ none
    of_child none = refl
    of_child (some k') = refl
read_path_stuck k (u ∷ j ∷ p) t i h = of_child (child_kind k u) (λ k'. read_path_stuck k' p t i h)
  where
    of_child :
        (o : Option DescriptorKind)
        → ((k' : DescriptorKind) → read_path k' (p ++ t ∷ i ∷ []) ≡ none)
        → elim o [
          | none ↦ none
          | some k' ↦ Option.map (λ (a : Address). (k', j) ∷ a) (read_path k' (p ++ t ∷ i ∷ []))
        ]
          ≡ none
    of_child none ih = refl
    of_child (some k') ih = rw (ih k') refl

-- For a field that is printed inside its oneof, whose element type is negative, Less asks for a path
-- that leads to no element of any file: the tag in it is -2.
pub element_path-unread :
    (prefix q : SourcePath) (i : ℕ)
    → element_path prefix (negsuc 1) (pos i) ≡ some q
    → read_path kind_file q ≡ none
unfolding element_path
element_path-unread prefix q i h = of_test (ltb (length prefix) 2) h
  where
    found : SourcePath
    found = take (length prefix - 2) prefix ++ int32_of (negsuc 1) ∷ int32 i ∷ []

    of_test : (b : Bool) → (if b then none else some found) ≡ some q → read_path kind_file q ≡ none
    of_test true e = cc e
    of_test false e =
        subst (λ p. read_path kind_file p ≡ none) (cc e)
          (read_path_stuck kind_file (take (length prefix - 2) prefix) (int32_of (negsuc 1))
            (int32 i) (omega arith))
