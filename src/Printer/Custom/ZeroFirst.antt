-- ===== src/Printer/Custom/ZeroFirst.antt =====
-- customSortOrder.Less of protoprint/print.go: the zero of an open enum goes first, whatever the custom
-- function says.
use protoreflect.Common.{
  ℕ, zero, suc, [], ◌∷◌, All, get_elem?, ap, ◌≡◌, ◌≢◌, refl, sym, ◌∙◌, Bool, true, false, ◌&&◌,
  Option, some, List, Bytes, arith,
}
use protoreflect.Common.Int.{ℤ, pos, eqz, eqz_iff}
use protoreflect.Printer.Item.{Item, enum_value, EnumValueItem, Dsc, ElementAddr, at}
use protoreflect.Printer.Item.Kinds.{type_of, at-type_of}
use protoreflect.Printer.Order.{both_less}
use protoreflect.Printer.Element.{Element, as_element}
use protoreflect.Printer.Custom.{elements_less, custom_items_less, custom_less}

module _ (opts : ℤ → List Bytes) (dsc : Dsc) (less : Element → Element → Bool) where
  custom_less-at :
      (a b : ElementAddr) (x y : Item)
      → at opts dsc a ≡ some x
      → at opts dsc b ≡ some y
      → custom_less opts dsc less a b
        ≡ custom_items_less less (eqz a.element_type b.element_type) x y
  unfolding custom_less both_less
  custom_less-at a b x y ea eb = rw (ea, eb) refl

-- sort.IsSorted on the order: no element is less than the one in front of it.
abbrev pub IsSorted :
    (ℤ → List Bytes) → Dsc → (Element → Element → Bool) → List ElementAddr → Type 0
IsSorted opts dsc less [] = Unit
IsSorted opts dsc less (a ∷ []) = Unit
IsSorted opts dsc less (a ∷ b ∷ addrs) =
    (custom_less opts dsc less b a ≡ some false) × IsSorted opts dsc less (b ∷ addrs)

-- The number of a value.
abbrev value_number : Option Item → ℤ
value_number (some (enum_value v)) = v.number
value_number o = pos 0

-- The address of a value of an open enum, with this element type.
pub record IsValueAddr (opts : ℤ → List Bytes) (dsc : Dsc) (t : ℤ) (a : ElementAddr) : Type 0 where
  pub value : EnumValueItem
  pub leads : at opts dsc a ≡ some (enum_value value)
  pub open_enum : value.in_open_enum ≡ true
  pub same_type : a.element_type ≡ t

module _ (opts : ℤ → List Bytes) (dsc : Dsc) (less : Element → Element → Bool) (t : ℤ) where
  -- A zero is less than every value, the zeros included.
  zero_less :
      (a b : ElementAddr) (va : IsValueAddr opts dsc t a) (vb : IsValueAddr opts dsc t b)
      → va.value.number ≡ pos 0
      → custom_less opts dsc less a b ≡ some true
  unfolding custom_items_less
  zero_less a b va vb zero_a =
      let same = (eqz_iff a.element_type b.element_type).1 (va.same_type ∙ sym vb.same_type) in
      let za = (eqz_iff va.value.number (pos 0)).1 zero_a in
      custom_less-at opts dsc less a b _ _ va.leads vb.leads ∙ rw (same, va.open_enum, za) refl

  later_not_zero :
      (a : ElementAddr) (addrs : List ElementAddr)
      → All (IsValueAddr opts dsc t) (a ∷ addrs)
      → IsSorted opts dsc less (a ∷ addrs)
      → (i : ℕ) (b : ElementAddr) (w : EnumValueItem) → get_elem? addrs i ≡ some b
      → at opts dsc b ≡ some (enum_value w)
      → w.number ≢ pos 0
  later_not_zero a [] _ _ i b w e leads z = absurd (ground (arith, e))
  later_not_zero a (c ∷ addrs) (va, (vc, vs)) (s, more) zero b w e leads z =
      let at_b : c ≡ b = ground (arith, e) in
      let same : vc.value.number ≡ w.number =
        ap value_number (sym vc.leads ∙ ap (at opts dsc) at_b ∙ leads) in
      absurd (ground (arith, sym s ∙ zero_less c a vc va (same ∙ z)))
  later_not_zero a (c ∷ addrs) (va, vs) (s, more) (suc i) b w e leads z =
      later_not_zero c addrs vs more i b w e leads z

-- The order puts the zero first: when the values of an open enum are sorted by it, whatever the custom
-- function is, none behind the first has the number 0. So values of which two have the number 0,
-- which an enum with aliases can have, are never sorted.
pub zero_first :
    (opts : ℤ → List Bytes) (dsc : Dsc) (less : Element → Element → Bool) (t : ℤ) (a : ElementAddr)
    (addrs : List ElementAddr)
    → All (IsValueAddr opts dsc t) (a ∷ addrs)
    → IsSorted opts dsc less (a ∷ addrs)
    → (i : ℕ) (b : ElementAddr) (w : EnumValueItem) → get_elem? addrs i ≡ some b
    → at opts dsc b ≡ some (enum_value w)
    → w.number ≢ pos 0
zero_first opts dsc less t a addrs vs s i b w e leads z =
    later_not_zero opts dsc less t a addrs vs s i b w e leads z

-- An element that is not the zero of an open enum; `open_enum` says whether the enum is open.
abbrev pub IsOrdinary : Bool → Item → Type 0
IsOrdinary open_enum (enum_value v) =
    (v.in_open_enum ≡ open_enum) × ((open_enum && eqz v.number (pos 0)) ≡ false)
IsOrdinary open_enum _ = Unit

elements_less_at :
    (less : Element → Element → Bool) (p q : Option Element) (ex ey : Element)
    → p ≡ some ex
    → q ≡ some ey
    → elements_less less p q ≡ some (less ex ey)
unfolding elements_less
elements_less_at less p q ex ey ep eq = rw (ep, eq) refl

ordinary_items :
    (open_enum : Bool) (less : Element → Element → Bool) (same : Bool) (x y : Item)
    (ex ey : Element)
    → as_element x ≡ some ex
    → as_element y ≡ some ey
    → IsOrdinary open_enum x
    → IsOrdinary open_enum y
    → (same ≡ true → type_of x ≡ type_of y)
    → custom_items_less less same x y ≡ some (less ex ey)
unfolding custom_items_less elements_less
ordinary_items open_enum less true (enum_value v) (enum_value w) ex ey hx hy (ov, ox) (ow, oy) t =
    rw (ov, ox, oy) (elements_less_at less _ _ ex ey hx hy)
ordinary_items open_enum less true (enum_value v) y ex ey hx hy ox oy t =
    absurd (omega (arith, t refl))
ordinary_items open_enum less same x y ex ey hx hy ox oy t = elements_less_at less _ _ ex ey hx hy

-- On two elements, both with the same `open_enum`, neither of which is the zero of an open enum, Less is the custom function.
pub custom_less-less :
    (open_enum : Bool) (opts : ℤ → List Bytes) (dsc : Dsc) (less : Element → Element → Bool)
    (a b : ElementAddr) (x y : Item) (ex ey : Element)
    → at opts dsc a ≡ some x
    → at opts dsc b ≡ some y
    → as_element x ≡ some ex
    → as_element y ≡ some ey
    → IsOrdinary open_enum x
    → IsOrdinary open_enum y
    → custom_less opts dsc less a b ≡ some (less ex ey)
custom_less-less open_enum opts dsc less a b x y ex ey ea eb hx hy ox oy =
    custom_less-at opts dsc less a b x y ea eb
    ∙ ordinary_items open_enum less (eqz a.element_type b.element_type) x y ex ey hx hy ox oy
        (λ e. at-type_of opts dsc a b x y ((eqz_iff a.element_type b.element_type).0 e) ea eb)
