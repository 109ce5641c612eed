-- ===== src/Printer/Item/Kinds.antt =====
-- elementAddrs.at of protoprint/print.go: what the element type says about the element.
use protoreflect.Common.{
  ℕ, ◌≡◌, refl, sym, ap, subst, ◌∙◌, Bool, true, false, Option, none, some, List, Bytes,
  if◌then◌else◌, get_elem?,
}
use protoreflect.Common.Int.{ℤ, pos, negsuc, eqz, ◌-ℤ◌}
use protoreflect.Printer.Item.{
  Item, pkg, file_import, options, reserved_range, reserved_name, field, message, enum, enum_value,
  service, method, extension_range, Dsc, file_dsc, message_dsc, field_dsc, oneof_dsc, enum_dsc,
  enum_value_dsc, service_dsc, method_dsc, extension_range_marker, ElementAddr, get, at,
}

-- A number for each Go type that `at` returns
abbrev pub type_of : Item → ℕ
type_of (pkg _) = 0
type_of (file_import _) = 1
type_of (options _) = 2
type_of (reserved_range _ _) = 3
type_of (reserved_name _) = 4
type_of (field _) = 5
type_of (message _) = 6
type_of (enum _) = 7
type_of (enum_value _) = 8
type_of (service _) = 9
type_of (method _) = 10
type_of (extension_range _ _) = 11

-- The type of the element that an element type stands for
abbrev expected : Dsc → ℤ → ℕ
expected (file_dsc f) t =
    if eqz t (pos 2)
    then 0
    else if eqz t (pos 3)
    then 1
    else if eqz t (pos 8)
    then 2
    else if eqz t (pos 4)
    then 6
    else if eqz t (pos 5)
    then 7
    else if eqz t (pos 6)
    then 9
    else 5
expected (message_dsc m) t =
    if eqz t (pos 7)
    then 2
    else if eqz t (pos 2)
    then 5
    else if eqz t (pos 3)
    then 6
    else if eqz t (pos 4)
    then 7
    else if eqz t (pos 6)
    then 5
    else if eqz t (pos 5)
    then 11
    else if eqz t (pos 9)
    then 3
    else 4
expected (oneof_dsc m) t = if eqz t (pos 2) then 2 else 5
expected (enum_dsc e) t =
    if eqz t (pos 3) then 2 else if eqz t (pos 2) then 8 else if eqz t (pos 4) then 3 else 4
expected (service_dsc methods) t = if eqz t (pos 3) then 2 else 10
expected _ t = 2

-- The element, if there is one, has the type.
abbrev HasType : ℕ → Option Item → Type 0
HasType n none = Unit
HasType n (some x) = type_of x ≡ n

get-HasType :
    {A : Type 0} (item : A → Item) (n : ℕ) (xs : List A) (i : ℤ)
    → ((x : A) → type_of (item x) ≡ n)
    → HasType n (get item xs i)
unfolding get
get-HasType {A} item n xs (pos i) h = of_elem (get_elem? xs i)
  where
    of_elem : (o : Option A) → HasType n (elim o [ none ↦ none | some x ↦ some (item x) ])
    of_elem none = tt
    of_elem (some x) = h x
get-HasType item n xs (negsuc i) h = tt

HasType-if :
    (b : Bool) (n m : ℕ) (o p : Option Item)
    → HasType n o
    → HasType m p
    → HasType (if b then n else m) (if b then o else p)
HasType-if true n m o p h k = h
HasType-if false n m o p h k = k

HasType-or_none :
    (b : Bool) (n : ℕ) (o : Option Item) → HasType n o → HasType n (if b then o else none)
HasType-or_none true n o h = h
HasType-or_none false n o h = tt

at-HasType :
    (opts : ℤ → List Bytes) (dsc : Dsc) (addr : ElementAddr)
    → HasType (expected dsc addr.element_type) (at opts dsc addr)
unfolding at ◌-ℤ◌
at-HasType opts (file_dsc f) addr = HasType-if (eqz addr.element_type (pos 2)) 0 _ _ _ refl (
    HasType-if (eqz addr.element_type (pos 3)) 1 _ _ _
      (get-HasType file_import 1 f.imports _ (λ x. refl))
      (HasType-if (eqz addr.element_type (pos 8)) 2 _ _ _ refl (
        HasType-if (eqz addr.element_type (pos 4)) 6 _ _ _
          (get-HasType message 6 f.messages _ (λ x. refl))
          (HasType-if (eqz addr.element_type (pos 5)) 7 _ _ _
            (get-HasType enum 7 f.enums _ (λ x. refl))
            (HasType-if (eqz addr.element_type (pos 6)) 9 _ _ _
              (get-HasType service 9 f.services _ (λ x. refl))
              (HasType-or_none (eqz addr.element_type (pos 7)) 5 _
                (get-HasType field 5 f.extensions _ (λ x. refl))))))))
at-HasType opts (message_dsc m) addr = HasType-if (eqz addr.element_type (pos 7)) 2 _ _ _ refl (
    HasType-if (eqz addr.element_type (pos 2)) 5 _ _ _ (get-HasType field 5 m.fields _ (λ x. refl))
      (HasType-if (eqz addr.element_type (pos 3)) 6 _ _ _
        (get-HasType message 6 m.messages _ (λ x. refl))
        (HasType-if (eqz addr.element_type (pos 4)) 7 _ _ _
          (get-HasType enum 7 m.enums _ (λ x. refl))
          (HasType-if (eqz addr.element_type (pos 6)) 5 _ _ _
            (get-HasType field 5 m.extensions _ (λ x. refl))
            (HasType-if (eqz addr.element_type (pos 5)) 11 _ _ _
              (get-HasType _ 11 m.extension_ranges _ (λ x. refl))
              (HasType-if (eqz addr.element_type (pos 9)) 3 _ _ _
                (get-HasType _ 3 m.reserved_ranges _ (λ x. refl))
                (HasType-or_none (eqz addr.element_type (pos 10)) 4 _
                  (get-HasType reserved_name 4 m.reserved_names _ (λ x. refl)))))))))
at-HasType opts field_dsc addr = HasType-or_none (eqz addr.element_type (pos 8)) 2 _ refl
at-HasType opts (oneof_dsc m) addr = HasType-if (eqz addr.element_type (pos 2)) 2 _ _ _ refl (
    HasType-or_none (eqz addr.element_type (pos 0 -ℤ pos 2)) 5 _
      (get-HasType field 5 m.fields _ (λ x. refl)))
at-HasType opts (enum_dsc e) addr = HasType-if (eqz addr.element_type (pos 3)) 2 _ _ _ refl (
    HasType-if (eqz addr.element_type (pos 2)) 8 _ _ _
      (get-HasType enum_value 8 e.values _ (λ x. refl))
      (HasType-if (eqz addr.element_type (pos 4)) 3 _ _ _
        (get-HasType _ 3 e.reserved_ranges _ (λ x. refl))
        (HasType-or_none (eqz addr.element_type (pos 5)) 4 _
          (get-HasType reserved_name 4 e.reserved_names _ (λ x. refl)))))
at-HasType opts enum_value_dsc addr = HasType-or_none (eqz addr.element_type (pos 3)) 2 _ refl
at-HasType opts (service_dsc methods) addr =
    HasType-if (eqz addr.element_type (pos 3)) 2 10 _ _ refl (
      HasType-or_none (eqz addr.element_type (pos 2)) 10 _
        (get-HasType method 10 methods _ (λ x. refl)))
at-HasType opts method_dsc addr = HasType-or_none (eqz addr.element_type (pos 4)) 2 _ refl
at-HasType opts extension_range_marker addr =
    HasType-or_none (eqz addr.element_type (pos 3)) 2 _ refl

HasType-some : (n : ℕ) (o : Option Item) (x : Item) → o ≡ some x → HasType n o → type_of x ≡ n
HasType-some n o x e h = subst (HasType n) e h

-- Two elements at addresses of one element type have one type.
pub at-type_of :
    (opts : ℤ → List Bytes) (dsc : Dsc) (a b : ElementAddr) (x y : Item)
    → a.element_type ≡ b.element_type
    → at opts dsc a ≡ some x
    → at opts dsc b ≡ some y
    → type_of x ≡ type_of y
at-type_of opts dsc a b x y same ea eb =
    HasType-some _ _ x ea (at-HasType opts dsc a)
    ∙ ap (expected dsc) same
    ∙ sym (HasType-some _ _ y eb (at-HasType opts dsc b))
