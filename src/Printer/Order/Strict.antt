-- ===== src/Printer/Order/Strict.antt =====
-- elementAddrs.Less of protoprint/print.go is a strict order on the addresses of a descriptor.
use protoreflect.Common.{
  ℕ, ◌≡◌, refl, sym, ap, ◌∙◌, Bool, true, false, Option, some, List, Bytes, is_some, if◌then◌else◌,
  arith,
}
use protoreflect.Common.Int.{ℤ, ltz, eqz_iff}
use protoreflect.Printer.Item.{Item, Dsc, ElementAddr, at}
use protoreflect.Printer.Item.Kinds.{at-type_of}
use protoreflect.Printer.Order.{item_less, both_less, addr_less}
use protoreflect.Printer.Order.Items.{IsSound, item_less_irrefl, item_less_trans, item_less-is_some}

-- An address that leads to a sound element
pub record IsValid (name_of : ℕ → Bytes) (open_enum : Bool) (opts : ℤ → List Bytes) (dsc : Dsc)
    (addr : ElementAddr) : Type 0 where
  pub item : Item
  pub leads : at opts dsc addr ≡ some item
  pub sound : IsSound name_of open_enum item

module _ (name_of : ℕ → Bytes) (o : Bool) (opts : ℤ → List Bytes) (dsc : Dsc) where
  abbrev items_less : ElementAddr → ElementAddr → Option Bool
  items_less a b = both_less item_less (at opts dsc a) (at opts dsc b)

  items_less_eq :
      (a b : ElementAddr) (va : IsValid name_of o opts dsc a) (vb : IsValid name_of o opts dsc b)
      → items_less a b ≡ item_less va.item vb.item
  unfolding both_less
  items_less_eq a b va vb = rw (va.leads, vb.leads) refl

  items_less-is_some :
      (a b : ElementAddr) (va : IsValid name_of o opts dsc a) (vb : IsValid name_of o opts dsc b)
      → a.element_type ≡ b.element_type
      → is_some (items_less a b) ≡ true
  items_less-is_some a b va vb e =
      ap is_some (items_less_eq a b va vb)
      ∙ item_less-is_some name_of o va.item vb.item va.sound vb.sound
          (at-type_of opts dsc a b va.item vb.item e va.leads vb.leads)

  items_less_irrefl : (a : ElementAddr) → IsValid name_of o opts dsc a → items_less a a ≡ some false
  items_less_irrefl a va = items_less_eq a a va va ∙ item_less_irrefl name_of o va.item va.sound

  items_less_trans :
      (a b c : ElementAddr)
      → IsValid name_of o opts dsc a
      → IsValid name_of o opts dsc b
      → IsValid name_of o opts dsc c
      → a.element_type ≡ b.element_type
      → b.element_type ≡ c.element_type
      → items_less a b ≡ some true
      → items_less b c ≡ some true
      → items_less a c ≡ some true
  items_less_trans a b c va vb vc ab bc h k =
      items_less_eq a c va vc
      ∙ item_less_trans name_of o va.item vb.item vc.item va.sound vb.sound vc.sound
          (at-type_of opts dsc a b va.item vb.item ab va.leads vb.leads)
          (at-type_of opts dsc b c vb.item vc.item bc vb.leads vc.leads)
          (sym (items_less_eq a b va vb) ∙ h) (sym (items_less_eq b c vb vc) ∙ k)

-- Lexicographic order by two integers and then a comparison that may fail
abbrev lex : ℤ → ℤ → ℤ → ℤ → Option Bool → Option Bool
lex oi oj ti tj r =
    if ltz oi oj
    then some true
    else if ltz oj oi
    then some false
    else if ltz ti tj
    then some true
    else if ltz tj ti
    then some false
    else r

lex-is_some :
    (oi oj ti tj : ℤ) (r : Option Bool)
    → (ti ≡ tj → is_some r ≡ true)
    → is_some (lex oi oj ti tj r) ≡ true
lex-is_some oi oj ti tj r h = ground (arith, h, (eqz_iff ti tj).0)

lex_trans :
    (o1 o2 o3 t1 t2 t3 : ℤ) (p q r : Option Bool)
    → (t1 ≡ t2 → t2 ≡ t3 → p ≡ some true → q ≡ some true → r ≡ some true)
    → lex o1 o2 t1 t2 p ≡ some true
    → lex o2 o3 t2 t3 q ≡ some true
    → lex o1 o3 t1 t3 r ≡ some true
lex_trans o1 o2 o3 t1 t2 t3 p q r h k l = ground (arith, h, (eqz_iff t1 t2).0, (eqz_iff t2 t3).0)

-- For addresses of one descriptor that lead to elements, Less does not panic.
pub addr_less-is_some :
    (name_of : ℕ → Bytes) (o : Bool) (opts : ℤ → List Bytes) (dsc : Dsc) (a b : ElementAddr)
    → IsValid name_of o opts dsc a
    → IsValid name_of o opts dsc b
    → is_some (addr_less opts dsc a b) ≡ true
unfolding addr_less
addr_less-is_some name_of o opts dsc a b va vb =
    lex-is_some a.order b.order a.element_type b.element_type (items_less name_of o opts dsc a b)
      (items_less-is_some name_of o opts dsc a b va vb)

-- On addresses of one descriptor that lead to elements, Less is a strict order: if a is less than b
-- and b less than c, then a is less than c, and no address is less than itself.
pub addr_less_trans :
    (name_of : ℕ → Bytes) (o : Bool) (opts : ℤ → List Bytes) (dsc : Dsc) (a b c : ElementAddr)
    → IsValid name_of o opts dsc a
    → IsValid name_of o opts dsc b
    → IsValid name_of o opts dsc c
    → addr_less opts dsc a b ≡ some true
    → addr_less opts dsc b c ≡ some true
    → (addr_less opts dsc a c ≡ some true) × (addr_less opts dsc a a ≡ some false)
unfolding addr_less
addr_less_trans name_of o opts dsc a b c va vb vc h k = (
  lex_trans a.order b.order c.order a.element_type b.element_type c.element_type
      (items_less name_of o opts dsc a b) (items_less name_of o opts dsc b c)
      (items_less name_of o opts dsc a c) (items_less_trans name_of o opts dsc a b c va vb vc) h k,
  ground (arith, items_less_irrefl name_of o opts dsc a va),
)
