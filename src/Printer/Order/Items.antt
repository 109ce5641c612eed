-- ===== src/Printer/Order/Items.antt =====
-- The switch of elementAddrs.Less in protoprint/print.go is an order on the elements of one type.
use protoreflect.Common.{
  unwrap_true, ℕ, ◌≡◌, refl, sym, ap, ◌∙◌, Bool, true, false, some, List, [], ◌∷◌, Bytes, ◌==◌,
  ==_iff, Bool-cases, inl, inr, is_some, subst, if◌then◌else◌, bytes_less, bytes_less_irrefl,
  bytes_less_trans, arith,
}
use protoreflect.Common.Int.{ℤ, ltz}
use protoreflect.Printer.Item.{
  Item, pkg, file_import, options, reserved_range, reserved_name, field, message, enum, enum_value,
  service, method, extension_range, FieldItem, EnumValueItem,
}
use protoreflect.Printer.Item.Kinds.{type_of}
use protoreflect.Printer.Order.{
  option_less, field_less, by_extension, number_less, extension_less, enum_value_less,
  descriptor_name, name_less, item_less,
}

-- An element of a file: a message has one full name, the values are those of one enum, and a list of
-- options has a name, which is not empty.
abbrev pub IsSound : (ℕ → Bytes) → Bool → Item → Type 0
IsSound name_of open_enum (field f) = f.containing_name ≡ name_of f.containing
IsSound name_of open_enum (enum_value v) = v.in_open_enum ≡ open_enum
IsSound name_of open_enum (options ((c ∷ n) ∷ _)) = Unit
IsSound name_of open_enum (options _) = ⊥
IsSound name_of open_enum _ = Unit

field_less_irrefl : (a : FieldItem) → field_less a a ≡ false
unfolding field_less number_less extension_less
field_less_irrefl a = elim (Bool-cases a.is_extension) [
  | inl e ↦ rw e (ground arith)
  | inr e ↦ rw e (ground arith)
]

same_name :
    (name_of : ℕ → Bytes) (p q : ℕ) (x y : Bytes)
    → x ≡ name_of p
    → y ≡ name_of q
    → (p == q) ≡ true
    → x ≡ y
same_name name_of p q x y ex ey pq = ex ∙ ap name_of ((==_iff p q).0 pq) ∙ sym ey

bytes_less_same : (x y : Bytes) → x ≡ y → bytes_less x y ≡ false
bytes_less_same x y e = ap (λ n. bytes_less n y) e ∙ bytes_less_irrefl y

-- Grouped by extendee, whose identity settles its name
extendee_trans :
    (name_of : ℕ → Bytes) (p q r : ℕ) (x y z : Bytes) (l m n : ℤ)
    → x ≡ name_of p
    → y ≡ name_of q
    → z ≡ name_of r
    → (if p == q then ltz l m else bytes_less x y) ≡ true
    → (if q == r then ltz m n else bytes_less y z) ≡ true
    → (if p == r then ltz l n else bytes_less x z) ≡ true
extendee_trans name_of p q r x y z l m n ex ey ez h k = elim (Bool-cases (p == q)) [
  | inl pq ↦
      let xy = same_name name_of p q x y ex ey pq in
      let yz : (q == r) ≡ false → bytes_less x z ≡ true =
        (λ ne. subst (λ w. bytes_less w z ≡ true) (sym xy) (ground (arith, k, ne))) in
      ground (arith, yz)
  | inr pq ↦ elim (Bool-cases (q == r)) [
    | inl qr ↦
        let yz = same_name name_of q r y z ey ez qr in
        let xz : bytes_less x z ≡ true =
          subst (λ w. bytes_less x w ≡ true) yz (ground (arith, h, pq)) in
        ground (arith, xz)
    | inr qr ↦
        let x_z : (p == r) ≡ true → bytes_less x z ≡ false =
          λ e. bytes_less_same x z (same_name name_of p r x z ex ez e) in
        ground (arith, bytes_less_trans x y z, x_z)
  ]
]

extension_less_trans :
    (name_of : ℕ → Bytes) (a b c : FieldItem)
    → a.containing_name ≡ name_of a.containing
    → b.containing_name ≡ name_of b.containing
    → c.containing_name ≡ name_of c.containing
    → extension_less a b ≡ true
    → extension_less b c ≡ true
    → extension_less a c ≡ true
unfolding extension_less number_less
extension_less_trans name_of a b c na nb nc h k =
    extendee_trans name_of a.containing b.containing c.containing a.containing_name
      b.containing_name c.containing_name a.number b.number c.number na nb nc h k

field_less_trans :
    (name_of : ℕ → Bytes) (a b c : FieldItem)
    → a.containing_name ≡ name_of a.containing
    → b.containing_name ≡ name_of b.containing
    → c.containing_name ≡ name_of c.containing
    → field_less a b ≡ true
    → field_less b c ≡ true
    → field_less a c ≡ true
unfolding field_less by_extension number_less
field_less_trans name_of a b c na nb nc h k =
    by_extension_trans a.is_extension b.is_extension c.is_extension h k
  where
    by_extension_trans :
        (x y z : Bool)
        → by_extension x y a b ≡ true
        → by_extension y z b c ≡ true
        → by_extension x z a c ≡ true
    by_extension_trans false false false h k = ground arith
    by_extension_trans false false true h k = refl
    by_extension_trans false true false h k = cc
    by_extension_trans false true true h k = refl
    by_extension_trans true false z h k = cc
    by_extension_trans true true false h k = cc
    by_extension_trans true true true h k = extension_less_trans name_of a b c na nb nc h k

enum_value_less_irrefl : (a : EnumValueItem) → enum_value_less a a ≡ false
unfolding enum_value_less
enum_value_less_irrefl a = ground (arith, bytes_less_irrefl a.name)

enum_value_less_trans :
    (open_enum : Bool) (a b c : EnumValueItem)
    → a.in_open_enum ≡ open_enum
    → b.in_open_enum ≡ open_enum
    → c.in_open_enum ≡ open_enum
    → enum_value_less a b ≡ true
    → enum_value_less b c ≡ true
    → enum_value_less a c ≡ true
unfolding enum_value_less
enum_value_less_trans open_enum a b c oa ob oc h k =
    ground (arith, bytes_less_trans a.name b.name c.name)

option_less_irrefl :
    (a : List Bytes) (c : ℕ) (n : Bytes) → option_less ((c ∷ n) ∷ a) ((c ∷ n) ∷ a) ≡ some false
unfolding option_less
option_less_irrefl a c n = ground (arith, bytes_less_irrefl (c ∷ n))

option_less_trans :
    (l m n : List Bytes) (a b c : ℕ) (x y z : Bytes)
    → option_less ((a ∷ x) ∷ l) ((b ∷ y) ∷ m) ≡ some true
    → option_less ((b ∷ y) ∷ m) ((c ∷ z) ∷ n) ≡ some true
    → option_less ((a ∷ x) ∷ l) ((c ∷ z) ∷ n) ≡ some true
unfolding option_less
option_less_trans l m n a b c x y z h k = ground (arith, bytes_less_trans (a ∷ x) (b ∷ y) (c ∷ z))

-- item_less is a strict order on the sound elements of one type.
pub item_less_irrefl :
    (name_of : ℕ → Bytes) (o : Bool) (x : Item) → IsSound name_of o x → item_less x x ≡ some false
unfolding item_less name_less descriptor_name
item_less_irrefl name_of o (pkg n) s = ap some (bytes_less_irrefl n)
item_less_irrefl name_of o (file_import n) s = ap some (bytes_less_irrefl n)
item_less_irrefl name_of o (options ((c ∷ n) ∷ l)) s = option_less_irrefl l c n
item_less_irrefl name_of o (options []) s = absurd s
item_less_irrefl name_of o (options ([] ∷ _)) s = absurd s
item_less_irrefl name_of o (reserved_range a b) s = ground arith
item_less_irrefl name_of o (reserved_name n) s = ap some (bytes_less_irrefl n)
item_less_irrefl name_of o (field f) s = ap some (field_less_irrefl f)
item_less_irrefl name_of o (message n) s = ap some (bytes_less_irrefl n)
item_less_irrefl name_of o (enum n) s = ap some (bytes_less_irrefl n)
item_less_irrefl name_of o (enum_value v) s = ap some (enum_value_less_irrefl v)
item_less_irrefl name_of o (service n) s = ap some (bytes_less_irrefl n)
item_less_irrefl name_of o (method n) s = ap some (bytes_less_irrefl n)
item_less_irrefl name_of o (extension_range a b) s = ground arith

some_less_trans :
    (a b c : Bytes)
    → some (bytes_less a b) ≡ some true
    → some (bytes_less b c) ≡ some true
    → some (bytes_less a c) ≡ some true
some_less_trans a b c h k =
    ap some
      (bytes_less_trans a b c (unwrap_true (bytes_less a b) h) (unwrap_true (bytes_less b c) k))

pub item_less_trans :
    (name_of : ℕ → Bytes) (o : Bool) (x y z : Item)
    → IsSound name_of o x
    → IsSound name_of o y
    → IsSound name_of o z
    → type_of x ≡ type_of y
    → type_of y ≡ type_of z
    → item_less x y ≡ some true
    → item_less y z ≡ some true
    → item_less x z ≡ some true
unfolding item_less name_less descriptor_name
item_less_trans name_of o (pkg a) (pkg b) (pkg c) s t u e f h k = some_less_trans a b c h k
item_less_trans name_of o (file_import a) (file_import b) (file_import c) s t u e f h k =
    some_less_trans a b c h k
item_less_trans name_of o (reserved_name a) (reserved_name b) (reserved_name c) s t u e f h k =
    some_less_trans a b c h k
item_less_trans name_of o (message a) (message b) (message c) s t u e f h k =
    some_less_trans a b c h k
item_less_trans name_of o (enum a) (enum b) (enum c) s t u e f h k = some_less_trans a b c h k
item_less_trans name_of o (service a) (service b) (service c) s t u e f h k =
    some_less_trans a b c h k
item_less_trans name_of o (method a) (method b) (method c) s t u e f h k = some_less_trans a b c h k
item_less_trans name_of o (options ((a ∷ x) ∷ l)) (options ((b ∷ y) ∷ m)) (options ((c ∷ z) ∷ n)) s
      t u e f h k =
    option_less_trans l m n a b c x y z h k
item_less_trans name_of o (options []) y z s t u e f h k = absurd s
item_less_trans name_of o (options ([] ∷ _)) y z s t u e f h k = absurd s
item_less_trans name_of o x (options []) z s t u e f h k = absurd t
item_less_trans name_of o x (options ([] ∷ _)) z s t u e f h k = absurd t
item_less_trans name_of o x y (options []) s t u e f h k = absurd u
item_less_trans name_of o x y (options ([] ∷ _)) s t u e f h k = absurd u
item_less_trans name_of o (reserved_range a _) (reserved_range b _) (reserved_range c _) s t u e f h
      k =
    ground arith
item_less_trans name_of o (extension_range a _) (extension_range b _) (extension_range c _) s t u e
      f h k =
    ground arith
item_less_trans name_of o (field a) (field b) (field c) s t u e f h k = ap some (
    field_less_trans name_of a b c s t u (unwrap_true (field_less a b) h)
      (unwrap_true (field_less b c) k))
item_less_trans name_of o (enum_value a) (enum_value b) (enum_value c) s t u e f h k = ap some (
    enum_value_less_trans o a b c s t u (unwrap_true (enum_value_less a b) h)
      (unwrap_true (enum_value_less b c) k))
item_less_trans name_of o x y z s t u e f h k = absurd (omega (arith, e, f))

-- On sound elements of one type no assertion of the switch fails.
pub item_less-is_some :
    (name_of : ℕ → Bytes) (o : Bool) (x y : Item)
    → IsSound name_of o x
    → IsSound name_of o y
    → type_of x ≡ type_of y
    → is_some (item_less x y) ≡ true
unfolding item_less name_less descriptor_name option_less
item_less-is_some name_of o (options []) y s t e = absurd s
item_less-is_some name_of o (options ([] ∷ _)) y s t e = absurd s
item_less-is_some name_of o x (options []) s t e = absurd t
item_less-is_some name_of o x (options ([] ∷ _)) s t e = absurd t
item_less-is_some name_of o (options ((a ∷ x) ∷ l)) (options ((b ∷ y) ∷ m)) s t e = ground arith
item_less-is_some name_of o (pkg a) (pkg b) s t e = refl
item_less-is_some name_of o (file_import a) (file_import b) s t e = refl
item_less-is_some name_of o (reserved_name a) (reserved_name b) s t e = refl
item_less-is_some name_of o (message a) (message b) s t e = refl
item_less-is_some name_of o (enum a) (enum b) s t e = refl
item_less-is_some name_of o (service a) (service b) s t e = refl
item_less-is_some name_of o (method a) (method b) s t e = refl
item_less-is_some name_of o (field a) (field b) s t e = refl
item_less-is_some name_of o (enum_value a) (enum_value b) s t e = refl
item_less-is_some name_of o (reserved_range a _) (reserved_range b _) s t e = refl
item_less-is_some name_of o (extension_range a _) (extension_range b _) s t e = refl
item_less-is_some name_of o x y s t e = absurd (omega (arith, e))
