-- ===== src/Remote/Options/Order.antt =====
-- The order of options in protoresolve/remotereg/converter.go.
use mathlib.Core.List.{Permᴰ, Memᴰ}
use protoreflect.Common.{
  ◌≡◌, ◌≢◌, refl, sym, ap, ◌∙◌, true, false, Option, none, some, List, [], ◌∷◌, ◌++◌, Bytes,
  bytes_less_irrefl, bytes_less_trans, bytes_less_total, bytes_eq, bytes_eq_iff, Bool-cases, All,
  inl, inr, arith,
}
use protoreflect.Remote.Options.{
  Kind, ValueOf, Wrapped, single, items, entries, Held, OptionField, TypeOption, interface_of,
  option_name, option_name_less, insert_option, sort_options, maybe_wrap, marshalled, append_opt,
  list_options, entry_options, held_options, option, gathered, options,
}

pub option_name_less_trans :
    (a b c : Bytes)
    → option_name_less a b ≡ true
    → option_name_less b c ≡ true
    → option_name_less a c ≡ true
unfolding option_name_less
option_name_less_trans a b c h k = ground (arith, bytes_less_trans a b c)

pub option_name_less_asym :
    (a b : Bytes) → option_name_less a b ≡ true → option_name_less b a ≡ false
unfolding option_name_less
option_name_less_asym a b h = ground (arith, bytes_less_trans a b a, bytes_less_irrefl a)

pub option_name_less_total :
    (a b : Bytes) → option_name_less a b ≡ false → option_name_less b a ≡ false → a ≡ b
unfolding option_name_less
option_name_less_total a b h k = ground (arith, bytes_less_total a b)

-- A permutation has the same members.
Permᴰ-mem : {A : Type 0} {x : A} {xs ys : List A} → Permᴰ xs ys → Memᴰ x ys → Memᴰ x xs
Permᴰ-mem Permᴰ.nil m = elim m [ ]
Permᴰ-mem (Permᴰ.cons e d) (Memᴰ.head m) = Memᴰ.head (m ∙ sym e)
Permᴰ-mem (Permᴰ.cons e d) (Memᴰ.tail m) = Memᴰ.tail (Permᴰ-mem d m)
Permᴰ-mem (Permᴰ.swap e e') (Memᴰ.head m) = Memᴰ.tail (Memᴰ.head (m ∙ sym e'))
Permᴰ-mem (Permᴰ.swap e e') (Memᴰ.tail (Memᴰ.head m)) = Memᴰ.head (m ∙ sym e)
Permᴰ-mem (Permᴰ.swap e e') (Memᴰ.tail (Memᴰ.tail m)) = Memᴰ.tail (Memᴰ.tail m)
Permᴰ-mem (Permᴰ.trans d d') m = Permᴰ-mem d (Permᴰ-mem d' m)

module _ {A : Type 0} where
  insert_here :
      (x y : TypeOption A) (ys : List (TypeOption A))
      → option_name_less y.name x.name ≡ false
      → insert_option x (y ∷ ys) ≡ x ∷ y ∷ ys
  unfolding insert_option
  insert_here x y ys h = rw h refl

  insert_later :
      (x y : TypeOption A) (ys : List (TypeOption A))
      → option_name_less y.name x.name ≡ true
      → insert_option x (y ∷ ys) ≡ y ∷ insert_option x ys
  unfolding insert_option
  insert_later x y ys h = rw h refl

  -- Of two options with different names, one is less.
  one_less :
      (x y : TypeOption A)
      → x.name ≢ y.name
      → option_name_less x.name y.name ≡ false
      → option_name_less y.name x.name ≡ true
  one_less x y ne h = elim (Bool-cases (option_name_less y.name x.name)) [
    | inl e ↦ e
    | inr e ↦ absurd (ne (option_name_less_total x.name y.name h e))
  ]

  -- Where the smaller one goes first.
  insert_smaller :
      (x y : TypeOption A) (r : List (TypeOption A))
      → option_name_less x.name y.name ≡ true
      → insert_option x (insert_option y r) ≡ insert_option y (insert_option x r)
  unfolding insert_option
  insert_smaller x y [] h =
      insert_here x y [] (option_name_less_asym x.name y.name h) ∙ sym (insert_later y x [] h)
  insert_smaller x y (z ∷ r) h = elim (Bool-cases (option_name_less z.name x.name)) [
    | inl zx ↦
        let zy = option_name_less_trans z.name x.name y.name zx h in
        ap (insert_option x) (insert_later y z r zy)
        ∙ insert_later x z (insert_option y r) zx
        ∙ ap (λ l. z ∷ l) (insert_smaller x y r h)
        ∙ sym (insert_later y z (insert_option x r) zy)
        ∙ ap (insert_option y) (sym (insert_later x z r zx))
    | inr zx ↦ elim (Bool-cases (option_name_less z.name y.name)) [
      | inl zy ↦
          ap (insert_option x) (insert_later y z r zy)
          ∙ insert_here x z (insert_option y r) zx
          ∙ ap (λ l. x ∷ l) (sym (insert_later y z r zy))
          ∙ sym (insert_later y x (z ∷ r) h)
          ∙ ap (insert_option y) (sym (insert_here x z r zx))
      | inr zy ↦
          ap (insert_option x) (insert_here y z r zy)
          ∙ insert_here x y (z ∷ r) (option_name_less_asym x.name y.name h)
          ∙ ap (λ l. x ∷ l) (sym (insert_here y z r zy))
          ∙ sym (insert_later y x (z ∷ r) h)
          ∙ ap (insert_option y) (sym (insert_here x z r zx))
    ]
  ]

  insert_comm :
      (x y : TypeOption A) (r : List (TypeOption A))
      → x.name ≢ y.name
      → insert_option x (insert_option y r) ≡ insert_option y (insert_option x r)
  insert_comm x y r ne = elim (Bool-cases (option_name_less x.name y.name)) [
    | inl h ↦ insert_smaller x y r h
    | inr h ↦ sym (insert_smaller y x r (one_less x y ne h))
  ]

  -- Several options are inserted, the last one first.
  abbrev insert_all : List (TypeOption A) → List (TypeOption A) → List (TypeOption A)
  insert_all [] r = r
  insert_all (x ∷ xs) r = insert_option x (insert_all xs r)

  sort_options-append :
      (xs ys : List (TypeOption A)) → sort_options (xs ++ ys) ≡ insert_all xs (sort_options ys)
  unfolding sort_options
  sort_options-append [] ys = refl
  sort_options-append (x ∷ xs) ys = ap (insert_option x) (sort_options-append xs ys)

  module _ (a b : Bytes) (ne : a ≢ b) where
    insert_past_group :
        (x : TypeOption A) (ys r : List (TypeOption A))
        → x.name ≡ a
        → All (λ y. y.name ≡ b) ys
        → insert_option x (insert_all ys r) ≡ insert_all ys (insert_option x r)
    insert_past_group x [] r nx ny = refl
    insert_past_group x (y ∷ ys) r nx (ny, more) =
        insert_comm x y (insert_all ys r) (λ e. ne (sym nx ∙ e ∙ ny))
        ∙ ap (insert_option y) (insert_past_group x ys r nx more)

    insert_groups_comm :
        (xs ys r : List (TypeOption A))
        → All (λ x. x.name ≡ a) xs
        → All (λ y. y.name ≡ b) ys
        → insert_all xs (insert_all ys r) ≡ insert_all ys (insert_all xs r)
    insert_groups_comm [] ys r nx ny = refl
    insert_groups_comm (x ∷ xs) ys r (nx, more) ny =
        ap (insert_option x) (insert_groups_comm xs ys r more ny)
        ∙ insert_past_group x ys (insert_all xs r) nx ny

module _ {F M A : Type 0} (float32 : F → F) (marshal : Wrapped F M → Option A) where
  -- The options of a field have its name.
  append_opt-name :
      (n : Bytes) (w : Option (Wrapped F M)) (os : List (TypeOption A))
      → All (λ o. o.name ≡ n) os
      → All (λ o. o.name ≡ n) (append_opt float32 marshal (marshalled float32 marshal n w) os)
  unfolding append_opt marshalled
  append_opt-name n none os h = h
  append_opt-name n (some pm) os h = by_result (marshal pm)
    where
      by_result :
          (r : Option A)
          → All
              (λ o. o.name ≡ n)
              (append_opt float32 marshal
                (elim r as (λ _. Option (TypeOption A)) [
                  | none ↦ none
                  | some a ↦ some (record { name = n; value = a })
                ])
                os)
      by_result none = h
      by_result (some a) = (refl, h)

  list_options-name :
      (n : Bytes) (k : Kind) (vs : List (Option (ValueOf F M k)))
      → All (λ o. o.name ≡ n) (list_options float32 marshal n k vs)
  unfolding list_options
  list_options-name n k [] = tt
  list_options-name n k (v ∷ vs) =
      append_opt-name n (maybe_wrap float32 k v) (list_options float32 marshal n k vs)
        (list_options-name n k vs)

  entry_options-name :
      (n : Bytes) (ms : List M) → All (λ o. o.name ≡ n) (entry_options float32 marshal n ms)
  unfolding entry_options
  entry_options-name n [] = tt
  entry_options-name n (m ∷ ms) =
      append_opt-name n (some (interface_of m)) (entry_options float32 marshal n ms)
        (entry_options-name n ms)

  held_options-name :
      (n : Bytes) (k : Kind) (held : Held F M k)
      → All (λ o. o.name ≡ n) (held_options float32 marshal n k held)
  unfolding held_options
  held_options-name n k (single v) = append_opt-name n (maybe_wrap float32 k v) [] tt
  held_options-name n k (items vs) = list_options-name n k vs
  held_options-name n k (entries ms) = entry_options-name n ms

  option-name : (f : OptionField F M) → All (λ o. o.name ≡ option_name f) (option float32 marshal f)
  unfolding option
  option-name f = held_options-name (option_name f) f.kind f.held

  options-cons :
      (f : OptionField F M) (fs : List (OptionField F M))
      → options float32 marshal (f ∷ fs)
        ≡ insert_all (option float32 marshal f) (options float32 marshal fs)
  unfolding options gathered
  options-cons f fs = sort_options-append (option float32 marshal f) (gathered float32 marshal fs)

  -- Two fields with one name are one field.
  abbrev pub NamesDiffer : List (OptionField F M) → Type 0
  NamesDiffer fs =
      (f g : OptionField F M) → Memᴰ f fs → Memᴰ g fs → option_name f ≡ option_name g → f ≡ g

  options-swap :
      (f g : OptionField F M) (fs : List (OptionField F M))
      → NamesDiffer (f ∷ g ∷ fs)
      → options float32 marshal (f ∷ g ∷ fs) ≡ options float32 marshal (g ∷ f ∷ fs)
  options-swap f g fs differ = elim (Bool-cases (bytes_eq (option_name f) (option_name g))) [
    | inl e ↦
        let one : f ≡ g =
          differ f g (Memᴰ.head refl) (Memᴰ.tail (Memᴰ.head refl))
            ((bytes_eq_iff (option_name f) (option_name g)).0 e) in
        ap (λ h. options float32 marshal (h ∷ g ∷ fs)) one
        ∙ ap (λ h. options float32 marshal (g ∷ h ∷ fs)) (sym one)
    | inr ne ↦
        let apart : option_name f ≢ option_name g =
          (λ e. ground (arith, ne, (bytes_eq_iff (option_name f) (option_name g)).1 e)) in
        options-cons f (g ∷ fs)
        ∙ ap (insert_all (option float32 marshal f)) (options-cons g fs)
        ∙ insert_groups_comm (option_name f) (option_name g) apart (option float32 marshal f)
            (option float32 marshal g) (options float32 marshal fs) (option-name f) (option-name g)
        ∙ ap (insert_all (option float32 marshal g)) (sym (options-cons f fs))
        ∙ sym (options-cons g (f ∷ fs))
  ]

  permuted_options :
      {fs gs : List (OptionField F M)}
      → NamesDiffer fs
      → Permᴰ fs gs
      → options float32 marshal fs ≡ options float32 marshal gs
  permuted_options differ Permᴰ.nil = refl
  permuted_options differ (Permᴰ.cons {a} {b} {l₁ = fs} {l₂ = gs} e d) =
      options-cons a fs
      ∙ ap (insert_all (option float32 marshal a))
          (permuted_options (λ f g inf ing same. differ f g (Memᴰ.tail inf) (Memᴰ.tail ing) same) d)
      ∙ ap (λ f. insert_all (option float32 marshal f) (options float32 marshal gs)) e
      ∙ sym (options-cons b gs)
  permuted_options differ (Permᴰ.swap {a} {b} {a'} {b'} {l = fs} e e') =
      options-swap a b fs differ
      ∙ ap (λ f. options float32 marshal (b ∷ f ∷ fs)) e
      ∙ ap (λ f. options float32 marshal (f ∷ b' ∷ fs)) e'
  permuted_options differ (Permᴰ.trans d d') =
      permuted_options differ d
      ∙ permuted_options (λ f g inf ing same. differ f g (Permᴰ-mem d inf) (Permᴰ-mem d ing) same)
          d'

-- However Range orders the fields of an options message, the conversion gives the same options in the
-- same order, if fields with one name are one field and each map field passes its entries on in the
-- same order.
pub options_permuted :
    {F M A : Type 0} (float32 : F → F) (marshal : Wrapped F M → Option A)
    {fs gs : List (OptionField F M)}
    → NamesDiffer float32 marshal fs
    → Permᴰ fs gs
    → options float32 marshal fs ≡ options float32 marshal gs
options_permuted float32 marshal differ d = permuted_options float32 marshal differ d
