-- ===== src/Builder/Message/AddTags.antt =====
-- The field tags of protobuilder/message.go when a field is registered before or after it is unlinked.
use protoreflect.Common.{
  ℕ, ◌≡◌, refl, sym, ap, ◌∙◌, Bool, true, false, ◌&&◌, not, Option, none, some, ◌==◌, if◌then◌else◌,
  ==_iff, Bool-cases, inl, inr, arith,
}
use protoreflect.Common.Int.{ℤ, pos, eqz, eqz_iff}
use protoreflect.Builder.Enum.{write}
use protoreflect.Builder.Message.{field, message, Builders, put_tag, set_message, is_extension}
use protoreflect.Builder.Message.Register.{msg_type_of}
use protoreflect.Builder.Message.Registered.{registered, add_number, TagFree}
use protoreflect.Builder.Message.Add.{append_element}
use protoreflect.Builder.Message.Number.{message_of_parent, message_of_field}
use protoreflect.Builder.Message.Tags.{TagsHold}
use protoreflect.Builder.Message.Moved.{
  owned_by, owned_by-some, owner_without, tags_without, without-TagsOf, owner_with, tags_with,
  with-TagsOf,
}
use protoreflect.Builder.Message.Unlinked.{
  number_of, extension_of, tags_of, TagsHold-TagsOf, TagsOf-TagsHold, IsUnlinked, field_tags-write,
}

-- No message has a field under the number 0.
pub no_zero : (h : Builders) (m : ℕ) → TagsHold h → tags_of h m (pos 0) ≡ none
no_zero h m t = by_tag (tags_of h m (pos 0)) refl
  where
    by_tag : (o : Option ℕ) → tags_of h m (pos 0) ≡ o → o ≡ none
    by_tag none e = refl
    by_tag (some f) e = absurd ((t.sound m f (pos 0) e).1 refl)

module _ (h : Builders) (m f : ℕ) where
  number-append : (g : ℕ) → number_of (append_element h m (field f)) g ≡ number_of h g
  unfolding append_element write
  number-append g = ground arith

  extension-append : (g : ℕ) → extension_of (append_element h m (field f)) g ≡ extension_of h g
  unfolding append_element write is_extension
  extension-append g = ground arith

  tags-append : (q : ℕ) (n : ℤ) → tags_of (append_element h m (field f)) q n ≡ tags_of h q n
  unfolding append_element write
  tags-append q n = ground arith

  parent-append :
      (g : ℕ)
      → ((append_element h m (field f)).fields g).parent
        ≡ (if g == f then some (message m) else (h.fields g).parent)
  unfolding append_element write
  parent-append g = ground arith

  owner-append :
      (g : ℕ)
      → message_of_field (append_element h m (field f)) g
        ≡ (if g == f then some m else message_of_field h g)
  unfolding message_of_field append_element message_of_parent
  owner-append g = ap (message_of_parent h.oneofs) (parent-append g) ∙ by_case (g == f)
    where
      by_case :
          (b : Bool)
          → message_of_parent h.oneofs (if b then some (message m) else (h.fields g).parent)
            ≡ (if b then some m else message_of_parent h.oneofs (h.fields g).parent)
      by_case true = refl
      by_case false = refl

-- The field comes into the message, and nothing else changes of the fields and tags.
pub record IsLanded (h h' : Builders) (m f : ℕ) : Type 0 where
  pub numbers : (g : ℕ) → number_of h' g ≡ number_of h g
  pub extensions : (g : ℕ) → extension_of h' g ≡ extension_of h g
  pub owners : (g : ℕ) → message_of_field h' g ≡ (if g == f then some m else message_of_field h g)
  pub tags : (q : ℕ) (n : ℤ) → tags_of h' q n ≡ tags_of h q n

pub append_element-IsLanded :
    (h : Builders) (m f : ℕ) → IsLanded h (append_element h m (field f)) m f
append_element-IsLanded h m f = record {
  numbers = number-append h m f;
  extensions = extension-append h m f;
  owners = owner-append h m f;
  tags = tags-append h m f;
}

-- The field is in no message, and its number, unless it is 0, is in the message's tags already.
pub record IsRegistered (h h' : Builders) (m f : ℕ) : Type 0 where
  pub numbers : (g : ℕ) → number_of h' g ≡ number_of h g
  pub extensions : (g : ℕ) → extension_of h' g ≡ extension_of h g
  pub owners : (g : ℕ) → message_of_field h' g ≡ (if g == f then none else message_of_field h g)
  pub tags :
      (q : ℕ) (n : ℤ)
      → tags_of h' q n ≡ (
          if (q == m) && not (eqz (number_of h f) (pos 0)) && eqz n (number_of h f)
          then some f
          else if not (extension_of h f)
              && owned_by (message_of_field h f) q
              && eqz n (number_of h f)
          then none
          else tags_of h q n)

-- Then it comes into the message.
pub IsRegistered-TagsHold :
    (h h' h'' : Builders) (m f : ℕ)
    → TagsHold h
    → extension_of h f ≡ false
    → (eqz (number_of h f) (pos 0) ≡ false
        → (if not (extension_of h f)
              && owned_by (message_of_field h f) m
              && eqz (number_of h f) (number_of h f)
            then none
            else tags_of h m (number_of h f))
          ≡ none)
    → IsRegistered h h' m f
    → IsLanded h' h'' m f
    → TagsHold h''
IsRegistered-TagsHold h h' h'' m f t reg fresh r l =
    let num = number_of h in
    let ext = extension_of h in
    let owner = message_of_field h in
    let tags = tags_of h in
    let before = TagsHold-TagsOf h t in
    let left = without-TagsOf num ext owner tags f before in
    let owner' = owner_without num ext owner tags f before in
    let tags' = tags_without num ext owner tags f before in
    let root : owner' f ≡ none = rw ((==_iff f f).1 refl) refl in
    TagsOf-TagsHold h'' num ext (owner_with num ext owner' tags' f m left reg root fresh)
      (tags_with num ext owner' tags' f m left reg root fresh)
      (with-TagsOf num ext owner' tags' f m left reg root fresh) (λ g. l.numbers g ∙ r.numbers g)
      (λ g. l.extensions g ∙ r.extensions g)
      (λ g. l.owners g ∙ ap (λ o. if g == f then some m else o) (r.owners g))
      (λ q n. l.tags q n ∙ r.tags q n)

pub add_number_lem :
    (s : ℤ → Option ℕ) (number : ℤ) (f : ℕ) (n : ℤ)
    → add_number s number f n ≡ (if not (eqz number (pos 0)) && eqz n number then some f else s n)
unfolding put_tag
add_number_lem s number f n = ground arith

-- A message with the field registered.
abbrev pub with_registered : Builders → ℕ → ℕ → Builders
with_registered h m f =
    set_message h m
      (registered (h.messages m) (h.fields f).name (h.fields f).number f (msg_type_of h f))

pub tags-registered :
    (h : Builders) (m f q : ℕ) (n : ℤ)
    → tags_of (with_registered h m f) q n ≡ (
        if q == m
        then if not (eqz (number_of h f) (pos 0)) && eqz n (number_of h f)
          then some f
          else tags_of h m n
        else tags_of h q n)
tags-registered h m f q n =
    field_tags-write h.messages m
      (registered (h.messages m) (h.fields f).name (h.fields f).number f (msg_type_of h f)) q n
    ∙ ap (λ o. if q == m then o else tags_of h q n)
        (add_number_lem (tags_of h m) (number_of h f) f n)

-- The two tests in one.
pub one_test :
    (q m : ℕ) (x y : Bool) (a : Option ℕ) (t : ℕ → Option ℕ)
    → (if q == m then if x && y then a else t m else t q) ≡ (if (q == m) && x && y then a else t q)
one_test q m x y a t = elim (Bool-cases (q == m)) [
  | inl same ↦
      let at_m : m ≡ q = sym ((==_iff q m).0 same) in
      rw same (ap (λ k. if x && y then a else t k) at_m ∙ ground arith)
  | inr other ↦ rw other (ground arith)
]

module _ (h h1 : Builders) (m f : ℕ) (t : TagsHold h) (reg : extension_of h f ≡ false)
    (u : IsUnlinked h h1 f) where
  -- Unlinked and then registered.
  pub unlink_then_register : IsRegistered h (with_registered h1 m f) m f
  unlink_then_register = record {
    numbers = u.numbers;
    extensions = u.extensions;
    owners = λ g. unfold message_of_field in u.owners g;
    tags = λ q n.
        tags-registered h1 m f q n
        ∙ one_test q m (not (eqz (number_of h1 f) (pos 0))) (eqz n (number_of h1 f)) (some f)
            (λ k. tags_of h1 k n)
        ∙ rw (u.numbers f) (
            ap
              (λ o.
                if (q == m) && not (eqz (number_of h f) (pos 0)) && eqz n (number_of h f)
                then some f
                else o)
              (u.tags q n));
  }

pub swap_tests :
    (l c : Bool) (a b : Option ℕ)
    → (l ≡ true → c ≡ true → ⊥)
    → (if l then none else if c then a else b) ≡ (if c then a else if l then none else b)
swap_tests true true a b x = absurd (x refl refl)
swap_tests true false a b x = refl
swap_tests false true a b x = refl
swap_tests false false a b x = refl

module _ (h h2 : Builders) (m f : ℕ) (t : TagsHold h) (reg : extension_of h f ≡ false)
    (u : IsUnlinked (with_registered h m f) h2 f)
    (free : TagFree (h.messages m) (number_of h f)) where
  owner_registered : (g : ℕ) → message_of_field (with_registered h m f) g ≡ message_of_field h g
  unfolding message_of_field
  owner_registered g = refl

  -- The field cannot be in the message and have a number that is free in it.
  not_in_both :
      (q : ℕ) (n : ℤ)
      → (not (extension_of h f) && owned_by (message_of_field h f) q && eqz n (number_of h f))
        ≡ true
      → ((q == m) && not (eqz (number_of h f) (pos 0)) && eqz n (number_of h f)) ≡ true
      → ⊥
  not_in_both q n l c =
      let nz : eqz (number_of h f) (pos 0) ≡ false = ground (arith, c) in
      let at_m : q ≡ m = (==_iff q m).0 (ground (arith, c)) in
      let own : message_of_field h f ≡ some q =
        owned_by-some (message_of_field h f) q (ground (arith, l)) in
      let here : tags_of h m (number_of h f) ≡ some f =
        t.complete m f (record { regular = reg; owned = own ∙ ap some at_m })
          (λ z. ground (arith, nz, z, eqz_iff (number_of h f) (pos 0))) in
      elim free [
        | inl number_zero ↦ ground (arith, nz, number_zero, eqz_iff (number_of h f) (pos 0))
        | inr absent ↦ ground (arith, sym here ∙ absent)
      ]

  -- Registered and then unlinked.
  pub register_then_unlink : IsRegistered h h2 m f
  register_then_unlink = record {
    numbers = u.numbers;
    extensions = u.extensions;
    owners = λ g. u.owners g ∙ ap (λ o. if g == f then none else o) (owner_registered g);
    tags = λ q n.
        u.tags q n
        ∙ rw
            (
              owner_registered f,
              tags-registered h m f q n
                  ∙ one_test q m (not (eqz (number_of h f) (pos 0))) (eqz n (number_of h f))
                      (some f) (λ k. tags_of h k n),
            )
            (swap_tests _ _ (some f) (tags_of h q n) (not_in_both q n));
  }
