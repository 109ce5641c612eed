-- ===== src/Builder/Message/Tags.antt =====
-- The field tags of the messages of protobuilder/message.go, and that TrySetNumber keeps them true.
use protoreflect.Common.{
  ℕ, ◌≡◌, ◌≢◌, refl, sym, ap, ◌∙◌, subst, false, none, some, ◌==◌, if◌then◌else◌, ==_iff,
  Bool-cases, inl, inr, arith,
}
use protoreflect.Common.Int.{ℤ, pos, eqz}
use protoreflect.Builder.Message.Renumber.{renumbered_sound, renumbered_complete}
use protoreflect.Builder.Message.{Builders, is_extension}
use protoreflect.Builder.Message.Number.{message_of_field}

-- The field is a regular field of the message.
pub record IsListed (h : Builders) (m f : ℕ) : Type 0 where
  pub regular : is_extension (h.fields f) ≡ false
  pub owned : message_of_field h f ≡ some m

-- The tags of a message are the numbers, other than 0, of its regular fields and lead to them.
pub record TagsHold (h : Builders) : Type 0 where
  pub sound :
      (m f : ℕ) (n : ℤ)
      → (h.messages m).field_tags n ≡ some f
      → ((h.fields f).number ≡ n) × (n ≢ pos 0) × IsListed h m f
  pub complete :
      (m f : ℕ)
      → IsListed h m f
      → (h.fields f).number ≢ pos 0
      → (h.messages m).field_tags (h.fields f).number ≡ some f

-- Only the number of one field differs.
pub record Renumbered (h h' : Builders) (f : ℕ) (tag : ℤ) : Type 0 where
  pub numbers : (g : ℕ) → (h'.fields g).number ≡ (if g == f then tag else (h.fields g).number)
  pub extensions : (g : ℕ) → is_extension (h'.fields g) ≡ is_extension (h.fields g)
  pub owners : (g : ℕ) → message_of_field h' g ≡ message_of_field h g

module _ (h h' : Builders) (f : ℕ) (tag : ℤ) (r : Renumbered h h' f tag) (t : TagsHold h) where
  IsListed-forth : (m g : ℕ) → IsListed h m g → IsListed h' m g
  IsListed-forth m g l = record {
    regular = r.extensions g ∙ l.regular;
    owned = r.owners g ∙ l.owned;
  }

  IsListed-back : (m g : ℕ) → IsListed h' m g → IsListed h m g
  IsListed-back m g l = record {
    regular = sym (r.extensions g) ∙ l.regular;
    owned = sym (r.owners g) ∙ l.owned;
  }

  -- The tags of a message that the field is not in are as before.
  module _ (m : ℕ) (out : ¬ IsListed h m f)
      (same : (n : ℤ) → (h'.messages m).field_tags n ≡ (h.messages m).field_tags n) where
    other_field : (g : ℕ) → IsListed h m g → (g == f) ≡ false
    other_field g l = elim (Bool-cases (g == f)) [
      | inr other ↦ other
      | inl at_f ↦ absurd (out (subst (IsListed h m) ((==_iff g f).0 at_f) l))
    ]

    sound_apart :
        (g : ℕ) (n : ℤ)
        → (h'.messages m).field_tags n ≡ some g
        → ((h'.fields g).number ≡ n) × (n ≢ pos 0) × IsListed h' m g
    sound_apart g n e =
        let (num, nz, l) = t.sound m g n (sym (same n) ∙ e) in
        (r.numbers g ∙ rw (other_field g l) num, nz, IsListed-forth m g l)

    complete_apart :
        (g : ℕ)
        → IsListed h' m g
        → (h'.fields g).number ≢ pos 0
        → (h'.messages m).field_tags (h'.fields g).number ≡ some g
    complete_apart g l nz =
        let back = IsListed-back m g l in
        let num : (h'.fields g).number ≡ (h.fields g).number =
          r.numbers g ∙ rw (other_field g back) refl in
        same (h'.fields g).number
        ∙ ap (h.messages m).field_tags num
        ∙ t.complete m g back (λ z. nz (num ∙ z))

  -- The field is in no message's tags, and these are as before.
  pub unlisted-TagsHold :
      ((m : ℕ) → ¬ IsListed h m f)
      → ((m : ℕ) (n : ℤ) → (h'.messages m).field_tags n ≡ (h.messages m).field_tags n)
      → TagsHold h'
  unlisted-TagsHold out same = record {
    sound = λ m. sound_apart m (out m) (same m);
    complete = λ m. complete_apart m (out m) (same m);
  }

  -- The field is in the tags of one message, which forgets the old number and takes the new one.
  module _ (m0 : ℕ) (listed : IsListed h m0 f) (moved : eqz tag (h.fields f).number ≡ false)
      (fresh : eqz tag (pos 0) ≡ false → (h.messages m0).field_tags tag ≡ none)
      (others : (m : ℕ) (n : ℤ)
        → (m == m0) ≡ false
        → (h'.messages m).field_tags n ≡ (h.messages m).field_tags n)
      (tags : (n : ℤ)
        → (h'.messages m0).field_tags n ≡ (
            if eqz n (h.fields f).number
            then none
            else if eqz tag (pos 0)
            then (h.messages m0).field_tags n
            else if eqz n tag
            then some f
            else (h.messages m0).field_tags n)) where
    not-IsListed : (m : ℕ) → (m == m0) ≡ false → ¬ IsListed h m f
    not-IsListed m o l =
        let same : some m ≡ some m0 = sym l.owned ∙ listed.owned in
        ground (arith, o, ==_iff m m0, same)

    sound_at :
        (g : ℕ) (n : ℤ)
        → (h'.messages m0).field_tags n ≡ some g
        → ((h'.fields g).number ≡ n) × (n ≢ pos 0) × IsListed h m0 g
    sound_at =
        renumbered_sound (IsListed h m0) (λ g. (h.fields g).number) (λ g. (h'.fields g).number)
          (h.messages m0).field_tags (h'.messages m0).field_tags f tag listed moved (t.sound m0)
          (t.complete m0) fresh r.numbers tags

    complete_at :
        (g : ℕ)
        → IsListed h m0 g
        → (h'.fields g).number ≢ pos 0
        → (h'.messages m0).field_tags (h'.fields g).number ≡ some g
    complete_at =
        renumbered_complete (IsListed h m0) (λ g. (h.fields g).number) (λ g. (h'.fields g).number)
          (h.messages m0).field_tags (h'.messages m0).field_tags f tag listed moved (t.sound m0)
          (t.complete m0) fresh r.numbers tags

    moved_sound :
        (m g : ℕ) (n : ℤ)
        → (h'.messages m).field_tags n ≡ some g
        → ((h'.fields g).number ≡ n) × (n ≢ pos 0) × IsListed h' m g
    moved_sound m g n e = elim (Bool-cases (m == m0)) [
      | inl same ↦
          let at_m : m0 ≡ m = sym ((==_iff m m0).0 same) in
          let (num, nz, l) = sound_at g n (ap (λ q. (h'.messages q).field_tags n) at_m ∙ e) in
          (num, nz, IsListed-forth m g (subst (λ q. IsListed h q g) at_m l))
      | inr o ↦ sound_apart m (not-IsListed m o) (λ k. others m k o) g n e
    ]

    moved_complete :
        (m g : ℕ)
        → IsListed h' m g
        → (h'.fields g).number ≢ pos 0
        → (h'.messages m).field_tags (h'.fields g).number ≡ some g
    moved_complete m g l nz = elim (Bool-cases (m == m0)) [
      | inl same ↦
          let at_m : m ≡ m0 = (==_iff m m0).0 same in
          ap (λ q. (h'.messages q).field_tags (h'.fields g).number) at_m
          ∙ complete_at g (subst (λ q. IsListed h q g) at_m (IsListed-back m g l)) nz
      | inr o ↦ complete_apart m (not-IsListed m o) (λ k. others m k o) g l nz
    ]

    pub moved-TagsHold : TagsHold h'
    moved-TagsHold = record { sound = moved_sound; complete = moved_complete }
