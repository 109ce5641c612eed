-- ===== src/Builder/Message/NumberTags.antt =====
-- TrySetNumber of protobuilder/field.go keeps the field tags of all messages true.
use protoreflect.Common.{
  ℕ, ◌≡◌, refl, sym, ap, ◌∙◌, subst, true, false, Option, none, some, ◌==◌, if◌then◌else◌,
  Bool-cases, Option-cases, inl, inr, arith,
}
use protoreflect.Common.Int.{ℤ, pos, eqz}
use protoreflect.Builder.Enum.{write}
use protoreflect.Builder.Message.{MessageBuilder, Builders, put_tag, set_message, is_extension}
use protoreflect.Builder.Message.Register.{add_tag_to, delete_tag}
use protoreflect.Builder.Message.Number.{
  check_number, message_of_parent, message_of_field, with_number, move_tag, try_set_number,
}
use protoreflect.Builder.Message.NumberAllowed.{
  same_number, refused_number, extension_number, field_number, tag_refused, tag_moved,
}
use protoreflect.Builder.Message.Tags.{
  IsListed, TagsHold, Renumbered, unlisted-TagsHold, moved-TagsHold,
}

module _ (mb mb' : MessageBuilder) (tag : ℤ) (f : ℕ) (e : add_tag_to mb tag f ≡ some mb') where
  fresh_tag : eqz tag (pos 0) ≡ false → mb.field_tags tag ≡ none
  unfolding add_tag_to
  fresh_tag nz = ground (arith, e, nz)

  at_zero : eqz tag (pos 0) ≡ true → add_tag_to mb tag f ≡ some mb
  unfolding add_tag_to
  at_zero zero = rw zero refl

  at_free :
      eqz tag (pos 0) ≡ false
      → mb.field_tags tag ≡ none
      → add_tag_to mb tag f ≡ some (record mb { field_tags = put_tag mb.field_tags tag (some f) })
  unfolding add_tag_to
  at_free nz free = rw (nz, free) refl

  tags-add_tag :
      (n : ℤ)
      → mb'.field_tags n ≡ (
          if eqz tag (pos 0)
          then mb.field_tags n
          else if eqz n tag
          then some f
          else mb.field_tags n)
  tags-add_tag n = elim (Bool-cases (eqz tag (pos 0))) [
    | inl zero ↦
        let same : mb' ≡ mb = ground (arith, sym (at_zero zero) ∙ e) in
        ap (λ b. b.field_tags n) same ∙ rw zero refl
    | inr nz ↦
        let same : mb' ≡ record mb { field_tags = put_tag mb.field_tags tag (some f) } =
          ground (arith, sym (at_free nz (fresh_tag nz)) ∙ e) in
        ap (λ b. b.field_tags n) same ∙ (unfold put_tag in rw nz refl)
  ]

at_message : (h : Builders) (m : ℕ) (mb : MessageBuilder) → (set_message h m mb).messages m ≡ mb
unfolding write
at_message h m mb = ground arith

module _ (h : Builders) (f : ℕ) (tag : ℤ) where
  parent_with : (g : ℕ) → ((with_number h f tag).fields g).parent ≡ (h.fields g).parent
  unfolding write
  parent_with g = ground arith

  numbers_with :
      (g : ℕ)
      → ((with_number h f tag).fields g).number ≡ (if g == f then tag else (h.fields g).number)
  unfolding write
  numbers_with g = ground arith

  extensions_with :
      (g : ℕ) → is_extension ((with_number h f tag).fields g) ≡ is_extension (h.fields g)
  unfolding write is_extension
  extensions_with g = ground arith

  -- Whatever is written to the messages, the fields differ by the number alone.
  written-Renumbered :
      (messages : ℕ → MessageBuilder)
      → Renumbered h (record (with_number h f tag) { messages = messages }) f tag
  written-Renumbered messages = record {
    numbers = numbers_with;
    extensions = extensions_with;
    owners = λ g. unfold message_of_field in ap (message_of_parent h.oneofs) (parent_with g);
  }

  module _ (t : TagsHold h) where
    unlisted : ((m : ℕ) → ¬ IsListed h m f) → TagsHold (with_number h f tag)
    unlisted out =
        unlisted-TagsHold h (with_number h f tag) f tag (written-Renumbered h.messages) t out
          (λ m n. refl)

    moved_to :
        (m : ℕ) (mb : MessageBuilder)
        → IsListed h m f
        → eqz tag (h.fields f).number ≡ false
        → add_tag_to (h.messages m) tag f ≡ some mb
        → TagsHold (set_message (with_number h f tag) m (delete_tag mb (h.fields f).number))
    moved_to m mb l ne e =
        let h' = set_message (with_number h f tag) m (delete_tag mb (h.fields f).number) in
        moved-TagsHold h h' f tag (written-Renumbered h'.messages) t m l ne
          (fresh_tag (h.messages m) mb tag f e) (λ q n o. unfold write in rw o refl)
          (λ n.
            ap (λ b. b.field_tags n)
              (at_message (with_number h f tag) m (delete_tag mb (h.fields f).number))
            ∙ (unfold put_tag in rw (tags-add_tag (h.messages m) mb tag f e n) refl))

    move-TagsHold :
        (o : Option ℕ)
        → message_of_field h f ≡ o
        → is_extension (h.fields f) ≡ false
        → eqz tag (h.fields f).number ≡ false
        → TagsHold (move_tag h f tag o).0
    move-TagsHold none own reg ne =
        unfold move_tag in unlisted (λ m l. ground (arith, sym own ∙ l.owned))
    move-TagsHold (some m) own reg ne = elim (Option-cases (add_tag_to (h.messages m) tag f)) [
      | inl e ↦ subst (λ r. TagsHold r.0) (sym (tag_refused h f tag m e)) t
      | inr (mb, e) ↦
          subst (λ r. TagsHold r.0) (sym (tag_moved h f tag m mb e))
            (moved_to m mb (record { regular = reg; owned = own }) ne e)
    ]

-- TrySetNumber keeps the field tags true, whether it is refused or not: the tags of a message are
-- exactly the numbers, other than 0, of the regular fields in it and in its oneofs, and each leads to
-- its field; so no two of these fields have the same number.
pub try_set_number-TagsHold :
    (h : Builders) (f : ℕ) (tag : ℤ) → TagsHold h → TagsHold (try_set_number h f tag).0
try_set_number-TagsHold h f tag t = elim (Bool-cases (eqz tag (h.fields f).number)) [
  | inl same ↦ subst (λ r. TagsHold r.0) (sym (same_number h f tag same)) t
  | inr ne ↦ elim (Option-cases (check_number (is_extension (h.fields f)) tag)) [
    | inr (e, bad) ↦ subst (λ r. TagsHold r.0) (sym (refused_number h f tag e ne bad)) t
    | inl good ↦ elim (Bool-cases (is_extension (h.fields f))) [
      | inl ext ↦
          subst (λ r. TagsHold r.0) (sym (extension_number h f tag ne good ext))
            (unlisted h f tag t (λ m l. ground (arith, sym ext ∙ l.regular)))
      | inr reg ↦
          subst (λ r. TagsHold r.0) (sym (field_number h f tag ne good reg))
            (move-TagsHold h f tag t (message_of_field h f) refl reg ne)
    ]
  ]
]
