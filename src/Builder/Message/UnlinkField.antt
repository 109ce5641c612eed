-- ===== src/Builder/Message/UnlinkField.antt =====
-- Unlink on a field of protobuilder/message.go: what it leaves of the fields and of the field tags.
use protoreflect.Common.{
  ℕ, ◌≡◌, refl, sym, ap, ◌∙◌, subst, Bool, true, false, ◌&&◌, not, Option, none, some, ◌==◌,
  if◌then◌else◌, ==_iff, Bool-cases, inl, inr, arith,
}
use protoreflect.Common.Int.{ℤ, eqz}
use protoreflect.Builder.Enum.{write}
use protoreflect.Builder.Message.{
  Builder, field, oneof, message, enum, OneofBuilder, MessageBuilder, Builders, put_symbol, put_tag,
  set_oneof, set_parent, same_builder, name_of, parent_of, is_child_of, is_extension,
  message_of_oneof,
}
use protoreflect.Builder.Message.Remove.{
  delete_named, forget_msg_type, forget_child, remove_from_message, forget_choice,
  remove_from_oneof, remove_child_of, unlink_builder,
}
use protoreflect.Builder.Message.Number.{message_of_parent, message_of_field}
use protoreflect.Builder.Message.Moved.{owned_by}
use protoreflect.Builder.Message.Unlinked.{
  number_of, extension_of, tags_of, message_of_parent_same, IsUnlinked, without_parent,
  field_tags-write, leave_tags,
}

module _ (h : Builders) (f : ℕ) where
  module _ (messages : ℕ → MessageBuilder) (oneofs : ℕ → OneofBuilder)
      (same : (o : ℕ) → (oneofs o).parent ≡ (h.oneofs o).parent) where
    number_without : (g : ℕ) → number_of (without_parent h f messages oneofs) g ≡ number_of h g
    unfolding write
    number_without g = ground arith

    extension_without :
        (g : ℕ) → extension_of (without_parent h f messages oneofs) g ≡ extension_of h g
    unfolding write is_extension
    extension_without g = ground arith

    parent_without :
        (g : ℕ)
        → ((without_parent h f messages oneofs).fields g).parent
          ≡ (if g == f then none else (h.fields g).parent)
    unfolding write
    parent_without g = ground arith

    message_of_none : message_of_parent oneofs none ≡ none
    unfolding message_of_parent
    message_of_none = refl

    owner_without_parent :
        (g : ℕ)
        → message_of_field (without_parent h f messages oneofs) g
          ≡ (if g == f then none else message_of_field h g)
    unfolding message_of_field
    owner_without_parent g = ap (message_of_parent oneofs) (parent_without g) ∙ by_case (g == f)
      where
        by_case :
            (b : Bool)
            → message_of_parent oneofs (if b then none else (h.fields g).parent)
              ≡ (if b then none else message_of_parent h.oneofs (h.fields g).parent)
        by_case true = message_of_none
        by_case false = message_of_parent_same h.oneofs oneofs same (h.fields g).parent

    unlinked_lem :
        ((m : ℕ) (n : ℤ)
          → (messages m).field_tags n ≡ (
              if not (extension_of h f)
                && owned_by (message_of_field h f) m
                && eqz n (number_of h f)
              then none
              else tags_of h m n))
        → IsUnlinked h (without_parent h f messages oneofs) f
    unlinked_lem tags = record {
      numbers = number_without;
      extensions = extension_without;
      owners = owner_without_parent;
      oneof_parents = same;
      tags = tags;
    }

  -- A field in no message, to which nothing is done.
  root-IsUnlinked : message_of_field h f ≡ none → IsUnlinked h h f
  root-IsUnlinked root = record {
    numbers = λ g. refl;
    extensions = λ g. refl;
    owners = λ g. elim (Bool-cases (g == f)) [
      | inr other ↦ rw other refl
      | inl at_f ↦ rw at_f (ap (message_of_field h) ((==_iff g f).0 at_f) ∙ root)
    ];
    oneof_parents = λ o. refl;
    tags = λ m n. rw root (ground arith);
  }

  same_builder_refl : (b : Builder) → same_builder b b ≡ true
  unfolding same_builder
  same_builder_refl (field a) = ground arith
  same_builder_refl (oneof a) = ground arith
  same_builder_refl (message a) = ground arith
  same_builder_refl (enum a) = ground arith

  child_of_parent : (p : Builder) → (h.fields f).parent ≡ some p → is_child_of h p (field f) ≡ true
  unfolding is_child_of parent_of
  child_of_parent p e =
      ap (λ o. elim o as (λ _. Bool) [ none ↦ false | some q ↦ same_builder q p ]) e
      ∙ same_builder_refl p

  tags-forget_child :
      (m : ℕ) (n : ℤ)
      → (forget_child h (h.messages m) (field f)).field_tags n
        ≡ (if not (extension_of h f) && eqz n (number_of h f) then none else tags_of h m n)
  unfolding forget_child put_tag
  tags-forget_child m n = ground arith

  module _ (p : ℕ) where
    abbrev without_field : MessageBuilder
    without_field =
        let mb = forget_child h (h.messages p) (field f) in
        record mb { symbols = put_symbol mb.symbols (name_of h (field f)) none }

    removed :
        (h.fields f).parent ≡ some (message p)
        → remove_from_message h p (field f)
          ≡ without_parent h f (write h.messages p without_field) h.oneofs
    removed under =
        unfold remove_from_message set_parent in rw (child_of_parent (message p) under) refl

    owner_message : (h.fields f).parent ≡ some (message p) → message_of_field h f ≡ some p
    unfolding message_of_field message_of_parent
    owner_message under = ap (message_of_parent h.oneofs) under

    tags_removed :
        (mb : MessageBuilder)
        → ((n : ℤ)
            → mb.field_tags n
              ≡ (if not (extension_of h f) && eqz n (number_of h f) then none else tags_of h p n))
        → message_of_field h f ≡ some p
        → (m : ℕ) (n : ℤ)
        → (write h.messages p mb m).field_tags n ≡ (
            if not (extension_of h f) && owned_by (message_of_field h f) m && eqz n (number_of h f)
            then none
            else tags_of h m n)
    tags_removed mb e own m n =
        field_tags-write h.messages p mb m n
        ∙ rw (e n, own)
            (leave_tags (not (extension_of h f)) (eqz n (number_of h f)) p m (λ q. tags_of h q n))

    message-IsUnlinked :
        (h.fields f).parent ≡ some (message p) → IsUnlinked h (remove_from_message h p (field f)) f
    message-IsUnlinked under =
        subst (λ h'. IsUnlinked h h' f) (sym (removed under))
          (unlinked_lem (write h.messages p without_field) h.oneofs (λ o. refl)
            (tags_removed without_field (tags-forget_child p) (owner_message under)))

  module _ (o : ℕ) where
    abbrev without_choice : OneofBuilder
    without_choice = record (h.oneofs o) {
      choices = delete_named (λ g. (h.fields g).name) (h.fields f).name (h.oneofs o).choices;
      symbols = put_symbol (h.oneofs o).symbols (h.fields f).name none;
    }

    abbrev without_tag : ℕ → MessageBuilder
    without_tag m = record (h.messages m) {
      field_tags = put_tag (h.messages m).field_tags (h.fields f).number none;
      symbols =
          forget_msg_type h (h.fields f) (put_symbol (h.messages m).symbols (h.fields f).name none);
    }

    -- The messages behind the removal of a choice from a oneof in the given message.
    abbrev messages_without : Option ℕ → ℕ → MessageBuilder
    messages_without p = elim p [ none ↦ h.messages | some m ↦ write h.messages m (without_tag m) ]

    parent-write : (q : ℕ) → (write h.oneofs o without_choice q).parent ≡ (h.oneofs q).parent
    unfolding write
    parent-write q = ground arith

    forgotten :
        (p : Option ℕ)
        → set_parent (set_oneof (forget_choice h f p) o without_choice) (field f) none
          ≡ without_parent h f (messages_without p) (write h.oneofs o without_choice)
    unfolding forget_choice set_parent
    forgotten none = refl
    forgotten (some m) = refl

    choice_removed :
        (h.fields f).parent ≡ some (oneof o)
        → remove_from_oneof h o f
          ≡ without_parent h f
              (messages_without (message_of_oneof (h.oneofs o)))
              (write h.oneofs o without_choice)
    choice_removed under =
        unfold remove_from_oneof in
        rw (child_of_parent (oneof o) under) (forgotten (message_of_oneof (h.oneofs o)))

    owner_oneof :
        (h.fields f).parent ≡ some (oneof o) → message_of_field h f ≡ message_of_oneof (h.oneofs o)
    unfolding message_of_field message_of_parent
    owner_oneof under = ap (message_of_parent h.oneofs) under

    tags_forgotten :
        (p : Option ℕ)
        → extension_of h f ≡ false
        → message_of_field h f ≡ p
        → (m : ℕ) (n : ℤ)
        → (messages_without p m).field_tags n ≡ (
            if not (extension_of h f) && owned_by (message_of_field h f) m && eqz n (number_of h f)
            then none
            else tags_of h m n)
    tags_forgotten none reg own m n = rw own (ground arith)
    tags_forgotten (some q) reg own m n =
        tags_removed q (without_tag q) (λ k. unfold put_tag in ground (arith, reg)) own m n

    oneof-IsUnlinked :
        extension_of h f ≡ false
        → (h.fields f).parent ≡ some (oneof o)
        → IsUnlinked h (remove_from_oneof h o f) f
    oneof-IsUnlinked reg under =
        subst (λ h'. IsUnlinked h h' f) (sym (choice_removed under))
          (unlinked_lem (messages_without (message_of_oneof (h.oneofs o)))
            (write h.oneofs o without_choice) parent-write
            (tags_forgotten (message_of_oneof (h.oneofs o)) reg (owner_oneof under)))

  owner_other :
      (p : Option Builder)
      → (h.fields f).parent ≡ p
      → message_of_field h f ≡ message_of_parent h.oneofs p
  unfolding message_of_field
  owner_other p under = ap (message_of_parent h.oneofs) under

  by_parent :
      extension_of h f ≡ false
      → (p : Option Builder) → (h.fields f).parent ≡ p
      → IsUnlinked h (elim p [ none ↦ h | some q ↦ remove_child_of h q (field f) ]) f
  unfolding remove_child_of message_of_parent
  by_parent reg none under = root-IsUnlinked (owner_other none under)
  by_parent reg (some (message p)) under = message-IsUnlinked p under
  by_parent reg (some (oneof o)) under = oneof-IsUnlinked o reg under
  by_parent reg (some (field g)) under = root-IsUnlinked (owner_other (some (field g)) under)
  by_parent reg (some (enum e)) under = root-IsUnlinked (owner_other (some (enum e)) under)

-- Unlink on a regular field: it is in no message any more, and its number is in no message's tags.
pub unlink_builder-IsUnlinked :
    (h : Builders) (f : ℕ) → extension_of h f ≡ false → IsUnlinked h (unlink_builder h (field f)) f
unfolding unlink_builder parent_of
unlink_builder-IsUnlinked h f reg = by_parent h f reg (h.fields f).parent refl
