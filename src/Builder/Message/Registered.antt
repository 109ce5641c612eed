-- ===== src/Builder/Message/Registered.antt =====
-- registerField of protobuilder/message.go: all of a field is registered, or nothing of it.
use mathlib.Core.Path.{fun_ext}
use protoreflect.Common.{
  ℕ, ◌≡◌, ◌≢◌, ◌⊎◌, refl, sym, ap, ◌∙◌, subst, true, false, Option, none, some, Bytes,
  if◌then◌else◌, bytes_eq_iff, is_some, Bool-cases, inl, inr, arith,
}
use protoreflect.Common.Int.{ℤ, pos, eqz, eqz_iff}
use protoreflect.Builder.Enum.{write}
use protoreflect.Builder.Message.{
  Builder, field, message, MessageBuilder, Builders, BuilderError, symbol_taken, tag_taken,
  put_symbol, put_tag, set_message,
}
use protoreflect.Builder.Message.Register.{
  add_symbol_to, add_tag_to, delete_symbol, delete_tag, register_msg_type, register_tag,
  register_with, msg_type_of, register_field,
}

pub put_symbol_back :
    {A : Type 0}
    → (s : Bytes → Option A) (n : Bytes) (o : Option A) → s n ≡ none
    → put_symbol (put_symbol s n o) n none ≡ s
unfolding put_symbol
put_symbol_back s n o e = fun_ext (λ j. ground (arith, e, bytes_eq_iff j n, ap s))

put_tag_back :
    (s : ℤ → Option ℕ) (n : ℤ) (o : Option ℕ) → s n ≡ none → put_tag (put_tag s n o) n none ≡ s
unfolding put_tag
put_tag_back s n o e = fun_ext (λ j. ground (arith, e, eqz_iff j n, ap s))

write_back : (h : Builders) (m : ℕ) → set_message h m (h.messages m) ≡ h
unfolding write
write_back h m = ap (λ g. record h { messages = g }) (fun_ext (λ q. ground arith))

put_tag-none : (s : ℤ → Option ℕ) (n : ℤ) → s n ≡ none → put_tag s n none ≡ s
unfolding put_tag
put_tag-none s n e = fun_ext (λ j. ground (arith, e, eqz_iff j n, ap s))

-- The symbols with the message of the field added.
abbrev pub add_entry : (Bytes → Option Builder) → Option (Bytes × ℕ) → Bytes → Option Builder
add_entry s t = elim t [ none ↦ s | some e ↦ put_symbol s e.0 (some (message e.1)) ]

abbrev pub add_number : (ℤ → Option ℕ) → ℤ → ℕ → ℤ → Option ℕ
add_number s number f = if eqz number (pos 0) then s else put_tag s number (some f)

-- The message with all of the field registered.
abbrev pub registered : MessageBuilder → Bytes → ℤ → ℕ → Option (Bytes × ℕ) → MessageBuilder
registered mb name number f t = record mb {
  symbols = add_entry (put_symbol mb.symbols name (some (field f))) t;
  field_tags = add_number mb.field_tags number f;
}

-- The number is 0, which is for no number, or no field has it.
abbrev pub TagFree : MessageBuilder → ℤ → Type 0
TagFree mb number = (number ≡ pos 0) ⊎ (mb.field_tags number ≡ none)

abbrev pub EntryFree : MessageBuilder → Bytes → Option (Bytes × ℕ) → Type 0
EntryFree mb name t = (e : Bytes × ℕ) → t ≡ some e → (e.0 ≢ name) × (mb.symbols e.0 ≡ none)

-- One of the names is taken, or the two are the same, or the number is taken.
abbrev pub IsTaken : MessageBuilder → Bytes → ℤ → Option (Bytes × ℕ) → Type 0
IsTaken mb name number t =
    (is_some (mb.symbols name) ≡ true)
    ⊎ (is_some (mb.field_tags number) ≡ true)
    ⊎ ((e : Bytes × ℕ) × (t ≡ some e) × ((e.0 ≡ name) ⊎ (is_some (mb.symbols e.0) ≡ true)))

module _ (mb : MessageBuilder) (name : Bytes) (number : ℤ) (f : ℕ)
    (no_zero : mb.field_tags (pos 0) ≡ none) where
  abbrev Outcome : Option (Bytes × ℕ) → MessageBuilder × Option BuilderError → Type 0
  Outcome t r =
      ((r.0 ≡ mb) × (is_some r.1 ≡ true) × IsTaken mb name number t)
      ⊎ ((r ≡ (registered mb name number f t, none))
          × (mb.symbols name ≡ none)
          × TagFree mb number
          × EntryFree mb name t)

  abbrev with_field : MessageBuilder
  with_field = record mb { symbols = put_symbol mb.symbols name (some (field f)) }

  abbrev with_tag : MessageBuilder
  with_tag = record with_field { field_tags = add_number mb.field_tags number f }

  module _ (free : mb.symbols name ≡ none) (tag_free : TagFree mb number) where
    tag_none : eqz number (pos 0) ≡ false → mb.field_tags number ≡ none
    tag_none other = ground (arith, tag_free, eqz_iff number (pos 0))

    tags_back : put_tag (add_number mb.field_tags number f) number none ≡ mb.field_tags
    tags_back = elim (Bool-cases (eqz number (pos 0))) [
      | inl zero ↦ rw zero (
          put_tag-none mb.field_tags number
            (subst (λ n. mb.field_tags n ≡ none) (sym ((eqz_iff number (pos 0)).0 zero)) no_zero))
      | inr other ↦ rw other (put_tag_back mb.field_tags number (some f) (tag_none other))
    ]

    undone : delete_tag (delete_symbol with_tag name) number ≡ mb
    undone = rw (put_symbol_back mb.symbols name (some (field f)) free, tags_back) refl

    entry_taken :
        (entry : Bytes) (k : ℕ)
        → is_some (with_tag.symbols entry) ≡ true
        → register_msg_type with_tag name number (some (entry, k)) ≡ (mb, some symbol_taken)
    unfolding register_msg_type add_symbol_to
    entry_taken entry k taken =
        rw (taken, register_msg_type) (ap (λ b. (b, some symbol_taken)) undone)

    entry_fresh :
        (entry : Bytes) (k : ℕ)
        → is_some (with_tag.symbols entry) ≡ false
        → register_msg_type with_tag name number (some (entry, k))
          ≡ (registered mb name number f (some (entry, k)), none)
    unfolding register_msg_type add_symbol_to
    entry_fresh entry k fresh = rw (fresh, register_msg_type) refl

    why_taken :
        (entry : Bytes)
        → is_some (with_tag.symbols entry) ≡ true
        → (entry ≡ name) ⊎ (is_some (mb.symbols entry) ≡ true)
    unfolding put_symbol
    why_taken entry taken = ground (arith, bytes_eq_iff entry name)

    why_free :
        (entry : Bytes)
        → is_some (with_tag.symbols entry) ≡ false
        → (entry ≢ name) × (mb.symbols entry ≡ none)
    unfolding put_symbol
    why_free entry fresh = ground (arith, bytes_eq_iff entry name)

    msg_type_result :
        (t : Option (Bytes × ℕ)) → Outcome t (register_msg_type with_tag name number t)
    unfolding register_msg_type
    msg_type_result none = inr (refl, free, tag_free, λ e s. absurd (ground (arith, s)))
    msg_type_result (some (entry, k)) = elim (Bool-cases (is_some (with_tag.symbols entry))) [
      | inl taken ↦
          subst (Outcome (some (entry, k))) (sym (entry_taken entry k taken))
            (inl (refl, refl, inr (inr ((entry, k), refl, why_taken entry taken))))
      | inr fresh ↦ subst (Outcome (some (entry, k))) (sym (entry_fresh entry k fresh)) (
          inr (
            refl,
            free,
            tag_free,
            λ e s.
                subst (λ p. (p.0 ≢ name) × (mb.symbols p.0 ≡ none)) (some_inj s)
                  (why_free entry fresh),
          ))
    ]
      where
        some_inj : {A : Type 0} {a b : A} → some a ≡ some b → a ≡ b
        some_inj e = ground (arith, e)

  module _ (t : Option (Bytes × ℕ)) where
    tag_zero :
        eqz number (pos 0) ≡ true
        → register_tag with_field name number f t ≡ register_msg_type with_tag name number t
    unfolding register_tag add_tag_to
    tag_zero zero = rw (zero, register_tag) refl

    tag_taken_lem :
        eqz number (pos 0) ≡ false
        → is_some (mb.field_tags number) ≡ true
        → mb.symbols name ≡ none
        → register_tag with_field name number f t ≡ (mb, some tag_taken)
    unfolding register_tag add_tag_to
    tag_taken_lem other taken free =
        rw (other, taken, register_tag, put_symbol_back mb.symbols name (some (field f)) free) refl

    tag_fresh :
        eqz number (pos 0) ≡ false
        → is_some (mb.field_tags number) ≡ false
        → register_tag with_field name number f t ≡ register_msg_type with_tag name number t
    unfolding register_tag add_tag_to
    tag_fresh other fresh = rw (other, fresh, register_tag) refl

    tag_result : mb.symbols name ≡ none → Outcome t (register_tag with_field name number f t)
    tag_result free = elim (Bool-cases (eqz number (pos 0))) [
      | inl zero ↦
          subst (Outcome t) (sym (tag_zero zero))
            (msg_type_result free (inl ((eqz_iff number (pos 0)).0 zero)) t)
      | inr other ↦ elim (Bool-cases (is_some (mb.field_tags number))) [
        | inl taken ↦
            subst (Outcome t) (sym (tag_taken_lem other taken free))
              (inl (refl, refl, inr (inl taken)))
        | inr fresh ↦
            subst (Outcome t) (sym (tag_fresh other fresh))
              (msg_type_result free (inr (ground (arith, fresh))) t)
      ]
    ]

    name_taken :
        is_some (mb.symbols name) ≡ true
        → register_with mb name number f t ≡ (mb, some symbol_taken)
    unfolding register_with add_symbol_to
    name_taken taken = rw (taken, register_with) refl

    name_fresh :
        is_some (mb.symbols name) ≡ false
        → register_with mb name number f t ≡ register_tag with_field name number f t
    unfolding register_with add_symbol_to
    name_fresh fresh = rw (fresh, register_with) refl

    register_with_result : Outcome t (register_with mb name number f t)
    register_with_result = elim (Bool-cases (is_some (mb.symbols name))) [
      | inl taken ↦ subst (Outcome t) (sym (name_taken taken)) (inl (refl, refl, inl taken))
      | inr fresh ↦ subst (Outcome t) (sym (name_fresh fresh)) (tag_result (ground (arith, fresh)))
    ]

-- registerField, on a message that has no field under number 0, does one of two things. It returns an
-- error and leaves the message as it was, and a name or the number is taken; or it returns none, the
-- names and the number were free, and the message has the field under its name and, unless its
-- number is 0, under its number, and the message of a group or of a map's entries under its name.
pub register_field_result :
    (h : Builders) (m f : ℕ)
    → (h.messages m).field_tags (pos 0) ≡ none
    → let mb = h.messages m in
      let flb = h.fields f in
      let t = msg_type_of h f in
      let r = register_field h m f in
      ((r.0 ≡ h) × (is_some r.1 ≡ true) × IsTaken mb flb.name flb.number t)
      ⊎ ((r ≡ (set_message h m (registered mb flb.name flb.number f t), none))
          × (mb.symbols flb.name ≡ none)
          × TagFree mb flb.number
          × EntryFree mb flb.name t)
register_field_result h m f no_zero =
    unfold register_field in
    elim (register_with_result (h.messages m) (h.fields f).name (h.fields f).number f no_zero
      (msg_type_of h f)) [
        | inl (same, error, taken) ↦ inl (ap (set_message h m) same ∙ write_back h m, error, taken)
        | inr (done, free, tag_free, entry_free) ↦
            inr (ap (λ r. (set_message h m r.0, r.1)) done, free, tag_free, entry_free)
      ]
