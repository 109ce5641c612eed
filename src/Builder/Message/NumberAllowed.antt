-- ===== src/Builder/Message/NumberAllowed.antt =====
-- TrySetNumber of protobuilder/field.go: which numbers it takes, and what a refused call leaves.
use protoreflect.Common.{
  ℕ, ◌≡◌, ◌⊎◌, refl, sym, ap, ◌∙◌, subst, true, false, Option, none, some, ◌==◌, if◌then◌else◌,
  is_some, ==_iff, Bool-cases, Option-cases, inl, inr, arith,
}
use protoreflect.Common.Int.{ℤ, eqz, eqz_iff}
use protoreflect.Builder.Enum.{write}
use protoreflect.Builder.Message.{
  MessageBuilder, Builders, BuilderError, tag_taken, set_message, is_extension,
}
use protoreflect.Builder.Message.Register.{add_tag_to, delete_tag}
use protoreflect.Builder.Message.Number.{
  check_number, message_of_field, with_number, move_tag, try_set_number, IsAllowed,
  check_number-none, check_number-some, numbers_back,
}

-- The number is as it was, or it is the new one and allowed; only this field's number changed.
abbrev pub NumberSet : Builders → ℕ → ℤ → Builders × Option BuilderError → Type 0
NumberSet h f tag r =
    (r.1 ≡ none)
    × ((tag ≡ (h.fields f).number) ⊎ IsAllowed (is_extension (h.fields f)) tag)
    × ((g : ℕ) → (r.0.fields g).number ≡ (if g == f then tag else (h.fields g).number))

-- Nothing changed: the number is not allowed, or a field of the message has it.
abbrev pub NumberKept : Builders → ℕ → ℤ → Builders × Option BuilderError → Type 0
NumberKept h f tag r =
    (r.0 ≡ h)
    × (is_some r.1 ≡ true)
    × ((¬ IsAllowed (is_extension (h.fields f)) tag)
        ⊎ ((m : ℕ) × (message_of_field h f ≡ some m)
            × (is_some ((h.messages m).field_tags tag) ≡ true)))

module _ (h : Builders) (f : ℕ) (tag : ℤ) where
  abbrev Outcome : Builders × Option BuilderError → Type 0
  Outcome r = NumberSet h f tag r ⊎ NumberKept h f tag r

  numbers_with :
      (g : ℕ)
      → ((with_number h f tag).fields g).number ≡ (if g == f then tag else (h.fields g).number)
  unfolding write
  numbers_with g = ground arith

  pub same_number : eqz tag (h.fields f).number ≡ true → try_set_number h f tag ≡ (h, none)
  unfolding try_set_number
  same_number same = rw (same, try_set_number) refl

  numbers_same :
      eqz tag (h.fields f).number ≡ true
      → (g : ℕ) → (h.fields g).number ≡ (if g == f then tag else (h.fields g).number)
  numbers_same same g = elim (Bool-cases (g == f)) [
    | inl at_f ↦ rw at_f (
        ap (λ q. (h.fields q).number) ((==_iff g f).0 at_f)
        ∙ sym ((eqz_iff tag (h.fields f).number).0 same))
    | inr other ↦ rw other refl
  ]

  pub refused_number :
      (e : BuilderError)
      → eqz tag (h.fields f).number ≡ false
      → check_number (is_extension (h.fields f)) tag ≡ some e
      → try_set_number h f tag ≡ (h, some e)
  unfolding try_set_number
  refused_number e ne bad = rw (ne, bad, try_set_number) refl

  module _ (ne : eqz tag (h.fields f).number ≡ false)
      (good : check_number (is_extension (h.fields f)) tag ≡ none) where
    pub extension_number :
        is_extension (h.fields f) ≡ true → try_set_number h f tag ≡ (with_number h f tag, none)
    unfolding try_set_number
    extension_number ext = rw (ne, good, try_set_number) (rw ext refl)

    pub field_number :
        is_extension (h.fields f) ≡ false
        → try_set_number h f tag ≡ move_tag h f tag (message_of_field h f)
    unfolding try_set_number
    field_number reg = rw (ne, good, try_set_number) (rw reg refl)

  module _ (m : ℕ) where
    pub tag_refused :
        add_tag_to (h.messages m) tag f ≡ none → move_tag h f tag (some m) ≡ (h, some tag_taken)
    unfolding move_tag
    tag_refused e = rw (e, move_tag) (ap (λ b. (b, some tag_taken)) (numbers_back h f tag))

    pub tag_moved :
        (mb : MessageBuilder)
        → add_tag_to (h.messages m) tag f ≡ some mb
        → move_tag h f tag (some m)
          ≡ (set_message (with_number h f tag) m (delete_tag mb (h.fields f).number), none)
    unfolding move_tag
    tag_moved mb e = rw (e, move_tag) refl

    why_refused :
        add_tag_to (h.messages m) tag f ≡ none → is_some ((h.messages m).field_tags tag) ≡ true
    unfolding add_tag_to
    why_refused e = ground (arith, e)

    move_result :
        message_of_field h f ≡ some m
        → IsAllowed (is_extension (h.fields f)) tag
        → Outcome (move_tag h f tag (some m))
    move_result under ok = elim (Option-cases (add_tag_to (h.messages m) tag f)) [
      | inl e ↦
          subst Outcome (sym (tag_refused e)) (inr (refl, refl, inr (m, under, why_refused e)))
      | inr (mb, e) ↦ subst Outcome (sym (tag_moved mb e)) (inl (refl, inr ok, numbers_with))
    ]

  move_cases :
      IsAllowed (is_extension (h.fields f)) tag
      → (o : Option ℕ) → message_of_field h f ≡ o
      → Outcome (move_tag h f tag o)
  move_cases ok none e = unfold move_tag in inl (refl, inr ok, numbers_with)
  move_cases ok (some m) e = move_result m e ok

-- TrySetNumber either returns none, and then the field has the number, which it had before or which
-- is from 0 to the greatest tag, outside the special reserved range and, for an extension, not 0,
-- and no other field's number changed; or it returns an error and changes nothing, and then the
-- number is not one of these or the field's message has a field under it.
pub try_set_number_result :
    (h : Builders) (f : ℕ) (tag : ℤ)
    → NumberSet h f tag (try_set_number h f tag) ⊎ NumberKept h f tag (try_set_number h f tag)
try_set_number_result h f tag = elim (Bool-cases (eqz tag (h.fields f).number)) [
  | inl same ↦
      subst (Outcome h f tag) (sym (same_number h f tag same))
        (inl (refl, inl ((eqz_iff tag (h.fields f).number).0 same), numbers_same h f tag same))
  | inr ne ↦ elim (Option-cases (check_number (is_extension (h.fields f)) tag)) [
    | inr (e, bad) ↦
        subst (Outcome h f tag) (sym (refused_number h f tag e ne bad))
          (inr (refl, refl, inl (check_number-some (is_extension (h.fields f)) tag e bad)))
    | inl good ↦
        let ok = check_number-none (is_extension (h.fields f)) tag good in
        elim (Bool-cases (is_extension (h.fields f))) [
          | inl ext ↦
              subst (Outcome h f tag) (sym (extension_number h f tag ne good ext))
                (inl (refl, inr ok, numbers_with h f tag))
          | inr reg ↦
              subst (Outcome h f tag) (sym (field_number h f tag ne good reg))
                (move_cases h f tag ok (message_of_field h f) refl)
        ]
  ]
]
