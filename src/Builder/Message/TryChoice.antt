-- ===== src/Builder/Message/TryChoice.antt =====
-- TryAddChoice and TryRemoveChoice of protobuilder/field.go keep the field tags of all messages true.
use protoreflect.Common.{
  ℕ, ◌≡◌, ◌⊎◌, refl, sym, ap, ◌∙◌, subst, Bool, true, false, Option, none, some, Bytes, is_some,
  ==_iff, Bool-cases, inl, inr, arith,
}
use protoreflect.Builder.Enum.{write}
use protoreflect.Builder.Message.{
  Builder, field, oneof, message, enum, OneofBuilder, Builders, BuilderError, symbol_taken,
  is_an_extension, set_oneof, is_extension, message_of_oneof, is_child_of, parent_of, same_builder,
}
use protoreflect.Builder.Message.Remove.{unlink_builder, remove_from_oneof, remove_child_of}
use protoreflect.Builder.Message.Choice.{
  check_choice, add_choice_symbol, append_choice, register_choice, try_add_choice,
  try_remove_choice,
}
use protoreflect.Builder.Message.Number.{message_of_field}
use protoreflect.Builder.Message.Tags.{TagsHold}
use protoreflect.Builder.Message.Unlinked.{
  extension_of, message_of_parent_same, IsUnlinked-TagsHold,
}
use protoreflect.Builder.Message.UnlinkField.{unlink_builder-IsUnlinked}
use protoreflect.Builder.Message.AddChoice.{
  finish, loose-TagsHold, register_choice-TagsHold, oneofs-TagsHold, oneof_parent-write,
  message_of_oneof_same,
}

-- TryAddChoice may have the oneof outside of every message only if the field is in none either.
abbrev pub MayTake : Builders → ℕ → ℕ → Type 0
MayTake h o f = (is_some (message_of_oneof (h.oneofs o)) ≡ true) ⊎ (message_of_field h f ≡ none)

checked_choice :
    (h : Builders) (o f : ℕ)
    → TagsHold h
    → extension_of h f ≡ false
    → MayTake h o f
    → TagsHold (finish o f (register_choice h o f (message_of_oneof (h.oneofs o))))
unfolding register_choice
checked_choice h o f t reg may = by_message (message_of_oneof (h.oneofs o)) refl
  where
    by_message :
        (p : Option ℕ)
        → message_of_oneof (h.oneofs o) ≡ p
        → TagsHold (finish o f (register_choice h o f p))
    by_message (some m) e = register_choice-TagsHold o f h m t reg e
    by_message none e = elim may [
      | inl inside ↦ absurd (ground (arith, sym inside ∙ ap is_some e))
      | inr root ↦ loose-TagsHold h o f e root t
    ]

-- addSymbol changes nothing of the tags, nor where a oneof or a field is.
symbol_added :
    (h : Builders) (o f : ℕ) (oob : OneofBuilder)
    → oob.parent ≡ (h.oneofs o).parent
    → TagsHold h
    → extension_of h f ≡ false
    → MayTake h o f
    → TagsHold (
        finish o f (
          register_choice
            (set_oneof h o oob)
            o
            f
            (message_of_oneof ((set_oneof h o oob).oneofs o))))
symbol_added h o f oob same t reg may =
    let os = oneof_parent-write h.oneofs o oob same in
    checked_choice (set_oneof h o oob) o f (oneofs-TagsHold h (write h.oneofs o oob) os t) reg
      (elim may [
        | inl inside ↦ inl (
            ap is_some (message_of_oneof_same (write h.oneofs o oob o) (h.oneofs o) (os o))
            ∙ inside)
        | inr root ↦
            let same_owner : message_of_field (set_oneof h o oob) f ≡ message_of_field h f =
              unfold message_of_field in
              message_of_parent_same h.oneofs (write h.oneofs o oob) os (h.fields f).parent in
            inr (same_owner ∙ root)
      ])

check_choice-none :
    (h : Builders) (f : ℕ) → check_choice (h.fields f) ≡ none → extension_of h f ≡ false
unfolding check_choice
check_choice-none h f e = elim (Bool-cases (is_extension (h.fields f))) [
  | inl ext ↦
      let refused : check_choice (h.fields f) ≡ some is_an_extension = rw ext refl in
      absurd (ground (arith, sym e ∙ refused))
  | inr reg ↦ reg
]

module _ (h : Builders) (o f : ℕ) (t : TagsHold h) (may : MayTake h o f) where
  -- TryAddChoice behind its guards, and behind addSymbol.
  abbrev behind_symbol : Option Builders → Builders × Option BuilderError
  behind_symbol s = elim s as (λ _. Builders × Option BuilderError) [
    | none ↦ (h, some symbol_taken)
    | some h1 ↦ elim (register_choice h1 o f (message_of_oneof (h1.oneofs o))).1 [
      | none ↦ (append_choice (register_choice h1 o f (message_of_oneof (h1.oneofs o))).0 o f, none)
      | some e ↦ ((register_choice h1 o f (message_of_oneof (h1.oneofs o))).0, some e)
    ]
  ]

  behind_symbol-TagsHold :
      extension_of h f ≡ false → TagsHold (behind_symbol (add_choice_symbol h o f)).0
  unfolding add_choice_symbol
  behind_symbol-TagsHold reg =
      elim (Bool-cases (is_some ((h.oneofs o).symbols (h.fields f).name))) [
        | inl taken ↦ rw taken t
        | inr new ↦ rw new (symbol_added h o f _ refl t reg may)
      ]

  behind_check-TagsHold :
      (c : Option BuilderError)
      → check_choice (h.fields f) ≡ c
      → TagsHold
          (elim c as (λ _. Builders × Option BuilderError) [
            | some e ↦ (h, some e)
            | none ↦ behind_symbol (add_choice_symbol h o f)
          ]).0
  behind_check-TagsHold (some e) x = t
  behind_check-TagsHold none x = behind_symbol-TagsHold (check_choice-none h f x)

-- TryAddChoice keeps the field tags true, if the oneof is in a message or the field is in none.
pub try_add_choice-TagsHold :
    (h : Builders) (o f : ℕ) → TagsHold h → MayTake h o f → TagsHold (try_add_choice h o f).0
unfolding try_add_choice
try_add_choice-TagsHold h o f t may =
    behind_check-TagsHold h o f t may (check_choice (h.fields f)) refl

pub child_parent :
    (h : Builders) (o f : ℕ)
    → is_child_of h (oneof o) (field f) ≡ true
    → (h.fields f).parent ≡ some (oneof o)
unfolding is_child_of parent_of same_builder
child_parent h o f e = by_parent (h.fields f).parent e
  where
    by_parent :
        (p : Option Builder)
        → (elim p as (λ _. Bool) [ none ↦ false | some q ↦ same_builder q (oneof o) ]) ≡ true
        → p ≡ some (oneof o)
    by_parent none x = absurd (ground (arith, x))
    by_parent (some (oneof k)) x = ap (λ j. some (oneof j)) ((==_iff k o).0 x)
    by_parent (some (field k)) x = absurd (ground (arith, x))
    by_parent (some (message k)) x = absurd (ground (arith, x))
    by_parent (some (enum k)) x = absurd (ground (arith, x))

choice_removed-TagsHold :
    (h : Builders) (o f : ℕ)
    → TagsHold h
    → extension_of h f ≡ false
    → TagsHold (remove_from_oneof h o f)
choice_removed-TagsHold h o f t reg = elim (Bool-cases (is_child_of h (oneof o) (field f))) [
  | inl child ↦
      let under = child_parent h o f child in
      let same : unlink_builder h (field f) ≡ remove_from_oneof h o f =
        unfold unlink_builder parent_of remove_child_of in
        ap (λ p. elim p as (λ _. Builders) [ none ↦ h | some q ↦ remove_child_of h q (field f) ])
          under in
      subst TagsHold same
        (IsUnlinked-TagsHold h (unlink_builder h (field f)) f (unlink_builder-IsUnlinked h f reg) t)
  | inr apart ↦
      let same : h ≡ remove_from_oneof h o f = unfold remove_from_oneof in rw apart refl in
      subst TagsHold same t
]

-- TryRemoveChoice keeps the field tags true, if it removes no extension.
pub try_remove_choice-TagsHold :
    (h : Builders) (o : ℕ) (name : Bytes)
    → TagsHold h
    → ((f : ℕ) → (h.oneofs o).symbols name ≡ some f → extension_of h f ≡ false)
    → TagsHold (try_remove_choice h o name).0
unfolding try_remove_choice
try_remove_choice-TagsHold h o name t regular = by_symbol ((h.oneofs o).symbols name) refl
  where
    by_symbol :
        (s : Option ℕ)
        → (h.oneofs o).symbols name ≡ s
        → TagsHold
            (elim s as (λ _. Builders × Bool) [
              | none ↦ (h, false)
              | some f ↦ (remove_from_oneof h o f, true)
            ]).0
    by_symbol none e = t
    by_symbol (some f) e = choice_removed-TagsHold h o f t (regular f e)
