-- ===== src/Builder/Message/FieldRun.antt =====
-- Sequences of the operations on fields of protobuilder/message.go and field.go.
use protoreflect.Common.{
  ℕ, ◌≡◌, ◌≢◌, refl, sym, ap, ◌∙◌, subst, Bool, true, false, Option, none, some, Bytes,
  if◌then◌else◌, Bool-cases, inl, inr, arith,
}
use protoreflect.Common.Int.{ℤ, pos}
use protoreflect.Builder.Message.{
  Builder, field, oneof, message, enum, Builders, is_extension, parent_of,
}
use protoreflect.Builder.Message.Remove.{remove_child_of, unlink_builder}
use protoreflect.Builder.Message.Add.{get_field, try_add_field, try_remove_field}
use protoreflect.Builder.Message.Add.{try_add_one_of}
use protoreflect.Builder.Message.Choice.{try_add_choice, try_remove_choice}
use protoreflect.Builder.Message.TryChoice.{
  MayTake, try_add_choice-TagsHold, try_remove_choice-TagsHold,
}
use protoreflect.Builder.Message.AddOneOf.{IsLoose}
use protoreflect.Builder.Message.TryAddOneOf.{try_add_one_of-TagsHold}
use protoreflect.Builder.Message.Number.{message_of_field, try_set_number}
use protoreflect.Builder.Message.Tags.{IsListed, TagsHold}
use protoreflect.Builder.Message.NumberTags.{try_set_number-TagsHold}
use protoreflect.Builder.Message.Unlinked.{IsUnlinked-TagsHold}
use protoreflect.Builder.Message.UnlinkField.{unlink_builder-IsUnlinked}
use protoreflect.Builder.Message.AddField.{try_add_field-TagsHold}

-- One call of an operation, whether it is refused or not, but for TryAddOneOf, where it is not; a call
-- that panics is no step. A oneof comes into a message with different choices whose parent it is, and
-- a oneof in no message takes fields in no message only. Unlink and TryRemoveChoice are on regular
-- fields.
pub data FieldStep : Builders → Builders → Type 0 where
  adds : (h : Builders) (m f : ℕ) → FieldStep h (try_add_field h m f).0
  sets_number : (h : Builders) (f : ℕ) (tag : ℤ) → FieldStep h (try_set_number h f tag).0
  unlinks :
      (h : Builders) (f : ℕ)
      → is_extension (h.fields f) ≡ false
      → FieldStep h (unlink_builder h (field f))
  adds_one_of :
      (h : Builders) (m o : ℕ)
      → IsLoose h o
      → (try_add_one_of h m o).1 ≡ none
      → FieldStep h (try_add_one_of h m o).0
  adds_choice : (h : Builders) (o f : ℕ) → MayTake h o f → FieldStep h (try_add_choice h o f).0
  removes_choice :
      (h : Builders) (o : ℕ) (name : Bytes)
      → ((f : ℕ) → (h.oneofs o).symbols name ≡ some f → is_extension (h.fields f) ≡ false)
      → FieldStep h (try_remove_choice h o name).0
  removes :
      (h h' : Builders) (m : ℕ) (name : Bytes) (found : Bool)
      → try_remove_field h m name ≡ some (h', found)
      → FieldStep h h'

-- Any number of calls.
pub data FieldRun (h0 : Builders) : Builders → Type 0 where
  begin : FieldRun h0 h0
  then_step : {h1 h2 : Builders} → FieldRun h0 h1 → FieldStep h1 h2 → FieldRun h0 h2

-- Every field is new: it is in no message, and no message has a tag.
pub record AllFieldsNew (h : Builders) : Type 0 where
  pub no_parent : (f : ℕ) → message_of_field h f ≡ none
  pub no_tags : (m : ℕ) (n : ℤ) → (h.messages m).field_tags n ≡ none

unlink-TagsHold :
    (h : Builders) (f : ℕ)
    → is_extension (h.fields f) ≡ false
    → TagsHold h
    → TagsHold (unlink_builder h (field f))
unlink-TagsHold h f reg t =
    IsUnlinked-TagsHold h (unlink_builder h (field f)) f (unlink_builder-IsUnlinked h f reg) t

module _ (h : Builders) (m : ℕ) (name : Bytes) where
  -- GetField finds regular fields only.
  found_regular : (f : ℕ) → get_field h m name ≡ some f → is_extension (h.fields f) ≡ false
  unfolding get_field
  found_regular f e = by_symbol ((h.messages m).symbols name) e
    where
      by_field :
          (g : ℕ)
          → (if is_extension (h.fields g) then none else some g) ≡ some f
          → is_extension (h.fields f) ≡ false
      by_field g x = elim (Bool-cases (is_extension (h.fields g))) [
        | inl ext ↦ absurd (ground (arith, x, ext))
        | inr reg ↦
            let at_f : g ≡ f = ground (arith, x, reg) in
            subst (λ k. is_extension (h.fields k) ≡ false) at_f reg
      ]

      by_symbol :
          (o : Option Builder)
          → (elim o as (λ _. Option ℕ) [
            | none ↦ none
            | some b ↦ elim b [
              | field g ↦ if is_extension (h.fields g) then none else some g
              | oneof _ ↦ none
              | message _ ↦ none
              | enum _ ↦ none
            ]
          ])
            ≡ some f
          → is_extension (h.fields f) ≡ false
      by_symbol none x = absurd (ground (arith, x))
      by_symbol (some (field g)) x = by_field g x
      by_symbol (some (oneof g)) x = absurd (ground (arith, x))
      by_symbol (some (message g)) x = absurd (ground (arith, x))
      by_symbol (some (enum g)) x = absurd (ground (arith, x))

  module _ (t : TagsHold h) (h' : Builders) (found : Bool) where
    same_builders :
        ◌≡◌ {A = Option (Builders × Bool)} (some (h, false)) (some (h', found)) → TagsHold h'
    same_builders e =
        let same : h ≡ h' = ap (λ o. elim o as (λ _. Builders) [ none ↦ h | some r ↦ r.0 ]) e in
        subst TagsHold same t

    from_parent :
        (f : ℕ) (p : Option Builder)
        → is_extension (h.fields f) ≡ false
        → (h.fields f).parent ≡ p
        → (elim p as (λ _. Option (Builders × Bool)) [
          | none ↦ none
          | some q ↦ some (remove_child_of h q (field f), true)
        ])
          ≡ some (h', found)
        → TagsHold h'
    from_parent f none reg under e = absurd (ground (arith, e))
    from_parent f (some q) reg under e =
        let same : remove_child_of h q (field f) ≡ h' =
          ap (λ o. elim o as (λ _. Builders) [ none ↦ h | some r ↦ r.0 ]) e in
        subst TagsHold same (subst TagsHold (unlinked_from f q under) (unlink-TagsHold h f reg t))
      where
        unlinked_from :
            (f : ℕ) (q : Builder)
            → (h.fields f).parent ≡ some q
            → unlink_builder h (field f) ≡ remove_child_of h q (field f)
        unlinked_from f q under =
            unfold unlink_builder parent_of in
            ap
              (λ o. elim o as (λ _. Builders) [ none ↦ h | some r ↦ remove_child_of h r (field f) ])
              under

    from_field :
        (o : Option ℕ)
        → get_field h m name ≡ o
        → (elim o as (λ _. Option (Builders × Bool)) [
          | none ↦ some (h, false)
          | some f ↦ elim (h.fields f).parent [
            | none ↦ none
            | some p ↦ some (remove_child_of h p (field f), true)
          ]
        ])
          ≡ some (h', found)
        → TagsHold h'
    from_field none g e = same_builders e
    from_field (some f) g e = from_parent f (h.fields f).parent (found_regular f g) refl e

    try_remove_field-TagsHold : try_remove_field h m name ≡ some (h', found) → TagsHold h'
    unfolding try_remove_field
    try_remove_field-TagsHold e = from_field (get_field h m name) refl e

FieldStep-TagsHold : {h h' : Builders} → FieldStep h h' → TagsHold h → TagsHold h'
FieldStep-TagsHold (adds h m f) t = try_add_field-TagsHold h m f t
FieldStep-TagsHold (sets_number h f tag) t = try_set_number-TagsHold h f tag t
FieldStep-TagsHold (adds_one_of h m o loose done) t = try_add_one_of-TagsHold h m o t loose done
FieldStep-TagsHold (adds_choice h o f may) t = try_add_choice-TagsHold h o f t may
FieldStep-TagsHold (removes_choice h o name regular) t =
    try_remove_choice-TagsHold h o name t regular
FieldStep-TagsHold (unlinks h f reg) t = unlink-TagsHold h f reg t
FieldStep-TagsHold (removes h h' m name found e) t = try_remove_field-TagsHold h m name t h' found e

pub FieldRun-TagsHold : {h0 h : Builders} → AllFieldsNew h0 → FieldRun h0 h → TagsHold h
FieldRun-TagsHold new begin = record {
  sound = λ m f n e. absurd (ground (arith, e, new.no_tags m n));
  complete = λ m f l nz. absurd (ground (arith, sym l.owned ∙ new.no_parent f));
}
FieldRun-TagsHold new (then_step r s) = FieldStep-TagsHold s (FieldRun-TagsHold new r)

-- From builders where every field is new, after any sequence of the calls below, two regular fields of
-- one message, whether they are in the message or in its oneofs, that have the same number other than
-- 0 are the same field. The calls are TryAddField, TryRemoveField, TrySetNumber and TryAddChoice,
-- refused or not, TryAddOneOf when it is not refused, and Unlink and TryRemoveChoice on regular
-- fields. TryAddOneOf is on a oneof with no parent, whose choices are different regular fields and are
-- the fields whose parent it is; TryAddChoice is on a oneof in a message or on a field in none.
pub FieldRun-same_field :
    {h0 h : Builders}
    → AllFieldsNew h0
    → FieldRun h0 h
    → (m f g : ℕ) → IsListed h m f
    → IsListed h m g
    → (h.fields f).number ≢ pos 0
    → (h.fields f).number ≡ (h.fields g).number
    → f ≡ g
FieldRun-same_field {h0} {h} new r m f g lf lg nz same =
    let t = FieldRun-TagsHold new r in
    let at_f = t.complete m f lf nz in
    let at_g = t.complete m g lg (λ z. nz (same ∙ z)) in
    ground (arith, sym at_f ∙ ap (h.messages m).field_tags same ∙ at_g)
