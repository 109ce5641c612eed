-- ===== src/Builder/Message/AddChoice.antt =====
-- The end of TryAddChoice of protobuilder/field.go, where the field comes into the oneof, keeps the field
-- tags true.
use protoreflect.Common.{
  ℕ, ◌≡◌, refl, sym, ap, ◌∙◌, Bool, true, false, Option, none, some, Bytes, ◌==◌, if◌then◌else◌,
  ==_iff, Bool-cases, inl, inr, arith,
}
use protoreflect.Builder.Enum.{write}
use protoreflect.Builder.Message.{
  field, oneof, OneofBuilder, Builders, BuilderError, is_extension, message_of_oneof,
}
use protoreflect.Builder.Message.Remove.{unlink_builder}
use protoreflect.Builder.Message.Register.{register_field}
use protoreflect.Builder.Message.Add.{is_present_but_not_child, and_then}
use protoreflect.Builder.Message.Choice.{delete_choice_symbol, append_choice, register_choice}
use protoreflect.Builder.Message.Number.{message_of_parent, message_of_field}
use protoreflect.Builder.Message.Tags.{TagsHold}
use protoreflect.Builder.Message.Unlinked.{
  number_of, extension_of, tags_of, TagsHold-TagsOf, TagsOf-TagsHold, message_of_parent_same,
}
use protoreflect.Builder.Message.AddTags.{IsLanded}
use protoreflect.Builder.Message.AddField.{unlink_then_add, move, add_then_unlink}

-- Other oneofs, each of which is where it was, change nothing of the tags.
pub oneofs-TagsHold :
    (h : Builders) (os : ℕ → OneofBuilder)
    → ((k : ℕ) → (os k).parent ≡ (h.oneofs k).parent)
    → TagsHold h
    → TagsHold (record h { oneofs = os })
oneofs-TagsHold h os same t =
    TagsOf-TagsHold (record h { oneofs = os }) (number_of h) (extension_of h) (message_of_field h)
      (tags_of h) (TagsHold-TagsOf h t) (λ g. refl) (λ g. refl)
      (λ g. unfold message_of_field in message_of_parent_same h.oneofs os same (h.fields g).parent)
      (λ m n. refl)

pub oneof_parent-write :
    (os : ℕ → OneofBuilder) (o : ℕ) (oob : OneofBuilder)
    → oob.parent ≡ (os o).parent
    → (k : ℕ) → (write os o oob k).parent ≡ (os k).parent
unfolding write
oneof_parent-write os o oob same k = elim (Bool-cases (k == o)) [
  | inl at ↦ rw at (same ∙ ap (λ j. (os j).parent) (sym ((==_iff k o).0 at)))
  | inr other ↦ rw other refl
]

pub message_of_oneof_same :
    (a b : OneofBuilder) → a.parent ≡ b.parent → message_of_oneof a ≡ message_of_oneof b
unfolding message_of_oneof
message_of_oneof_same a b e = rw e refl

module _ (h : Builders) (o f : ℕ) where
  number-choice : (g : ℕ) → number_of (append_choice h o f) g ≡ number_of h g
  unfolding append_choice write
  number-choice g = ground arith

  extension-choice : (g : ℕ) → extension_of (append_choice h o f) g ≡ extension_of h g
  unfolding append_choice write is_extension
  extension-choice g = ground arith

  tags-choice : (q : ℕ) → tags_of (append_choice h o f) q ≡ tags_of h q
  unfolding append_choice
  tags-choice q = refl

  parent-choice :
      (g : ℕ)
      → ((append_choice h o f).fields g).parent
        ≡ (if g == f then some (oneof o) else (h.fields g).parent)
  unfolding append_choice write
  parent-choice g = ground arith

  oneofs-choice : (k : ℕ) → ((append_choice h o f).oneofs k).parent ≡ (h.oneofs k).parent
  unfolding append_choice write
  oneofs-choice k = oneof_parent-write h.oneofs o _ refl k

  owner-choice :
      (g : ℕ)
      → message_of_field (append_choice h o f) g
        ≡ (if g == f then message_of_oneof (h.oneofs o) else message_of_field h g)
  unfolding message_of_field message_of_parent
  owner-choice g =
      message_of_parent_same h.oneofs (append_choice h o f).oneofs oneofs-choice
        ((append_choice h o f).fields g).parent
      ∙ ap (message_of_parent h.oneofs) (parent-choice g)
      ∙ by_case (g == f)
    where
      by_case :
          (b : Bool)
          → message_of_parent h.oneofs (if b then some (oneof o) else (h.fields g).parent) ≡ (
              if b
              then message_of_oneof (h.oneofs o)
              else message_of_parent h.oneofs (h.fields g).parent)
      by_case true = refl
      by_case false = refl

  pub append_choice-IsLanded :
      (m : ℕ) → message_of_oneof (h.oneofs o) ≡ some m → IsLanded h (append_choice h o f) m f
  append_choice-IsLanded m inside = record {
    numbers = number-choice;
    extensions = extension-choice;
    owners = λ g. owner-choice g ∙ ap (λ p. if g == f then p else message_of_field h g) inside;
    tags = λ q n. ap (λ t. t n) (tags-choice q);
  }

  -- A field in no message that comes into a oneof in no message.
  pub loose-TagsHold :
      message_of_oneof (h.oneofs o) ≡ none
      → message_of_field h f ≡ none
      → TagsHold h
      → TagsHold (append_choice h o f)
  loose-TagsHold loose root t =
      TagsOf-TagsHold (append_choice h o f) (number_of h) (extension_of h) (message_of_field h)
        (tags_of h) (TagsHold-TagsOf h t) number-choice extension-choice
        (λ g.
          owner-choice g
          ∙ ap (λ p. if g == f then p else message_of_field h g) loose
          ∙ same_owner g)
        (λ q n. ap (λ s. s n) (tags-choice q))
    where
      same_owner : (g : ℕ) → (if g == f then none else message_of_field h g) ≡ message_of_field h g
      same_owner g = elim (Bool-cases (g == f)) [
        | inl at ↦ rw at (sym (ap (message_of_field h) ((==_iff g f).0 at) ∙ root))
        | inr other ↦ rw other refl
      ]

-- The end of TryAddChoice.
module _ (o f : ℕ) where
  abbrev pub finish : Builders × Option BuilderError → Builders
  finish r =
      (elim r.1 as (λ _. Builders × Option BuilderError) [
        | none ↦ (append_choice r.0 o f, none)
        | some e ↦ (r.0, some e)
      ]).0

  module _ (h : Builders) (m : ℕ) (t : TagsHold h) (reg : extension_of h f ≡ false)
      (inside : message_of_oneof (h.oneofs o) ≡ some m) where
    abbrev land : Builders → Builders
    land g = append_choice g o f

    lands :
        (g : Builders)
        → ((k : ℕ) → (g.oneofs k).parent ≡ (h.oneofs k).parent)
        → IsLanded g (land g) m f
    lands g same =
        append_choice-IsLanded g o f m
          (message_of_oneof_same (g.oneofs o) (h.oneofs o) (same o) ∙ inside)

    last_choice :
        (name : Bytes) (q : Builders × Option BuilderError)
        → TagsHold (and_then q (move h m f t reg land lands)).0
        → TagsHold (
            finish (elim q.1 as (λ _. Builders × Option BuilderError) [
              | none ↦ (unlink_builder q.0 (field f), none)
              | some e ↦ (delete_choice_symbol q.0 o name, some e)
            ]))
    unfolding and_then
    last_choice name (g, none) k = k
    last_choice name (g, some e) k =
        oneofs-TagsHold g (delete_choice_symbol g o name).oneofs
          (oneof_parent-write g.oneofs o _ refl) k

    pub register_choice-TagsHold : TagsHold (finish (register_choice h o f (some m)))
    unfolding register_choice and_then
    register_choice-TagsHold = elim (Bool-cases (is_present_but_not_child h m (field f))) [
      | inl present ↦ rw present (unlink_then_add h m f t reg land lands)
      | inr absent ↦ rw absent (
          last_choice (h.fields f).name (register_field h m f)
            (add_then_unlink h m f t reg land lands))
    ]
