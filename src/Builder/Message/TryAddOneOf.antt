-- ===== src/Builder/Message/TryAddOneOf.antt =====
-- TryAddOneOf of protobuilder/message.go keeps the field tags of all messages true when it is not refused.
use protoreflect.Common.{
  ℕ, ◌≡◌, refl, sym, ap, ◌∙◌, subst, Bool, true, false, Option, none, some, List, Bytes, ◌==◌,
  if◌then◌else◌, is_some, ==_iff, Bool-cases, inl, inr, arith,
}
use protoreflect.Common.Int.{ℤ}
use protoreflect.Builder.Enum.{write}
use protoreflect.Builder.Message.{
  Builder, field, oneof, message, enum, MessageBuilder, OneofBuilder, Builders, BuilderError,
  symbol_taken, set_message, same_builder, set_parent, is_extension, is_child_of, parent_of,
  message_of_oneof, put_symbol,
}
use protoreflect.Builder.Message.Remove.{unlink_builder, remove_child_of}
use protoreflect.Builder.Message.Register.{add_symbol_to}
use protoreflect.Builder.Message.Add.{
  append_element, register_choices, finish_one_of, try_add_one_of,
}
use protoreflect.Builder.Message.Number.{message_of_parent, message_of_field}
use protoreflect.Builder.Message.Tags.{TagsHold}
use protoreflect.Builder.Message.Moved.{TagsOf}
use protoreflect.Builder.Message.Unlinked.{
  number_of, extension_of, tags_of, TagsHold-TagsOf, TagsOf-TagsHold, field_tags-write,
}
use protoreflect.Builder.Message.TryChoice.{child_parent}
use protoreflect.Builder.Message.AddOneOf.{
  has_choice, AreRegistered, owners_after, register_loop, IsLoose, TagsOf-same, owners_after_lem,
}

-- The end of TryAddOneOf.
not_refused :
    (m o : ℕ) (r : Builders × ℕ × Option BuilderError) → (finish_one_of m o r).1 ≡ none → r.2 ≡ none
unfolding finish_one_of
not_refused m o (g, i, none) e = refl
not_refused m o (g, i, some b) e = absurd (ground (arith, e))

accepted_end :
    (m o : ℕ) (r : Builders × ℕ × Option BuilderError)
    → r.2 ≡ none
    → (finish_one_of m o r).0 ≡ append_element (unlink_builder r.0 (oneof o)) m (oneof o)
unfolding finish_one_of
accepted_end m o (g, i, none) e = refl
accepted_end m o (g, i, some b) e = absurd (ground (arith, e))

unlink_root : (r : Builders) (o : ℕ) → (r.oneofs o).parent ≡ none → unlink_builder r (oneof o) ≡ r
unfolding unlink_builder parent_of
unlink_root r o e =
    ap (λ p. elim p as (λ _. Builders) [ none ↦ r | some q ↦ remove_child_of r q (oneof o) ]) e

-- The messages of fields once the oneof is in the message.
owner_under :
    (os : ℕ → OneofBuilder) (o m : ℕ) (oob : OneofBuilder)
    → oob.parent ≡ some (message m)
    → (p : Option Builder)
    → message_of_parent (write os o oob) p ≡ (
        if (elim p as (λ _. Bool) [ none ↦ false | some q ↦ same_builder q (oneof o) ])
        then some m
        else message_of_parent os p)
unfolding message_of_parent same_builder write message_of_oneof
owner_under os o m oob e none = refl
owner_under os o m oob e (some (field g)) = refl
owner_under os o m oob e (some (message q)) = refl
owner_under os o m oob e (some (enum q)) = refl
owner_under os o m oob e (some (oneof k)) = elim (Bool-cases (k == o)) [
  | inl at ↦ rw at (rw e refl)
  | inr other ↦ rw other refl
]

module _ (h : Builders) (m o : ℕ) (t : TagsHold h) (loose : IsLoose h o) where
  abbrev choices : List ℕ
  choices = (h.oneofs o).choices

  -- The message has another symbol.
  module _ (mb : MessageBuilder) (same : mb.field_tags ≡ (h.messages m).field_tags) where
    abbrev with_symbol : Builders
    with_symbol = set_message h m mb

    tags-symbol : (q : ℕ) (n : ℤ) → tags_of with_symbol q n ≡ tags_of h q n
    tags-symbol q n =
        field_tags-write h.messages m mb q n
        ∙ ap (λ s. if q == m then s n else tags_of h q n) same
        ∙ elim (Bool-cases (q == m)) [
          | inl at ↦ rw at (ap (λ k. tags_of h k n) (sym ((==_iff q m).0 at)))
          | inr other ↦ rw other refl
        ]

    before : TagsOf (number_of h) (extension_of h) (message_of_field h) (tags_of with_symbol)
    before =
        TagsOf-same (number_of h) (extension_of h) (message_of_field h) (message_of_field h)
          (tags_of h) (tags_of with_symbol) (TagsHold-TagsOf h t) (λ g. refl) tags-symbol

    choice_owner : (f : ℕ) → has_choice f choices ≡ true → message_of_field h f ≡ none
    unfolding message_of_field message_of_parent message_of_oneof
    choice_owner f e =
        ap (message_of_parent h.oneofs) (child_parent h o f (sym (loose.children f) ∙ e))
        ∙ ap
            (λ p. elim p as (λ _. Option ℕ) [
              | none ↦ none
              | some b ↦ elim b [
                | message q ↦ some q
                | field _ ↦ none
                | oneof _ ↦ none
                | enum _ ↦ none
              ]
            ])
            loose.no_parent

    module _ (r : Builders) (a : AreRegistered with_symbol r m choices (message_of_field h)) where
      abbrev landed : Builders
      landed = append_element r m (oneof o)

      -- The oneofs once this one is in the message.
      abbrev under : ℕ → OneofBuilder
      under = write h.oneofs o (record (h.oneofs o) { parent = some (message m) })

      owners-landed :
          (k : ℕ) → message_of_field landed k ≡ owners_after m choices (message_of_field h) k
      unfolding message_of_field append_element set_parent is_child_of parent_of
      owners-landed k =
          ap
            (λ os.
              message_of_parent (write os o (record (os o) { parent = some (message m) }))
                (r.fields k).parent)
            a.same_oneofs
          ∙ ap (λ fs. message_of_parent under (fs k).parent) a.same_fields
          ∙ owner_under h.oneofs o m (record (h.oneofs o) { parent = some (message m) }) refl
              (h.fields k).parent
          ∙ ap (λ b. if b then some m else message_of_field h k) (sym (loose.children k))
          ∙ sym (owners_after_lem m choices (message_of_field h) k)

      tags-landed : (q : ℕ) (n : ℤ) → tags_of landed q n ≡ tags_of r q n
      unfolding append_element set_parent
      tags-landed q n = field_tags-write r.messages m _ q n ∙ elim (Bool-cases (q == m)) [
        | inl at ↦ rw at (ap (λ k. tags_of r k n) (sym ((==_iff q m).0 at)))
        | inr other ↦ rw other refl
      ]

      landed-TagsHold : TagsHold landed
      unfolding append_element
      landed-TagsHold =
          TagsOf-TagsHold landed (number_of h) (extension_of h)
            (owners_after m choices (message_of_field h)) (tags_of r) a.tags
            (λ k. ap (λ fs. (fs k).number) a.same_fields)
            (λ k. ap (λ fs. is_extension (fs k)) a.same_fields) owners-landed tags-landed

    registered_all :
        (register_choices with_symbol m choices 0).2 ≡ none
        → AreRegistered with_symbol
            (register_choices with_symbol m choices 0).0
            m
            choices
            (message_of_field h)
    registered_all e =
        register_loop m choices with_symbol 0 (message_of_field h) before
          (λ f has. (loose.regular f has, choice_owner f has)) loose.differ e

    finished :
        (finish_one_of m o (register_choices with_symbol m choices 0)).1 ≡ none
        → TagsHold (finish_one_of m o (register_choices with_symbol m choices 0)).0
    finished e =
        let a = registered_all (not_refused m o (register_choices with_symbol m choices 0) e) in
        let r = (register_choices with_symbol m choices 0).0 in
        let root : (r.oneofs o).parent ≡ none =
          ap (λ os. (os o).parent) a.same_oneofs ∙ loose.no_parent in
        subst TagsHold
          (sym (
            accepted_end m o (register_choices with_symbol m choices 0)
              (not_refused m o (register_choices with_symbol m choices 0) e)
            ∙ ap (λ g. append_element g m (oneof o)) (unlink_root r o root)))
          (landed-TagsHold r a)

add_symbol_to-tags :
    (mb mb' : MessageBuilder) (name : Bytes) (b : Builder)
    → add_symbol_to mb name b ≡ some mb'
    → mb'.field_tags ≡ mb.field_tags
unfolding add_symbol_to
add_symbol_to-tags mb mb' name b e = by_test (is_some (mb.symbols name)) e
  where
    by_test :
        (taken : Bool)
        → (if taken
            then none
            else some (record mb { symbols = put_symbol mb.symbols name (some b) }))
          ≡ some mb'
        → mb'.field_tags ≡ mb.field_tags
    by_test true x = absurd (ground (arith, x))
    by_test false x =
        sym (
          ap (λ o. elim o as (λ _. ℤ → Option ℕ) [ none ↦ mb.field_tags | some k ↦ k.field_tags ])
            x)

-- TryAddOneOf keeps the field tags true when it is not refused, if the oneof is in no message and its
-- choices are different regular fields, and those whose parent it is.
pub try_add_one_of-TagsHold :
    (h : Builders) (m o : ℕ)
    → TagsHold h
    → IsLoose h o
    → (try_add_one_of h m o).1 ≡ none
    → TagsHold (try_add_one_of h m o).0
unfolding try_add_one_of
try_add_one_of-TagsHold h m o t loose =
    by_symbol (add_symbol_to (h.messages m) (h.oneofs o).name (oneof o)) refl
  where
    by_symbol :
        (s : Option MessageBuilder)
        → add_symbol_to (h.messages m) (h.oneofs o).name (oneof o) ≡ s
        → (elim s as (λ _. Builders × Option BuilderError) [
          | none ↦ (h, some symbol_taken)
          | some mb ↦
              finish_one_of m o (register_choices (set_message h m mb) m (h.oneofs o).choices 0)
        ]).1
          ≡ none
        → TagsHold
            (elim s as (λ _. Builders × Option BuilderError) [
              | none ↦ (h, some symbol_taken)
              | some mb ↦
                  finish_one_of m o (register_choices (set_message h m mb) m (h.oneofs o).choices 0)
            ]).0
    by_symbol none x e = absurd (ground (arith, e))
    by_symbol (some mb) x e =
        finished h m o t loose mb
          (add_symbol_to-tags (h.messages m) mb (h.oneofs o).name (oneof o) x) e
