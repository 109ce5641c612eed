-- ===== src/Builder/Message/AddField.antt =====
-- TryAddField of protobuilder/message.go keeps the field tags of all messages true.
use protoreflect.Common.{
  ℕ, ◌≡◌, refl, sym, ap, ◌∙◌, subst, Bool, true, false, ◌&&◌, not, Option, none, some,
  if◌then◌else◌, is_some, Bool-cases, inl, inr, arith,
}
use protoreflect.Common.Int.{pos, eqz, eqz_iff}
use protoreflect.Builder.Message.{field, Builders, BuilderError, is_extension}
use protoreflect.Builder.Message.Remove.{unlink_builder}
use protoreflect.Builder.Message.Register.{register_field}
use protoreflect.Builder.Message.Registered.{TagFree, register_field_result}
use protoreflect.Builder.Message.Add.{
  is_present_but_not_child, append_element, and_then, try_add_field,
}
use protoreflect.Builder.Message.Number.{message_of_field}
use protoreflect.Builder.Message.Tags.{TagsHold}
use protoreflect.Builder.Message.Moved.{owned_by}
use protoreflect.Builder.Message.Unlinked.{number_of, extension_of, tags_of, IsUnlinked-TagsHold}
use protoreflect.Builder.Message.UnlinkField.{unlink_builder-IsUnlinked}
use protoreflect.Builder.Message.AddTags.{
  IsLanded, append_element-IsLanded, no_zero, IsRegistered-TagsHold, with_registered,
  unlink_then_register, register_then_unlink,
}

refused_first :
    (r : Builders × Option BuilderError) (next : Builders → Builders)
    → is_some r.1 ≡ true
    → (and_then r next).0 ≡ r.0
unfolding and_then
refused_first (g, none) next e = absurd (ground (arith, e))
refused_first (g, some x) next e = refl

accepted_first : (g : Builders) (next : Builders → Builders) → (and_then (g, none) next).0 ≡ next g
unfolding and_then
accepted_first g next = refl

none_either : (c : Bool) (o : Option ℕ) → o ≡ none → (if c then none else o) ≡ none
none_either true o e = refl
none_either false o e = e

-- The field is registered, and `land` puts it into the message.
module _ (h : Builders) (m f : ℕ) (t : TagsHold h) (reg : extension_of h f ≡ false)
    (land : Builders → Builders)
    (lands : (g : Builders)
      → ((k : ℕ) → (g.oneofs k).parent ≡ (h.oneofs k).parent)
      → IsLanded g (land g) m f) where
  abbrev pub unlinked : Builders
  unlinked = unlink_builder h (field f)

  pub unlinked-TagsHold : TagsHold unlinked
  unlinked-TagsHold = IsUnlinked-TagsHold h unlinked f (unlink_builder-IsUnlinked h f reg) t

  unlinked_free :
      TagFree (unlinked.messages m) (number_of unlinked f)
      → eqz (number_of h f) (pos 0) ≡ false
      → (if not (extension_of h f)
            && owned_by (message_of_field h f) m
            && eqz (number_of h f) (number_of h f)
          then none
          else tags_of h m (number_of h f))
        ≡ none
  unlinked_free free nz =
      let u = unlink_builder-IsUnlinked h f reg in
      elim free [
        | inl number_zero ↦
            absurd
              (ground (arith, nz, sym (u.numbers f) ∙ number_zero, eqz_iff (number_of h f) (pos 0)))
        | inr absent ↦
            sym (u.tags m (number_of h f)) ∙ ap (tags_of unlinked m) (sym (u.numbers f)) ∙ absent
      ]

  pub unlink_then_add : TagsHold (and_then (register_field unlinked m f) land).0
  unlink_then_add =
      elim (register_field_result unlinked m f (no_zero unlinked m unlinked-TagsHold)) [
        | inl (same, error, _) ↦
            subst TagsHold (sym (refused_first (register_field unlinked m f) land error ∙ same))
              unlinked-TagsHold
        | inr (done, _, free, _) ↦
            subst (λ r. TagsHold (and_then r land).0) (sym done)
              (subst TagsHold (sym (accepted_first (with_registered unlinked m f) land)) (
                IsRegistered-TagsHold h (with_registered unlinked m f)
                  (land (with_registered unlinked m f)) m f t reg (unlinked_free free)
                  (unlink_then_register h unlinked m f t reg (unlink_builder-IsUnlinked h f reg))
                  (lands (with_registered unlinked m f)
                    (unlink_builder-IsUnlinked h f reg).oneof_parents)))
      ]

  -- What is done once the field is registered.
  abbrev pub move : Builders → Builders
  move h1 = land (unlink_builder h1 (field f))

  registered_free :
      TagFree (h.messages m) (number_of h f)
      → eqz (number_of h f) (pos 0) ≡ false
      → (if not (extension_of h f)
            && owned_by (message_of_field h f) m
            && eqz (number_of h f) (number_of h f)
          then none
          else tags_of h m (number_of h f))
        ≡ none
  registered_free free nz = elim free [
    | inl number_zero ↦ absurd (ground (arith, nz, number_zero, eqz_iff (number_of h f) (pos 0)))
    | inr absent ↦ none_either _ (tags_of h m (number_of h f)) absent
  ]

  pub add_then_unlink : TagsHold (and_then (register_field h m f) move).0
  add_then_unlink = elim (register_field_result h m f (no_zero h m t)) [
    | inl (same, error, _) ↦
        subst TagsHold (sym (refused_first (register_field h m f) move error ∙ same)) t
    | inr (done, _, free, _) ↦
        let u = unlink_builder-IsUnlinked (with_registered h m f) f reg in
        subst (λ r. TagsHold (and_then r move).0) (sym done)
          (subst TagsHold (sym (accepted_first (with_registered h m f) move)) (
            IsRegistered-TagsHold h (unlink_builder (with_registered h m f) (field f))
              (move (with_registered h m f)) m f t reg (registered_free free)
              (register_then_unlink h (unlink_builder (with_registered h m f) (field f)) m f t reg u
                free)
              (lands (unlink_builder (with_registered h m f) (field f)) u.oneof_parents)))
  ]

-- TryAddField keeps the field tags true, whether it is refused or not, and wherever the field was: in
-- no message, in another message or oneof, or in a oneof of the same message. So the tags of every
-- message stay exactly the numbers, other than 0, of its regular fields and lead to them.
pub try_add_field-TagsHold :
    (h : Builders) (m f : ℕ) → TagsHold h → TagsHold (try_add_field h m f).0
unfolding try_add_field
try_add_field-TagsHold h m f t = elim (Bool-cases (is_extension (h.fields f))) [
  | inl ext ↦ rw ext t
  | inr reg ↦ elim (Bool-cases (is_present_but_not_child h m (field f))) [
    | inl present ↦
        rw (reg, present)
          (unlink_then_add h m f t reg (λ h1. append_element h1 m (field f))
            (λ g _. append_element-IsLanded g m f))
    | inr absent ↦
        rw (reg, absent)
          (add_then_unlink h m f t reg (λ h1. append_element h1 m (field f))
            (λ g _. append_element-IsLanded g m f))
  ]
]
