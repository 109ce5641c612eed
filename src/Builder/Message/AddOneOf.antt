-- ===== src/Builder/Message/AddOneOf.antt =====
-- The loop of TryAddOneOf of protobuilder/message.go, which registers the choices, and the field tags.
use protoreflect.Common.{
  ℕ, suc, ◌≡◌, ◌≢◌, refl, sym, ap, ◌∙◌, subst, Bool, true, false, ◌||◌, not, Option, none, some,
  List, [], ◌∷◌, ◌==◌, if◌then◌else◌, is_some, ==_iff, Bool-cases, inl, inr, arith,
}
use protoreflect.Common.Int.{ℤ, pos, eqz, eqz_iff}
use protoreflect.Builder.Message.{field, oneof, Builders, BuilderError, is_child_of}
use protoreflect.Builder.Message.Register.{register_field}
use protoreflect.Builder.Message.Registered.{TagFree, register_field_result}
use protoreflect.Builder.Message.Add.{register_choices}
use protoreflect.Builder.Message.Moved.{TagsOf, owner_with, tags_with, with-TagsOf}
use protoreflect.Builder.Message.Unlinked.{number_of, extension_of, tags_of}
use protoreflect.Builder.Message.AddTags.{with_registered, tags-registered, one_test}

-- The list has the field.
unfoldable pub has_choice : ℕ → List ℕ → Bool
has_choice k [] = false
has_choice k (f ∷ fs) = k == f || has_choice k fs

-- No field is in the list twice.
abbrev pub AllDiffer : List ℕ → Type 0
AllDiffer [] = Unit
AllDiffer (f ∷ fs) = (has_choice f fs ≡ false) × AllDiffer fs

-- The choices of a oneof in no message are different regular fields, and those whose parent it is.
pub record IsLoose (h : Builders) (o : ℕ) : Type 0 where
  pub no_parent : (h.oneofs o).parent ≡ none
  pub regular : (f : ℕ) → has_choice f (h.oneofs o).choices ≡ true → extension_of h f ≡ false
  pub differ : AllDiffer (h.oneofs o).choices
  pub children : (f : ℕ) → has_choice f (h.oneofs o).choices ≡ is_child_of h (oneof o) (field f)

pub TagsOf-same :
    (num : ℕ → ℤ) (ext : ℕ → Bool) (owner owner' : ℕ → Option ℕ) (tags tags' : ℕ → ℤ → Option ℕ)
    → TagsOf num ext owner tags
    → ((g : ℕ) → owner' g ≡ owner g)
    → ((q : ℕ) (n : ℤ) → tags' q n ≡ tags q n)
    → TagsOf num ext owner' tags'
TagsOf-same num ext owner owner' tags tags' t eo et = record {
  sound = λ q f n e.
      let (same, nz, reg, own) = t.sound q f n (sym (et q n) ∙ e) in (same, nz, reg, eo f ∙ own);
  complete = λ q f own reg nz. et q (num f) ∙ t.complete q f (sym (eo f) ∙ own) reg nz;
}

-- The owners once the fields have come into the message, the first one first.
abbrev pub owners_after : ℕ → List ℕ → (ℕ → Option ℕ) → ℕ → Option ℕ
owners_after m [] owner = owner
owners_after m (f ∷ fs) owner = owners_after m fs (λ k. if k == f then some m else owner k)

pub owners_after_lem :
    (m : ℕ) (fs : List ℕ) (owner : ℕ → Option ℕ) (k : ℕ)
    → owners_after m fs owner k ≡ (if has_choice k fs then some m else owner k)
unfolding has_choice
owners_after_lem m [] owner k = refl
owners_after_lem m (f ∷ fs) owner k =
    owners_after_lem m fs (λ j. if j == f then some m else owner j) k ∙ ground arith

-- What the loop of TryAddOneOf leaves when no choice is refused.
pub record AreRegistered (g r : Builders) (m : ℕ) (fs : List ℕ) (owner : ℕ → Option ℕ)
    : Type 0 where
  pub same_fields : r.fields ≡ g.fields
  pub same_oneofs : r.oneofs ≡ g.oneofs
  pub tags : TagsOf (number_of g) (extension_of g) (owners_after m fs owner) (tags_of r)

module _ (g : Builders) (m f : ℕ) (owner : ℕ → Option ℕ)
    (t : TagsOf (number_of g) (extension_of g) owner (tags_of g)) where
  none_at_zero : tags_of g m (pos 0) ≡ none
  none_at_zero = by_tag (tags_of g m (pos 0)) refl
    where
      by_tag : (o : Option ℕ) → tags_of g m (pos 0) ≡ o → o ≡ none
      by_tag none e = refl
      by_tag (some k) e = absurd ((t.sound m k (pos 0) e).1 refl)

  registered-TagsOf :
      extension_of g f ≡ false
      → owner f ≡ none
      → TagFree (g.messages m) (number_of g f)
      → TagsOf
          (number_of g)
          (extension_of g)
          (λ k. if k == f then some m else owner k)
          (tags_of (with_registered g m f))
  registered-TagsOf reg root free =
      TagsOf-same (number_of g) (extension_of g)
        (owner_with (number_of g) (extension_of g) owner (tags_of g) f m t reg root fresh) _
        (tags_with (number_of g) (extension_of g) owner (tags_of g) f m t reg root fresh) _
        (with-TagsOf (number_of g) (extension_of g) owner (tags_of g) f m t reg root fresh)
        (λ k. refl)
        (λ q n.
          tags-registered g m f q n
          ∙ one_test q m (not (eqz (number_of g f) (pos 0))) (eqz n (number_of g f)) (some f)
              (λ k. tags_of g k n))
    where
      fresh : eqz (number_of g f) (pos 0) ≡ false → tags_of g m (number_of g f) ≡ none
      fresh nz = elim free [
        | inl zero_number ↦
            absurd (ground (arith, nz, zero_number, eqz_iff (number_of g f) (pos 0)))
        | inr absent ↦ absent
      ]

-- Choices in no message, that are all registered.
abbrev pub WillLand : Builders → List ℕ → (ℕ → Option ℕ) → Type 0
WillLand g fs owner =
    (f : ℕ) → has_choice f fs ≡ true → (extension_of g f ≡ false) × (owner f ≡ none)

module _ (m : ℕ) where
  -- The rest of the loop behind the registration of a field.
  abbrev loop_rest :
      List ℕ → ℕ → Builders × Option BuilderError → Builders × ℕ × Option BuilderError
  loop_rest fs i r = elim r.1 as (λ _. Builders × ℕ × Option BuilderError) [
    | none ↦ register_choices r.0 m fs (suc i)
    | some e ↦ (r.0, i, some e)
  ]

  register_choices-cons :
      (f : ℕ) (fs : List ℕ) (g : Builders) (i : ℕ)
      → register_choices g m (f ∷ fs) i ≡ loop_rest fs i (register_field g m f)
  unfolding register_choices
  register_choices-cons f fs g i = refl

  refused_rest :
      (fs : List ℕ) (i : ℕ) (r : Builders × Option BuilderError)
      → is_some r.1 ≡ true
      → (loop_rest fs i r).2 ≢ none
  refused_rest fs i (h, none) e x = ground (arith, e)
  refused_rest fs i (h, some b) e x = ground (arith, x)

  WillLand-later :
      (g : Builders) (f : ℕ) (fs : List ℕ) (owner : ℕ → Option ℕ)
      → WillLand g (f ∷ fs) owner
      → has_choice f fs ≡ false
      → WillLand (with_registered g m f) fs (λ k. if k == f then some m else owner k)
  unfolding has_choice
  WillLand-later g f fs owner will new k later =
      let (reg, root) = will k (ground (arith, later)) in
      (
        reg,
        elim (Bool-cases (k == f)) [
          | inr other ↦ rw other root
          | inl at ↦
              absurd
                (ground (arith, sym later ∙ ap (λ j. has_choice j fs) ((==_iff k f).0 at) ∙ new))
        ],
      )

  has_first : (f : ℕ) (fs : List ℕ) → has_choice f (f ∷ fs) ≡ true
  unfolding has_choice
  has_first f fs = ground arith

  pub register_loop :
      (fs : List ℕ) (g : Builders) (i : ℕ) (owner : ℕ → Option ℕ)
      → TagsOf (number_of g) (extension_of g) owner (tags_of g)
      → WillLand g fs owner
      → AllDiffer fs
      → (register_choices g m fs i).2 ≡ none
      → AreRegistered g (register_choices g m fs i).0 m fs owner
  register_loop [] g i owner t will differ e =
      unfold register_choices in record { same_fields = refl; same_oneofs = refl; tags = t }
  register_loop (f ∷ fs) g i owner t will (new, differ) e =
      let first = will f (has_first f fs) in
      elim (register_field_result g m f (none_at_zero g m f owner t)) [
        | inl (same, error, _) ↦ absurd (
            refused_rest fs i (register_field g m f) error
              (sym (ap (λ r. r.2) (register_choices-cons f fs g i)) ∙ e))
        | inr (done, _, free, _) ↦
            let all : register_choices g m (f ∷ fs) i
                ≡ register_choices (with_registered g m f) m fs (suc i) =
              register_choices-cons f fs g i ∙ ap (loop_rest fs i) done in
            let rest =
              register_loop fs (with_registered g m f) (suc i)
                (λ k. if k == f then some m else owner k)
                (registered-TagsOf g m f owner t first.0 first.1 free)
                (WillLand-later g f fs owner will new) differ (sym (ap (λ r. r.2) all) ∙ e) in
            subst (λ r. AreRegistered g r m (f ∷ fs) owner) (sym (ap (λ r. r.0) all))
              (record {
                same_fields = rest.same_fields;
                same_oneofs = rest.same_oneofs;
                tags = rest.tags;
              })
      ]
