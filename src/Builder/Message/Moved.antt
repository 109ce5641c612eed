-- ===== src/Builder/Message/Moved.antt =====
-- The field tags of messages when a field leaves a message and when it comes into one, on plain
-- functions: the numbers, which fields are extensions, the message of each field and the tags.
use protoreflect.Common.{
  ℕ, ◌≡◌, ◌≢◌, refl, sym, ap, ◌∙◌, subst, Bool, true, false, ◌&&◌, not, Option, none, some, ◌==◌,
  if◌then◌else◌, ==_iff, Bool-cases, inl, inr, arith,
}
use protoreflect.Common.Int.{ℤ, pos, eqz, eqz_iff}

-- The tags are the numbers, other than 0, of the regular fields, and lead to them.
pub record TagsOf (num : ℕ → ℤ) (ext : ℕ → Bool) (owner : ℕ → Option ℕ) (tags : ℕ → ℤ → Option ℕ)
    : Type 0 where
  pub sound :
      (m f : ℕ) (n : ℤ)
      → tags m n ≡ some f
      → (num f ≡ n) × (n ≢ pos 0) × (ext f ≡ false) × (owner f ≡ some m)
  pub complete :
      (m f : ℕ) → owner f ≡ some m → ext f ≡ false → num f ≢ pos 0 → tags m (num f) ≡ some f

-- The message is the given one.
abbrev pub owned_by : Option ℕ → ℕ → Bool
owned_by o m = elim o [ none ↦ false | some q ↦ q == m ]

pub owned_by-some : (o : Option ℕ) (m : ℕ) → owned_by o m ≡ true → o ≡ some m
owned_by-some none m e = absurd (ground (arith, e))
owned_by-some (some q) m e = ap some ((==_iff q m).0 e)

owned_by_self : (m : ℕ) → owned_by (some m) m ≡ true
owned_by_self m = ground arith

module _ (num : ℕ → ℤ) (ext : ℕ → Bool) (owner : ℕ → Option ℕ) (tags : ℕ → ℤ → Option ℕ) (f : ℕ)
    (t : TagsOf num ext owner tags) where
  -- The field leaves its message.
  abbrev pub owner_without : ℕ → Option ℕ
  owner_without g = if g == f then none else owner g

  abbrev pub tags_without : ℕ → ℤ → Option ℕ
  tags_without q n = if not (ext f) && owned_by (owner f) q && eqz n (num f) then none else tags q n

  leaves : ℕ → ℤ → Bool
  leaves q n = not (ext f) && owned_by (owner f) q && eqz n (num f)

  leaves-true :
      (q : ℕ) (n : ℤ) → leaves q n ≡ true → (ext f ≡ false) × (owner f ≡ some q) × (n ≡ num f)
  unfolding leaves
  leaves-true q n e = (
    ground (arith, e),
    owned_by-some (owner f) q (ground (arith, e)),
    (eqz_iff n (num f)).0 (ground (arith, e)),
  )

  leaves_at : (q : ℕ) (n : ℤ) → ext f ≡ false → owner f ≡ some q → num f ≡ n → leaves q n ≡ true
  unfolding leaves
  leaves_at q n reg own same =
      rw (reg, own, owned_by_self q) (ground (arith, eqz_iff n (num f), same))

  without_apart : (q : ℕ) (n : ℤ) → leaves q n ≡ false → tags_without q n ≡ tags q n
  unfolding leaves
  without_apart q n e = rw e refl

  without_none : (q : ℕ) (n : ℤ) → leaves q n ≡ true → tags_without q n ≡ none
  unfolding leaves
  without_none q n e = rw e refl

  without_sound :
      (q g : ℕ) (n : ℤ)
      → tags_without q n ≡ some g
      → (num g ≡ n) × (n ≢ pos 0) × (ext g ≡ false) × (owner_without g ≡ some q)
  without_sound q g n e = elim (Bool-cases (leaves q n)) [
    | inl gone ↦ absurd (ground (arith, sym (without_none q n gone) ∙ e))
    | inr stays ↦
        let (same, nz, reg, own) = t.sound q g n (sym (without_apart q n stays) ∙ e) in
        (
          same,
          nz,
          reg,
          elim (Bool-cases (g == f)) [
            | inr other ↦ rw other own
            | inl at_f ↦
                let e' : g ≡ f = (==_iff g f).0 at_f in
                absurd (
                  ground (
                    arith,
                    stays,
                    leaves_at q n (ap ext (sym e') ∙ reg) (ap owner (sym e') ∙ own)
                        (ap num (sym e') ∙ same),
                  ))
          ],
        )
  ]

  without_complete :
      (q g : ℕ)
      → owner_without g ≡ some q
      → ext g ≡ false
      → num g ≢ pos 0
      → tags_without q (num g) ≡ some g
  without_complete q g own reg nz = elim (Bool-cases (g == f)) [
    | inl at_f ↦ absurd (ground (arith, own, at_f))
    | inr other ↦
        let here : tags q (num g) ≡ some g = t.complete q g (ground (arith, own, other)) reg nz in
        elim (Bool-cases (leaves q (num g))) [
          | inr stays ↦ without_apart q (num g) stays ∙ here
          | inl gone ↦
              let (reg_f, own_f, same) = leaves-true q (num g) gone in
              let there : tags q (num f) ≡ some f =
                t.complete q f own_f reg_f (λ z. nz (same ∙ z)) in
              absurd (ground (arith, other, ==_iff g f, sym here ∙ ap (tags q) same ∙ there))
        ]
  ]

  pub without-TagsOf : TagsOf num ext owner_without tags_without
  without-TagsOf = record { sound = without_sound; complete = without_complete }

-- A field that is in no message comes into one.
module _ (num : ℕ → ℤ) (ext : ℕ → Bool) (owner : ℕ → Option ℕ) (tags : ℕ → ℤ → Option ℕ) (f m : ℕ)
    (t : TagsOf num ext owner tags) (reg : ext f ≡ false) (root : owner f ≡ none)
    (fresh : eqz (num f) (pos 0) ≡ false → tags m (num f) ≡ none) where
  abbrev pub owner_with : ℕ → Option ℕ
  owner_with g = if g == f then some m else owner g

  comes : ℕ → ℤ → Bool
  comes q n = (q == m) && not (eqz (num f) (pos 0)) && eqz n (num f)

  abbrev pub tags_with : ℕ → ℤ → Option ℕ
  tags_with q n =
      if (q == m) && not (eqz (num f) (pos 0)) && eqz n (num f) then some f else tags q n

  with_at : (q : ℕ) (n : ℤ) → comes q n ≡ true → tags_with q n ≡ some f
  unfolding comes
  with_at q n e = rw e refl

  with_apart : (q : ℕ) (n : ℤ) → comes q n ≡ false → tags_with q n ≡ tags q n
  unfolding comes
  with_apart q n e = rw e refl

  comes-true :
      (q : ℕ) (n : ℤ) → comes q n ≡ true → (q ≡ m) × (eqz (num f) (pos 0) ≡ false) × (n ≡ num f)
  unfolding comes
  comes-true q n e = (
    (==_iff q m).0 (ground (arith, e)),
    ground (arith, e),
    (eqz_iff n (num f)).0 (ground (arith, e)),
  )

  comes_at : num f ≢ pos 0 → comes m (num f) ≡ true
  unfolding comes
  comes_at nz = ground (arith, nz, eqz_iff (num f) (pos 0), eqz_iff (num f) (num f))

  with_sound :
      (q g : ℕ) (n : ℤ)
      → tags_with q n ≡ some g
      → (num g ≡ n) × (n ≢ pos 0) × (ext g ≡ false) × (owner_with g ≡ some q)
  with_sound q g n e = elim (Bool-cases (comes q n)) [
    | inl new ↦
        let (at_m, nz, same) = comes-true q n new in
        let at_f : f ≡ g = ground (arith, sym (with_at q n new) ∙ e) in
        (
          ap num (sym at_f) ∙ sym same,
          λ z. ground (arith, nz, eqz_iff (num f) (pos 0), sym same ∙ z),
          ap ext (sym at_f) ∙ reg,
          rw ((==_iff g f).1 (sym at_f)) (ap some (sym at_m)),
        )
    | inr old ↦
        let (same, nz, reg', own) = t.sound q g n (sym (with_apart q n old) ∙ e) in
        (
          same,
          nz,
          reg',
          elim (Bool-cases (g == f)) [
            | inr other ↦ rw other own
            | inl at_f ↦
                absurd (ground (arith, sym root ∙ ap owner (sym ((==_iff g f).0 at_f)) ∙ own))
          ],
        )
  ]

  with_complete :
      (q g : ℕ)
      → owner_with g ≡ some q
      → ext g ≡ false
      → num g ≢ pos 0
      → tags_with q (num g) ≡ some g
  with_complete q g own reg' nz = elim (Bool-cases (g == f)) [
    | inl at_f ↦
        let e : g ≡ f = (==_iff g f).0 at_f in
        let at_m : m ≡ q = ground (arith, own, at_f) in
        subst (λ k. tags_with k (num g) ≡ some g) at_m
          (subst (λ k. tags_with m (num k) ≡ some k) (sym e)
            (with_at m (num f) (comes_at (λ z. nz (ap num e ∙ z)))))
    | inr other ↦
        let here : tags q (num g) ≡ some g = t.complete q g (ground (arith, own, other)) reg' nz in
        elim (Bool-cases (comes q (num g))) [
          | inr old ↦ with_apart q (num g) old ∙ here
          | inl new ↦
              let (at_m, nz_f, same) = comes-true q (num g) new in
              absurd (
                ground
                  (arith, sym here ∙ ap (λ k. tags k (num g)) at_m ∙ ap (tags m) same ∙ fresh nz_f))
        ]
  ]

  pub with-TagsOf : TagsOf num ext owner_with tags_with
  with-TagsOf = record { sound = with_sound; complete = with_complete }
