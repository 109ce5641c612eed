-- ===== src/Builder/Message/Renumber.antt =====
-- A map of numbers to fields, such as the field tags of protobuilder/message.go, in which the number
-- of one field changes.
use protoreflect.Common.{
  ℕ, ◌≡◌, ◌≢◌, refl, sym, ap, ◌∙◌, subst, false, Option, none, some, ◌==◌, if◌then◌else◌, ==_iff,
  Bool-cases, inl, inr, arith,
}
use protoreflect.Common.Int.{ℤ, pos, eqz, eqz_iff}

-- `P` says that a field is listed.
module _ (P : ℕ → Type 0) (num num' : ℕ → ℤ) (tags tags' : ℤ → Option ℕ) (f : ℕ) (tag : ℤ)
    (listed : P f) (moved : eqz tag (num f) ≡ false)
    (sound : (g : ℕ) (n : ℤ) → tags n ≡ some g → (num g ≡ n) × (n ≢ pos 0) × P g)
    (complete : (g : ℕ) → P g → num g ≢ pos 0 → tags (num g) ≡ some g)
    (fresh : eqz tag (pos 0) ≡ false → tags tag ≡ none)
    (num_lem : (g : ℕ) → num' g ≡ (if g == f then tag else num g))
    (tags_lem : (n : ℤ)
      → tags' n ≡ (
          if eqz n (num f)
          then none
          else if eqz tag (pos 0)
          then tags n
          else if eqz n tag
          then some f
          else tags n)) where
  kept_sound :
      (g : ℕ) (n : ℤ) → eqz n (num f) ≡ false → tags n ≡ some g → (num' g ≡ n) × (n ≢ pos 0) × P g
  kept_sound g n ne e =
      let (same, nz, p) = sound g n e in
      let other : (g == f) ≡ false = elim (Bool-cases (g == f)) [
        | inr o ↦ o
        | inl at_f ↦
            absurd (ground (arith, ne, sym same ∙ ap num ((==_iff g f).0 at_f), eqz_iff n (num f)))
      ] in
      (num_lem g ∙ rw other same, nz, p)

  pub renumbered_sound : (g : ℕ) (n : ℤ) → tags' n ≡ some g → (num' g ≡ n) × (n ≢ pos 0) × P g
  renumbered_sound g n e = elim (Bool-cases (eqz n (num f))) [
    | inl old ↦ absurd (ground (arith, e, tags_lem n, old))
    | inr ne ↦ elim (Bool-cases (eqz tag (pos 0))) [
      | inl zero ↦ kept_sound g n ne (ground (arith, e, tags_lem n, ne, zero))
      | inr nz ↦ elim (Bool-cases (eqz n tag)) [
        | inr other ↦ kept_sound g n ne (ground (arith, e, tags_lem n, ne, nz, other))
        | inl new ↦
            let at_f : f ≡ g = ground (arith, e, tags_lem n, ne, nz, new) in
            (
              subst (λ q. num' q ≡ n) at_f
                  (num_lem f ∙ rw ((==_iff f f).1 refl) (sym ((eqz_iff n tag).0 new))),
              λ z. ground (arith, nz, z, (eqz_iff n tag).0 new, eqz_iff tag (pos 0)),
              subst P at_f listed,
            )
      ]
    ]
  ]

  not_tag : (g : ℕ) → tags (num g) ≡ some g → tags tag ≡ none → eqz (num g) tag ≡ false
  not_tag g here empty = elim (Bool-cases (eqz (num g) tag)) [
    | inr o ↦ o
    | inl same ↦ absurd (ground (arith, sym here ∙ ap tags ((eqz_iff (num g) tag).0 same) ∙ empty))
  ]

  not_same : (g : ℕ) → tags (num g) ≡ some g → (g == f) ≡ false → eqz (num g) (num f) ≡ false
  not_same g here other = elim (Bool-cases (eqz (num g) (num f))) [
    | inr o ↦ o
    | inl same ↦
        let e : num g ≡ num f = (eqz_iff (num g) (num f)).0 same in
        let (_, nz, _) = sound g (num g) here in
        absurd (
          ground
            (arith, other, ==_iff g f, sym here ∙ ap tags e ∙ complete f listed (λ z. nz (e ∙ z))))
  ]

  pub renumbered_complete : (g : ℕ) → P g → num' g ≢ pos 0 → tags' (num' g) ≡ some g
  renumbered_complete g p nz = elim (Bool-cases (g == f)) [
    | inl at_f ↦
        let now : num' g ≡ tag = num_lem g ∙ rw at_f refl in
        let nonzero : tag ≢ pos 0 = λ z. nz (now ∙ z) in
        ap tags' now
        ∙ ground (
          arith,
          tags_lem tag,
          moved,
          nonzero,
          eqz_iff tag (pos 0),
          eqz_iff tag tag,
          (==_iff g f).0 at_f,
        )
    | inr other ↦
        let now : num' g ≡ num g = num_lem g ∙ rw other refl in
        let here : tags (num g) ≡ some g = complete g p (λ z. nz (now ∙ z)) in
        let apart : eqz (num g) (num f) ≡ false = not_same g here other in
        let untaken : eqz tag (pos 0) ≡ false → eqz (num g) tag ≡ false =
          λ pz. not_tag g here (fresh pz) in
        ap tags' now ∙ ground (arith, tags_lem (num g), apart, untaken, here)
  ]
