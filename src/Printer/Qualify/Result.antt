-- ===== src/Printer/Qualify/Result.antt =====
-- The name that qualifyElementName of protoprint/print.go gives.
use protoreflect.Common.{
  ℕ, zero, suc, ◌+◌, ◌<◌, ◌≡◌, ◌≢◌, refl, ◌⊎◌, inl, inr, true, false, not, ◌&&◌, some, [], ◌∷◌,
  ◌++◌, Bytes, bytes_eq, has_prefix, has_prefix-append, length, drop, Bool-cases, arith,
}
use protoreflect.Common.Int.{ℤ, pos, ltz}
use protoreflect.Printer.Qualify.{
  dot, outer_scope, ends_with_dot, start_scope, qualify_loop, without_dot, qualify_element_name,
}
use protoreflect.Printer.Qualify.Scopes.{
  Encloses, here, further, length-outer_scope, IsScope, start_scope-IsScope, Encloses-IsScope,
}

-- `r` is what is left of the full name behind a scope that is `steps` names further out than `scope`,
-- where at least `required` names have been left out, `count` of them before.
pub record IsRelative (required : ℤ) (count : ℕ) (scope fqn r : Bytes) : Type 0 where
  pub steps : ℕ
  pub prefix : Bytes
  pub encloses : Encloses steps prefix scope
  pub nonempty : prefix ≢ []
  pub enough : ltz (pos (count + steps)) required ≡ false
  pub spells : prefix ++ r ≡ fqn

abbrev pub IsReference : ℤ → ℕ → Bytes → Bytes → Bytes → Type 0
IsReference required count scope fqn r = (r ≡ fqn) ⊎ IsRelative required count scope fqn r

IsRelative-outer :
    (required : ℤ) (count : ℕ) (scope fqn r : Bytes)
    → IsRelative required (suc count) (outer_scope scope) fqn r
    → IsRelative required count scope fqn r
IsRelative-outer required count scope fqn r h = record {
  steps = suc h.steps;
  prefix = h.prefix;
  encloses = further h.encloses;
  nonempty = h.nonempty;
  enough = ground (arith, h.enough);
  spells = h.spells;
}

qualify_loop_result :
    (fuel : ℕ) (pkg fqn : Bytes) (required : ℤ) (count : ℕ) (scope : Bytes)
    → length scope < fuel
    → (r : Bytes) × (qualify_loop fuel pkg fqn required count scope ≡ some r)
      × IsReference required count scope fqn r
unfolding qualify_loop
qualify_loop_result zero pkg fqn required count scope lt = absurd (omega (arith, lt))
qualify_loop_result (suc fuel) pkg fqn required count [] lt = (fqn, refl, inl refl)
qualify_loop_result (suc fuel) pkg fqn required count (c ∷ scope) lt =
    let ih =
      qualify_loop_result fuel pkg fqn required (suc count) (outer_scope (c ∷ scope))
        (omega (arith, lt, length-outer_scope c scope)) in
    elim (Bool-cases (has_prefix fqn (c ∷ scope) && not (ltz (pos count) required))) [
      | inl cut ↦ (
        drop (length (c ∷ scope)) fqn,
        rw cut refl,
        inr (record {
          steps = 0;
          prefix = c ∷ scope;
          encloses = here;
          nonempty = λ e. cc e;
          enough = ground (arith, cut);
          spells = has_prefix-append fqn (c ∷ scope) (ground (arith, cut));
        }),
      )
      | inr uncut ↦ elim (Bool-cases (bytes_eq (c ∷ scope) (pkg ++ dot ∷ []))) [
        | inl top ↦ (fqn, rw (uncut, top) refl, inl refl)
        | inr nested ↦ (
          ih.0,
          rw (uncut, nested) ih.1,
          elim ih.2 [
            | inl whole ↦ inl whole
            | inr rel ↦ inr (IsRelative-outer required count (c ∷ scope) fqn ih.0 rel)
          ],
        )
      ]
    ]

-- A relative name, which begins behind a dot of the full name
abbrev pub IsCut : ℤ → Bytes → Bytes → Bytes → Type 0
IsCut required scope fqn r =
    (rel : IsRelative required 0 scope fqn r) × (ends_with_dot rel.prefix ≡ true)

nonempty_scope : (s : Bytes) → s ≢ [] → IsScope s → ends_with_dot s ≡ true
nonempty_scope s ne (inl e) = absurd (ne e)
nonempty_scope s ne (inr e) = e

-- If names need not be fully qualified and the full name is not empty, qualifyElementName returns
-- within its fuel: the full name without a leading dot, or what is left of it behind an enclosing
-- scope of the scope it starts with, which ends with a dot and at which at least `required` names
-- have been left out.
pub qualify_element_name_result :
    (pkg scope fqn : Bytes) (required : ℤ)
    → fqn ≢ []
    → (r : Bytes) × (qualify_element_name false pkg scope fqn required ≡ some r)
      × ((r ≡ without_dot fqn)
          ⊎ IsCut required (start_scope pkg scope required) (without_dot fqn) r)
unfolding qualify_element_name
qualify_element_name_result pkg scope [] required ne = absurd (ne refl)
qualify_element_name_result pkg scope (c ∷ fqn) required ne =
    let start = start_scope pkg scope required in
    let (r, e, reference) =
      qualify_loop_result (suc (length start)) pkg (without_dot (c ∷ fqn)) required 0 start
        (omega arith) in
    (
      r,
      e,
      elim reference [
        | inl whole ↦ inl whole
        | inr rel ↦ inr (
          rel,
          nonempty_scope rel.prefix rel.nonempty (
              Encloses-IsScope rel.steps rel.prefix start rel.encloses
                (start_scope-IsScope pkg scope required)),
        )
      ],
    )
