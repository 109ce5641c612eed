-- ===== src/Printer/Qualify/Scopes.antt =====
-- The scopes that qualifyElementName of protoprint/print.go goes through.
use protoreflect.Common.{
  ℕ, zero, suc, ◌-◌, ◌≤◌, ◌<◌, ◌≡◌, refl, ◌⊎◌, inl, inr, true, [], ◌∷◌, ◌++◌, Bytes, ◌==◌,
  if◌then◌else◌, length, take, Bool-cases, arith,
}
use protoreflect.Common.Int.{ℤ, pos, negsuc}
use protoreflect.Printer.Qualify.{dot, to_last_dot, outer_scope, ends_with_dot, start_scope}

-- `s` is `scope` without its last `n` names.
pub data Encloses : ℕ → Bytes → Bytes → Type 0 where
  here : {scope : Bytes} → Encloses 0 scope scope
  further : {n : ℕ} {s scope : Bytes} → Encloses n s (outer_scope scope) → Encloses (suc n) s scope

length-to_last_dot : (s : Bytes) → length (to_last_dot s) ≤ length s
unfolding to_last_dot
length-to_last_dot [] = omega arith
length-to_last_dot (c ∷ s) = ground (arith, length-to_last_dot s)

pub length-take_all : (n : ℕ) (s : Bytes) → length (take n s) ≤ n
length-take_all zero s = omega arith
length-take_all (suc n) [] = omega arith
length-take_all (suc n) (c ∷ s) = omega (arith, length-take_all n s)

-- The outer scope is shorter.
pub length-outer_scope : (c : ℕ) (s : Bytes) → length (outer_scope (c ∷ s)) < length (c ∷ s)
unfolding outer_scope
length-outer_scope c s = omega (
  arith,
  length-to_last_dot (take (length (c ∷ s) - 1) (c ∷ s)),
  length-take_all (length (c ∷ s) - 1) (c ∷ s),
)

-- A scope that is not empty ends with a dot.
abbrev pub IsScope : Bytes → Type 0
IsScope s = (s ≡ []) ⊎ (ends_with_dot s ≡ true)

to_last_dot-IsScope : (s : Bytes) → IsScope (to_last_dot s)
unfolding to_last_dot ends_with_dot
to_last_dot-IsScope [] = inl refl
to_last_dot-IsScope (c ∷ s) = of_rest (to_last_dot s) (to_last_dot-IsScope s)
  where
    of_rest :
        (rest : Bytes)
        → IsScope rest
        → IsScope (elim rest [ [] ↦ if c == dot then c ∷ [] else [] | d ∷ ds ↦ c ∷ d ∷ ds ])
    of_rest [] h = elim (Bool-cases (c == dot)) [ inl e ↦ rw e (inr e) | inr e ↦ rw e (inl refl) ]
    of_rest (d ∷ ds) h = h2 h
      where
        h2 : IsScope (d ∷ ds) → IsScope (c ∷ d ∷ ds)
        h2 (inl e) = cc e
        h2 (inr e) = inr e

ends_with_dot-append : (s : Bytes) → ends_with_dot (s ++ dot ∷ []) ≡ true
unfolding ends_with_dot
ends_with_dot-append [] = refl
ends_with_dot-append (c ∷ []) = refl
ends_with_dot-append (c ∷ d ∷ s) = ends_with_dot-append (d ∷ s)

pub start_scope-IsScope :
    (pkg scope : Bytes) (required : ℤ) → IsScope (start_scope pkg scope required)
unfolding start_scope
start_scope-IsScope pkg scope (negsuc n) = inr (ends_with_dot-append pkg)
start_scope-IsScope pkg [] (pos n) = inl refl
start_scope-IsScope pkg (c ∷ scope) (pos n) = elim (Bool-cases (ends_with_dot (c ∷ scope))) [
  | inl e ↦ rw e (inr e)
  | inr e ↦ rw e (inr (ends_with_dot-append (c ∷ scope)))
]

outer_scope-IsScope : (s : Bytes) → IsScope (outer_scope s)
unfolding outer_scope
outer_scope-IsScope s = to_last_dot-IsScope (take (length s - 1) s)

pub Encloses-IsScope : (n : ℕ) (s scope : Bytes) → Encloses n s scope → IsScope scope → IsScope s
Encloses-IsScope _ _ _ here h = h
Encloses-IsScope _ s scope (further e) h =
    Encloses-IsScope _ s (outer_scope scope) e (outer_scope-IsScope scope)
