-- ===== src/Builder/Enum/Rename.antt =====
-- TrySetName on an enum value (protobuilder/builder.go and enum.go): the parent's symbols follow.
use protoreflect.Common.{
  ℕ, ◌≡◌, ◌⊎◌, refl, sym, ap, subst, Bool, true, false, Option, none, some, Bytes, ◌==◌,
  if◌then◌else◌, bytes_eq, bytes_eq_iff, Bool-cases, is_some, inl, inr, arith,
}
use protoreflect.Builder.Enum.{
  Heap, EnumError, already_contains, invalid_name, is_child, renamed_child, try_set_name,
  notify_parent, settle, get_value,
}
use protoreflect.Builder.Enum.Invariant.{IsWellFormed}
use protoreflect.Builder.Enum.Renamed.{
  is_child-named, name-named, named, named-IsWellFormed, named_back, renamed, renamed-IsWellFormed,
  renamed_child_accepted, renamed_child_refused,
}

-- The value alone has the new name.
abbrev pub HasNewName : Heap → ℕ → Bytes → Heap × Option EnumError → Type 0
HasNewName h v name r =
    (r.1 ≡ none) × ((w : ℕ) → (r.0.evs w).name ≡ (if w == v then name else (h.evs w).name))

-- The heap is as before, and the error says what is wrong with the name.
abbrev pub KeepsName : (Bytes → Bool) → Heap → ℕ → Bytes → Heap × Option EnumError → Type 0
KeepsName valid h v name r =
    (r.0 ≡ h)
    × ((r.1 ≡ some invalid_name) × (valid name ≡ false)
        ⊎ (r.1 ≡ some already_contains)
          × (e : ℕ) × ((h.evs v).parent ≡ some e)
          × (is_some (get_value h e name) ≡ true))

module _ (valid : Bytes → Bool) (h : Heap) (v : ℕ) (name : Bytes) where
  abbrev Outcome : Heap × Option EnumError → Type 0
  Outcome r = IsWellFormed r.0 × (HasNewName h v name r ⊎ KeepsName valid h v name r)

  set_same : bytes_eq name (h.evs v).name ≡ true → try_set_name valid h v name ≡ (h, none)
  unfolding try_set_name
  set_same same = rw (same, try_set_name) refl

  set_invalid :
      bytes_eq name (h.evs v).name ≡ false
      → valid name ≡ false
      → try_set_name valid h v name ≡ (h, some invalid_name)
  unfolding try_set_name
  set_invalid ne bad = rw (ne, bad, try_set_name) refl

  module _ (ne : bytes_eq name (h.evs v).name ≡ false) (good : valid name ≡ true) where
    set_named :
        (o : Option ℕ)
        → (h.evs v).parent ≡ o
        → try_set_name valid h v name ≡ notify_parent (named h v name) v (h.evs v).name o
    set_named o e =
        unfold try_set_name in
        rw (ne, good, try_set_name) (ap (notify_parent (named h v name) v (h.evs v).name) e)

    module _ (e : ℕ) (under : (h.evs v).parent ≡ some e) where
      child_of_parent : is_child (named h v name) e v ≡ true
      child_of_parent =
          rw (is_child-named h v name e v) (unfold is_child in rw (under, is_child) (ground arith))

      name_of_named : ((named h v name).evs v).name ≡ name
      name_of_named = rw (name-named h v name v) (ground arith)

      renamed_taken :
          is_some ((h.enums e).symbols name) ≡ true
          → renamed_child (named h v name) e v (h.evs v).name ≡ none
      renamed_taken taken =
          renamed_child_refused (named h v name) e v (h.evs v).name child_of_parent
            (rw name_of_named taken)

      renamed_free :
          is_some ((h.enums e).symbols name) ≡ false
          → renamed_child (named h v name) e v (h.evs v).name ≡ some (renamed h v name e)
      renamed_free free =
          renamed_child_accepted (named h v name) e v (h.evs v).name child_of_parent
            (rw name_of_named free)

      none_of : is_some ((h.enums e).symbols name) ≡ false → (h.enums e).symbols name ≡ none
      none_of free = ground arith

      name-renamed :
          (w : ℕ) → ((renamed h v name e).evs w).name ≡ (if w == v then name else (h.evs w).name)
      name-renamed w = name-named h v name w

      under_parent :
          IsWellFormed h → Outcome (notify_parent (named h v name) v (h.evs v).name (some e))
      unfolding notify_parent
      under_parent wf = elim (Bool-cases (is_some ((h.enums e).symbols name))) [
        | inl taken ↦
            subst (λ o. Outcome (settle (named h v name) v (h.evs v).name o))
              (sym (renamed_taken taken))
              (
                subst IsWellFormed (sym (named_back h v name)) wf,
                inr (named_back h v name, inr (refl, e, under, unfold get_value in taken)),
              )
        | inr free ↦
            subst (λ o. Outcome (settle (named h v name) v (h.evs v).name o))
              (sym (renamed_free free))
              (renamed-IsWellFormed h v name e wf under (none_of free) ne, inl (refl, name-renamed))
      ]

    of_parent :
        IsWellFormed h
        → (o : Option ℕ) → (h.evs v).parent ≡ o
        → Outcome (notify_parent (named h v name) v (h.evs v).name o)
    unfolding notify_parent
    of_parent wf none root = (named-IsWellFormed h v name wf root, inl (refl, name-named h v name))
    of_parent wf (some e) under = under_parent e under wf

  same_name :
      bytes_eq name (h.evs v).name ≡ true
      → (w : ℕ) → (h.evs w).name ≡ (if w == v then name else (h.evs w).name)
  same_name same w = ground (arith, bytes_eq_iff name (h.evs v).name)

-- TrySetName on an enum value keeps the invariant. If it returns no error, the value has the new
-- name and no other value's name changed; if it returns one, the heap is exactly as before, and
-- either the name is not valid or the parent has a value of that name.
pub try_set_name_result :
    (valid : Bytes → Bool) (h : Heap) (v : ℕ) (name : Bytes)
    → IsWellFormed h
    → IsWellFormed (try_set_name valid h v name).0
      × (HasNewName h v name (try_set_name valid h v name)
          ⊎ KeepsName valid h v name (try_set_name valid h v name))
try_set_name_result valid h v name wf = elim (Bool-cases (bytes_eq name (h.evs v).name)) [
  | inl same ↦
      subst (Outcome valid h v name) (sym (set_same valid h v name same))
        (wf, inl (refl, same_name valid h v name same))
  | inr ne ↦ elim (Bool-cases (valid name)) [
    | inl good ↦
        subst (Outcome valid h v name)
          (sym (set_named valid h v name ne good (h.evs v).parent refl))
          (of_parent valid h v name ne good wf (h.evs v).parent refl)
    | inr bad ↦
        subst (Outcome valid h v name) (sym (set_invalid valid h v name ne bad))
          (wf, inr (refl, inl (refl, bad)))
  ]
]
