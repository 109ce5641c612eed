-- ===== src/Builder/Enum/Invariant.antt =====
-- The invariant of the enums of protobuilder/enum.go, and that removing a value keeps it.
use protoreflect.Common.{
  ℕ, ◌<◌, ◌≡◌, ◌⊎◌, refl, ap, Bool, true, false, Option, none, some, Bytes, ◌==◌, if◌then◌else◌,
  bytes_eq, bytes_eq_iff, Bool-cases, inl, inr, arith,
}
use protoreflect.Builder.Enum.{
  Heap, write, put, delete_builder, is_child, remove_child, unlink, try_remove_value, get_value,
}
use protoreflect.Builder.Enum.Map.{count, count-delete_builder}

-- The slice of an enum holds each of its children once and nothing else; its symbols are the names
-- of its children and lead to them.
pub record IsWellFormed (h : Heap) : Type 0 where
  pub counted : (e v : ℕ) → count v (h.enums e).values ≡ (if is_child h e v then 1 else 0)
  pub symbol_of_child :
      (e v : ℕ) → is_child h e v ≡ true → (h.enums e).symbols (h.evs v).name ≡ some v
  pub child_of_symbol :
      (e v : ℕ) (n : Bytes)
      → (h.enums e).symbols n ≡ some v
      → (is_child h e v ≡ true) × ((h.evs v).name ≡ n)

module _ (h : Heap) (wf : IsWellFormed h) (e v : ℕ) (child : is_child h e v ≡ true) where
  only_of_name : (w : ℕ) → 0 < count w (h.enums e).values → (h.evs w).name ≡ (h.evs v).name → w ≡ v
  only_of_name w c same = ground (
    arith,
    wf.counted e w,
    wf.symbol_of_child e v child,
    wf.symbol_of_child e w,
    ap (h.enums e).symbols same,
  )

  is_child-remove_child :
      (e' w : ℕ) → is_child (remove_child h e v) e' w ≡ (if w == v then false else is_child h e' w)
  unfolding remove_child is_child write
  is_child-remove_child e' w = ground arith

  values-remove_child :
      (e' : ℕ)
      → ((remove_child h e v).enums e').values ≡ (
          if e' == e
          then delete_builder h.evs (h.evs v).name (h.enums e).values
          else (h.enums e').values)
  unfolding remove_child write
  values-remove_child e' = ground arith

  symbols-remove_child :
      (e' : ℕ) (n : Bytes)
      → ((remove_child h e v).enums e').symbols n ≡ (
          if e' == e
          then if bytes_eq n (h.evs v).name then none else (h.enums e).symbols n
          else (h.enums e').symbols n)
  unfolding remove_child write put
  symbols-remove_child e' n = ground arith

  name-remove_child : (w : ℕ) → ((remove_child h e v).evs w).name ≡ (h.evs w).name
  unfolding remove_child write
  name-remove_child w = ground arith

  child_of_one : (e' : ℕ) → is_child h e' v ≡ true → e' ≡ e
  unfolding is_child
  child_of_one e' c = ground arith

  counted-remove_child :
      (e' w : ℕ)
      → count w ((remove_child h e v).enums e').values
        ≡ (if is_child (remove_child h e v) e' w then 1 else 0)
  counted-remove_child e' w =
      rw (values-remove_child e', is_child-remove_child e' w)
        (ground (
          arith,
          child_of_one e',
          wf.counted e' w,
          wf.counted e v,
          count-delete_builder h.evs v (h.enums e).values (ground (arith, wf.counted e v))
              only_of_name w,
        ))

  symbol-remove_child :
      (e' w : ℕ)
      → is_child (remove_child h e v) e' w ≡ true
      → ((remove_child h e v).enums e').symbols ((remove_child h e v).evs w).name ≡ some w
  symbol-remove_child e' w cw =
      rw (name-remove_child w, symbols-remove_child e' (h.evs w).name)
        (ground (
          arith,
          is_child-remove_child e' w,
          wf.symbol_of_child e' w,
          wf.symbol_of_child e v child,
          bytes_eq_iff (h.evs w).name (h.evs v).name,
        ))

  child-remove_child :
      (e' w : ℕ) (n : Bytes)
      → ((remove_child h e v).enums e').symbols n ≡ some w
      → (is_child (remove_child h e v) e' w ≡ true) × (((remove_child h e v).evs w).name ≡ n)
  child-remove_child e' w n s = ground (
    arith,
    is_child-remove_child e' w,
    name-remove_child w,
    symbols-remove_child e' n,
    wf.child_of_symbol e' w n,
    child_of_one e',
    bytes_eq_iff n (h.evs v).name,
  )

pub remove_child-IsWellFormed :
    (h : Heap) (e v : ℕ) → IsWellFormed h → IsWellFormed (remove_child h e v)
unfolding remove_child
remove_child-IsWellFormed h e v wf = elim (Bool-cases (is_child h e v)) [
  | inl child ↦ record {
    counted = counted-remove_child h wf e v child;
    symbol_of_child = symbol-remove_child h wf e v child;
    child_of_symbol = child-remove_child h wf e v child;
  }
  | inr other ↦ rw other wf
]

pub unlink-IsWellFormed : (h : Heap) (v : ℕ) → IsWellFormed h → IsWellFormed (unlink h v)
unfolding unlink
unlink-IsWellFormed h v wf = by_parent (h.evs v).parent
  where
    by_parent : (o : Option ℕ) → IsWellFormed (elim o [ none ↦ h | some p ↦ remove_child h p v ])
    by_parent none = wf
    by_parent (some p) = remove_child-IsWellFormed h p v wf

-- The enum has no value of the name, and nothing changed.
abbrev pub NothingRemoved : Heap → ℕ → Bytes → Heap × Bool → Type 0
NothingRemoved h e name r = (get_value h e name ≡ none) × (r ≡ (h, false))

-- The value of the name lost its parent; the other names lead where they led.
abbrev pub Removed : Heap → ℕ → Bytes → Heap × Bool → Type 0
Removed h e name r =
    (v : ℕ) × (get_value h e name ≡ some v)
    × (r.1 ≡ true)
    × ((r.0.evs v).parent ≡ none)
    × ((n : Bytes) → get_value r.0 e n ≡ (if bytes_eq n name then none else get_value h e n))

Removed-child :
    (h : Heap) (e v : ℕ) (name : Bytes)
    → IsWellFormed h
    → (h.enums e).symbols name ≡ some v
    → Removed h e name (remove_child h e v, true)
unfolding get_value
Removed-child h e v name wf s =
    let (child, named) = wf.child_of_symbol e v name s in
    (
      v,
      s,
      refl,
      parent_removed child,
      λ n. rw (symbols-remove_child h wf e v child e n, named) (ground arith),
    )
  where
    parent_removed : is_child h e v ≡ true → ((remove_child h e v).evs v).parent ≡ none
    parent_removed child = unfold remove_child write in rw child (ground arith)

-- TryRemoveValue keeps the invariant. If the enum has no value of the name it says false and changes
-- nothing; else it says true, the value of the name has no parent any more, the name is free, and
-- every other name leads to the value that it led to.
pub try_remove_value_result :
    (h : Heap) (e : ℕ) (name : Bytes)
    → IsWellFormed h
    → IsWellFormed (try_remove_value h e name).0
      × (NothingRemoved h e name (try_remove_value h e name)
          ⊎ Removed h e name (try_remove_value h e name))
unfolding try_remove_value
try_remove_value_result h e name wf = by_symbol ((h.enums e).symbols name) refl
  where
    by_symbol :
        (o : Option ℕ)
        → (h.enums e).symbols name ≡ o
        → IsWellFormed
            (elim o as (λ _. Heap × Bool) [
              | none ↦ (h, false)
              | some v ↦ (remove_child h e v, true)
            ]).0
          × (NothingRemoved h e name (elim o as (λ _. Heap × Bool) [
            | none ↦ (h, false)
            | some v ↦ (remove_child h e v, true)
          ])
              ⊎ Removed h e name (elim o as (λ _. Heap × Bool) [
                | none ↦ (h, false)
                | some v ↦ (remove_child h e v, true)
              ]))
    by_symbol none s = (wf, inl (unfold get_value in s, refl))
    by_symbol (some v) s = (remove_child-IsWellFormed h e v wf, inr (Removed-child h e v name wf s))
