-- ===== src/Builder/Enum/Add.antt =====
-- TryAddValue of protobuilder/enum.go: the value moves to the enum from where it was.
use protoreflect.Common.{
  ℕ, ◌≡◌, ◌≢◌, ◌⊎◌, refl, sym, subst, true, false, Option, none, some, [], ◌∷◌, ◌++◌, Bytes, ◌==◌,
  if◌then◌else◌, bytes_eq, bytes_eq_iff, Bool-cases, Option-cases, is_some, inl, inr, arith,
}
use protoreflect.Builder.Enum.{
  Heap, EnumError, already_contains, write, put, is_child, add_symbol, remove_child, unlink, attach,
  try_add_value, get_value,
}
use protoreflect.Builder.Enum.Map.{count, count-append}
use protoreflect.Builder.Enum.Invariant.{IsWellFormed, unlink-IsWellFormed}

module _ (h : Heap) (e v : ℕ) where
  add_symbol_taken :
      is_some ((h.enums e).symbols (h.evs v).name) ≡ true
      → try_add_value h e v ≡ (h, some already_contains)
  unfolding add_symbol try_add_value
  add_symbol_taken t = rw (t, try_add_value) refl

  -- The heap behind a TryAddValue that is not refused.
  abbrev added : Heap
  added =
      attach
        (unlink
          (record h {
            enums =
                write h.enums e (record (h.enums e) {
                  symbols = put (h.enums e).symbols (h.evs v).name (some v);
                });
          })
          v)
        e v

  add_symbol_free :
      is_some ((h.enums e).symbols (h.evs v).name) ≡ false → try_add_value h e v ≡ (added, none)
  unfolding add_symbol try_add_value
  add_symbol_free t = rw (t, try_add_value) refl

  module _ (free : (h.enums e).symbols (h.evs v).name ≡ none) (wf : IsWellFormed h) where
    parent_ne : (p : ℕ) → (h.evs v).parent ≡ some p → p ≢ e
    unfolding is_child
    parent_ne p hp same = ground (arith, wf.symbol_of_child e v, hp, same)

    name-added : (w : ℕ) → (added.evs w).name ≡ (h.evs w).name
    unfolding attach unlink remove_child write
    name-added w = ground arith

    is_child-added :
        (q w : ℕ) → is_child added q w ≡ (if w == v then q == e else is_child (unlink h v) q w)
    unfolding attach unlink remove_child write is_child
    is_child-added q w = elim (Option-cases (h.evs v).parent) [
      | inl root ↦ ground (arith, root)
      | inr (p, under) ↦ ground (arith, under, parent_ne p under)
    ]

    values-added :
        (q : ℕ)
        → (added.enums q).values ≡ (
            if q == e
            then ((unlink h v).enums e).values ++ v ∷ []
            else ((unlink h v).enums q).values)
    unfolding attach unlink remove_child write is_child
    values-added q = elim (Option-cases (h.evs v).parent) [
      | inl root ↦ ground (arith, root)
      | inr (p, under) ↦ ground (arith, under, parent_ne p under)
    ]

    symbols-added :
        (q : ℕ) (n : Bytes)
        → (added.enums q).symbols n ≡ (
            if q == e
            then if bytes_eq n (h.evs v).name then some v else ((unlink h v).enums e).symbols n
            else ((unlink h v).enums q).symbols n)
    unfolding attach unlink remove_child write is_child put
    symbols-added q n = elim (Option-cases (h.evs v).parent) [
      | inl root ↦ ground (arith, root)
      | inr (p, under) ↦ ground (arith, under, parent_ne p under)
    ]

    unlinked : (q : ℕ) → is_child (unlink h v) q v ≡ false
    unfolding unlink remove_child write is_child
    unlinked q = elim (Option-cases (h.evs v).parent) [
      | inl root ↦ ground (arith, root)
      | inr (p, under) ↦ ground (arith, under)
    ]

    name-unlink : (w : ℕ) → ((unlink h v).evs w).name ≡ (h.evs w).name
    unfolding unlink remove_child write
    name-unlink w = ground arith

    symbols-unlink : (n : Bytes) → ((unlink h v).enums e).symbols n ≡ (h.enums e).symbols n
    unfolding unlink remove_child write is_child
    symbols-unlink n = elim (Option-cases (h.evs v).parent) [
      | inl root ↦ ground (arith, root)
      | inr (p, under) ↦ ground (arith, under, parent_ne p under)
    ]

    counted-added :
        (q w : ℕ) → count w (added.enums q).values ≡ (if is_child added q w then 1 else 0)
    counted-added q w =
        rw (values-added q, is_child-added q w)
          (ground (
            arith,
            unlinked q,
            (unlink-IsWellFormed h v wf).counted q w,
            (unlink-IsWellFormed h v wf).counted e w,
            count-append w ((unlink h v).enums e).values v,
          ))

    symbol-added :
        (q w : ℕ) → is_child added q w ≡ true → (added.enums q).symbols (added.evs w).name ≡ some w
    symbol-added q w child =
        rw (name-added w, symbols-added q (h.evs w).name)
          (ground (
            arith,
            is_child-added q w,
            unlinked q,
            free,
            symbols-unlink (h.evs w).name,
            name-unlink w,
            (unlink-IsWellFormed h v wf).symbol_of_child q w,
            bytes_eq_iff (h.evs w).name (h.evs v).name,
          ))

    child-added :
        (q w : ℕ) (n : Bytes)
        → (added.enums q).symbols n ≡ some w
        → (is_child added q w ≡ true) × ((added.evs w).name ≡ n)
    child-added q w n s = ground (
      arith,
      is_child-added q w,
      name-added w,
      symbols-added q n,
      name-unlink w,
      unlinked q,
      (unlink-IsWellFormed h v wf).child_of_symbol q w n,
      bytes_eq_iff n (h.evs v).name,
    )

    added-IsWellFormed : IsWellFormed added
    added-IsWellFormed = record {
      counted = counted-added;
      symbol_of_child = symbol-added;
      child_of_symbol = child-added;
    }

-- The enum has a value of the name, and nothing changed.
abbrev pub Refused : Heap → ℕ → ℕ → Heap × Option EnumError → Type 0
Refused h e v r = (is_some (get_value h e (h.evs v).name) ≡ true) × (r ≡ (h, some already_contains))

-- The value is a child of the enum and of no other, its name leads to it, and the other names of
-- the enum lead where they led.
abbrev pub Added : Heap → ℕ → ℕ → Heap × Option EnumError → Type 0
Added h e v r =
    (get_value h e (h.evs v).name ≡ none)
    × (r.1 ≡ none)
    × ((q : ℕ) → is_child r.0 q v ≡ (q == e))
    × ((n : Bytes)
        → get_value r.0 e n ≡ (if bytes_eq n (h.evs v).name then some v else get_value h e n))

-- TryAddValue keeps the invariant. If the enum has a value of the same name, the call is refused and
-- nothing changes; else the value moves to this enum from the one where it was, if any: it is a
-- child of this enum alone, its name leads to it, and every other name leads where it led.
pub try_add_value_result :
    (h : Heap) (e v : ℕ)
    → IsWellFormed h
    → IsWellFormed (try_add_value h e v).0
      × (Refused h e v (try_add_value h e v) ⊎ Added h e v (try_add_value h e v))
try_add_value_result h e v wf = elim (Bool-cases (is_some ((h.enums e).symbols (h.evs v).name))) [
  | inl taken ↦
      subst Outcome (sym (add_symbol_taken h e v taken)) (wf, inl (unfold get_value in taken, refl))
  | inr free ↦
      subst Outcome (sym (add_symbol_free h e v free))
        (added-IsWellFormed h e v (none_of free) wf, inr (added_lem (none_of free)))
]
  where
    Outcome : Heap × Option EnumError → Type 0
    Outcome r = IsWellFormed r.0 × (Refused h e v r ⊎ Added h e v r)

    none_of :
        is_some ((h.enums e).symbols (h.evs v).name) ≡ false
        → (h.enums e).symbols (h.evs v).name ≡ none
    none_of free = ground arith

    added_lem : (h.enums e).symbols (h.evs v).name ≡ none → Added h e v (added h e v, none)
    added_lem free = (
      unfold get_value in free,
      refl,
      λ q. rw (is_child-added h e v free wf q v) (ground arith),
      λ n.
          unfold get_value in
          rw (symbols-added h e v free wf e n, symbols-unlink h e v free wf n) (ground arith),
    )
