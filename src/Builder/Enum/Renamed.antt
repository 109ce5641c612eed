-- ===== src/Builder/Enum/Renamed.antt =====
-- renamedChild of protobuilder/enum.go: the heap behind a rename that the parent accepts or refuses.
use mathlib.Core.Path.{fun_ext}
use protoreflect.Common.{
  ℕ, ◌≡◌, refl, ap, true, false, none, some, Bytes, ◌==◌, if◌then◌else◌, bytes_eq, bytes_eq_refl,
  bytes_eq_iff, Bool-cases, is_some, inl, inr, arith,
}
use protoreflect.Builder.Enum.{
  Heap, write, put, is_child, add_symbol, renamed_child, set_ev, set_enum,
}
use protoreflect.Builder.Enum.Invariant.{IsWellFormed}

module _ (h : Heap) (e v : ℕ) (old : Bytes) (child : is_child h e v ≡ true) where
  pub renamed_child_refused :
      is_some ((h.enums e).symbols (h.evs v).name) ≡ true → renamed_child h e v old ≡ none
  unfolding renamed_child add_symbol
  renamed_child_refused taken = rw (child, taken, renamed_child) refl

  pub renamed_child_accepted :
      is_some ((h.enums e).symbols (h.evs v).name) ≡ false
      → renamed_child h e v old
        ≡ some (
            let h1 =
              set_enum h e (record (h.enums e) {
                symbols = put (h.enums e).symbols (h.evs v).name (some v);
              }) in
            set_enum h1 e (record (h1.enums e) { symbols = put (h1.enums e).symbols old none }))
  unfolding renamed_child add_symbol
  renamed_child_accepted free = rw (child, free, renamed_child) refl

module _ (h : Heap) (v : ℕ) (name : Bytes) where
  -- The value has its new name, and no parent knows of it yet.
  abbrev pub named : Heap
  named = set_ev h v (record (h.evs v) { name = name })

  pub is_child-named : (e w : ℕ) → is_child named e w ≡ is_child h e w
  unfolding is_child write
  is_child-named e w = ground arith

  pub name-named : (w : ℕ) → (named.evs w).name ≡ (if w == v then name else (h.evs w).name)
  unfolding write
  name-named w = ground arith

  -- Giving the value its old name back restores the heap.
  pub named_back : set_ev named v (record (named.evs v) { name = (h.evs v).name }) ≡ h
  unfolding write
  named_back = ap (λ f. record h { evs = f }) (fun_ext (λ w. ground arith))

  orphan : (h.evs v).parent ≡ none → (q : ℕ) → is_child h q v ≡ false
  unfolding is_child
  orphan root q = ground (arith, root)

  -- With no parent a rename concerns nobody else.
  pub named-IsWellFormed : IsWellFormed h → (h.evs v).parent ≡ none → IsWellFormed named
  named-IsWellFormed wf root = record {
    counted = λ e w. rw (is_child-named e w) (wf.counted e w);
    symbol_of_child = λ e w c.
        rw (name-named w)
          (ground (arith, is_child-named e w, orphan root e, wf.symbol_of_child e w));
    child_of_symbol = λ e w n s.
        rw (name-named w, is_child-named e w)
          (ground (arith, orphan root e, wf.child_of_symbol e w n s));
  }

  module _ (e : ℕ) where
    -- The heap behind a rename that the parent accepts.
    abbrev pub renamed : Heap
    renamed =
        let h2 =
          set_enum named e (record (h.enums e) {
            symbols = put (h.enums e).symbols (named.evs v).name (some v);
          }) in
        set_enum h2 e
          (record (h2.enums e) { symbols = put (h2.enums e).symbols (h.evs v).name none })

    module _ (wf : IsWellFormed h) (under : (h.evs v).parent ≡ some e)
        (free : (h.enums e).symbols name ≡ none) (ne : bytes_eq name (h.evs v).name ≡ false) where
      child_of_one : (q : ℕ) → is_child h q v ≡ (q == e)
      unfolding is_child
      child_of_one q = ground (arith, under)

      is_child-renamed : (q w : ℕ) → is_child renamed q w ≡ is_child h q w
      unfolding is_child write
      is_child-renamed q w = ground arith

      values-renamed : (q : ℕ) → (renamed.enums q).values ≡ (h.enums q).values
      unfolding write
      values-renamed q = ground arith

      symbols-renamed :
          (q : ℕ) (n : Bytes)
          → (renamed.enums q).symbols n ≡ (
              if q == e
              then if bytes_eq n (h.evs v).name
                then none
                else if bytes_eq n name
                then some v
                else (h.enums e).symbols n
              else (h.enums q).symbols n)
      unfolding write put
      symbols-renamed q n = ground arith

      symbol-renamed :
          (q w : ℕ)
          → is_child renamed q w ≡ true
          → (renamed.enums q).symbols (renamed.evs w).name ≡ some w
      symbol-renamed q w c = elim (Bool-cases (w == v)) [
        | inl same ↦
            rw (name-named w, same, symbols-renamed q name, ne, bytes_eq_refl name)
              (ground (arith, same, child_of_one q, is_child-renamed q w))
        | inr other ↦
            rw (name-named w, other, symbols-renamed q (h.evs w).name)
              (ground (
                arith,
                other,
                free,
                is_child-renamed q w,
                wf.symbol_of_child q w,
                wf.symbol_of_child e v,
                child_of_one q,
                child_of_one e,
                bytes_eq_iff (h.evs w).name (h.evs v).name,
                bytes_eq_iff (h.evs w).name name,
              ))
      ]

      child-renamed :
          (q w : ℕ) (n : Bytes)
          → (renamed.enums q).symbols n ≡ some w
          → (is_child renamed q w ≡ true) × ((renamed.evs w).name ≡ n)
      child-renamed q w n s =
          rw (is_child-renamed q w, name-named w)
            (ground (
              arith,
              symbols-renamed q n,
              wf.child_of_symbol q w n,
              child_of_one q,
              bytes_eq_iff n (h.evs v).name,
              bytes_eq_iff n name,
            ))

      pub renamed-IsWellFormed : IsWellFormed renamed
      renamed-IsWellFormed = record {
        counted = λ q w. rw (values-renamed q, is_child-renamed q w) (wf.counted q w);
        symbol_of_child = symbol-renamed;
        child_of_symbol = child-renamed;
      }
