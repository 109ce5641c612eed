-- ===== src/Builder/Enum/Map.antt =====
-- Reads after the writes of protobuilder/enum.go, and what deleteBuilder removes.
use protoreflect.Common.{
  ℕ, suc, ◌-◌, ◌<◌, ◌≡◌, ◌≢◌, sym, subst, true, false, List, [], ◌∷◌, ◌++◌, ◌==◌, if◌then◌else◌,
  bytes_eq, bytes_eq_refl, bytes_eq_iff, Bool-cases, inl, inr, arith,
}
use protoreflect.Builder.Enum.{EnumValueBuilder, delete_builder}

-- How often a pointer stands in a slice.
unfoldable pub count : ℕ → List ℕ → ℕ
count v [] = 0
count v (w ∷ ws) = if v == w then suc (count v ws) else count v ws

pub count-append :
    (v : ℕ) (ws : List ℕ) (u : ℕ)
    → count v (ws ++ u ∷ []) ≡ (if v == u then suc (count v ws) else count v ws)
unfolding count
count-append v [] u = ground arith
count-append v (w ∷ ws) u = ground (arith, count-append v ws u)

count-le-cons : (v w : ℕ) (ws : List ℕ) → 0 < count v ws → 0 < count v (w ∷ ws)
unfolding count
count-le-cons v w ws h = ground arith

-- A value of another name is another value.
ne_of_name :
    (evs : ℕ → EnumValueBuilder) (w v : ℕ) → bytes_eq (evs w).name (evs v).name ≡ false → w ≢ v
ne_of_name evs w v h e =
    cc (
      h,
      subst (λ u. bytes_eq (evs u).name (evs v).name ≡ true) (sym e) (bytes_eq_refl (evs v).name),
    )

-- deleteBuilder removes the value `v` alone, if no other value in the slice has its name.
pub count-delete_builder :
    (evs : ℕ → EnumValueBuilder) (v : ℕ) (ws : List ℕ)
    → 0 < count v ws
    → ((w : ℕ) → 0 < count w ws → (evs w).name ≡ (evs v).name → w ≡ v)
    → (u : ℕ)
    → count u (delete_builder evs (evs v).name ws) ≡ (if u == v then count u ws - 1 else count u ws)
unfolding count delete_builder
count-delete_builder evs v [] pos only u = absurd (omega arith)
count-delete_builder evs v (w ∷ ws) pos only u =
    elim (Bool-cases (bytes_eq (evs w).name (evs v).name)) [
      | inl same ↦ ground (arith, only w, bytes_eq_iff (evs w).name (evs v).name)
      | inr other ↦ rw other (
          ground (
            arith,
            ne_of_name evs w v other,
            count-delete_builder evs v ws (ground (arith, ne_of_name evs w v other))
                (λ w' c e. only w' (count-le-cons w' w ws c) e) u,
          ))
    ]
