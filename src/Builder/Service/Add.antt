-- ===== src/Builder/Service/Add.antt =====
-- TryAddMethod of protobuilder/service.go: the method moves to the service from where it was.
use protoreflect.Common.{
  ℕ, ◌≡◌, ◌⊎◌, refl, sym, subst, true, Option, none, some, Bytes, ◌==◌, if◌then◌else◌, bytes_eq,
  Bool-cases, is_some, inl, inr, arith,
}
use protoreflect.Builder.Enum.{EnumError, already_contains, is_child, get_value}
use protoreflect.Builder.Enum.Add.{Refused, Added, try_add_value_result}
use protoreflect.Builder.Service.{
  ServiceHeap, is_method_of, get_method, add_method_symbol, try_add_method,
}
use protoreflect.Builder.Service.View.{view}
use protoreflect.Builder.Service.Simulation.{try_add_value-view}
use protoreflect.Builder.Service.Result.{IsConsistent, to_view}

-- The service has a method of the name, and nothing changed.
abbrev pub MethodRefused : ServiceHeap → ℕ → ℕ → ServiceHeap × Option EnumError → Type 0
MethodRefused h s m r =
    (is_some (get_method h s (h.mtbs m).name) ≡ true) × (r.0 ≡ h) × (r.1 ≡ some already_contains)

-- The method is one of the service and of no other, its name leads to it, and the other names of
-- the service lead where they led.
abbrev pub MethodAdded : ServiceHeap → ℕ → ℕ → ServiceHeap × Option EnumError → Type 0
MethodAdded h s m r =
    (get_method h s (h.mtbs m).name ≡ none)
    × (r.1 ≡ none)
    × ((q : ℕ) → is_method_of r.0 q m ≡ (q == s))
    × ((n : Bytes)
        → get_method r.0 s n ≡ (if bytes_eq n (h.mtbs m).name then some m else get_method h s n))

method_symbol_taken :
    (h : ServiceHeap) (s m : ℕ)
    → is_some (get_method h s (h.mtbs m).name) ≡ true
    → try_add_method h s m ≡ (h, some already_contains)
unfolding add_method_symbol try_add_method get_method
method_symbol_taken h s m t = rw (t, try_add_method) refl

-- TryAddMethod: if the service has a method of the same name, the call is refused and nothing
-- changes; else the method moves to this service from the one where it was, if any: it is one of this
-- service alone, its name leads to it, and every other name leads where it led.
pub try_add_method_result :
    (h : ServiceHeap) (s m : ℕ)
    → IsConsistent h
    → MethodRefused h s m (try_add_method h s m) ⊎ MethodAdded h s m (try_add_method h s m)
try_add_method_result h s m c = elim (Bool-cases (is_some (get_method h s (h.mtbs m).name))) [
  | inl taken ↦
      inl (subst (MethodRefused h s m) (sym (method_symbol_taken h s m taken)) (taken, refl, refl))
  | inr free ↦
      inr
        (elim (subst (λ r. Refused (view h) s m r ⊎ Added (view h) s m r) (try_add_value-view h s m)
          (try_add_value_result (view h) s m (to_view h c)).1) [
            | inl refused ↦ absurd (unfold get_value get_method in ground (arith, free, refused.0))
            | inr added ↦ unfold is_child is_method_of get_value get_method in added
          ])
]
