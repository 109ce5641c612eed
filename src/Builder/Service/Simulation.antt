-- ===== src/Builder/Service/Simulation.antt =====
-- The operations of protobuilder/service.go do to a service what those of protobuilder/enum.go do to
-- an enum.
use protoreflect.Common.{
  ℕ, ◌≡◌, refl, sym, ap, subst, Bool, true, false, Option, none, some, Bytes, bytes_eq, Bool-cases,
  inl, inr,
}
use protoreflect.Builder.Enum.{
  Heap, EnumError, already_contains, put, set_enum, is_child, remove_child, unlink, attach,
  try_add_value, try_remove_value, renamed_child, settle, notify_parent, try_set_name,
}
use protoreflect.Builder.Service.{
  ServiceHeap, set_service, set_method, is_method_of, remove_method_child, unlink_method,
  add_method_symbol, attach_method, try_add_method, try_remove_method, renamed_method,
  settle_method, notify_service, try_set_method_name,
}
use protoreflect.Builder.Service.View.{
  view, view_result, view_option, view-set_service, view-set_method, add_symbol-view,
  remove_child-view, unlink-view, attach-view,
}

module _ (h : ServiceHeap) (s m : ℕ) where
  add_value : Option Heap → Heap × Option EnumError
  add_value o = elim o [
    | none ↦ (view h, some already_contains)
    | some h1 ↦ (attach (unlink h1 m) s m, none)
  ]

  add_method : Option ServiceHeap → ServiceHeap × Option EnumError
  add_method o = elim o [
    | none ↦ (h, some already_contains)
    | some h1 ↦ (attach_method (unlink_method h1 m) s m, none)
  ]

  add_value-view : (o : Option ServiceHeap) → add_value (view_option o) ≡ view_result (add_method o)
  unfolding add_value add_method
  add_value-view none = refl
  add_value-view (some h1) = rw (unlink-view h1 m, attach-view (unlink_method h1 m) s m) refl

  pub try_add_value-view : try_add_value (view h) s m ≡ view_result (try_add_method h s m)
  unfolding try_add_value try_add_method add_value add_method
  try_add_value-view =
      subst (λ o. add_value o ≡ view_result (try_add_method h s m)) (sym (add_symbol-view h s m))
        (add_value-view (add_method_symbol h s m))

  module _ (old_name : Bytes) where
    forget_value : Option Heap → Option Heap
    forget_value o = elim o [
      | none ↦ none
      | some h1 ↦
          some (
            set_enum h1 s
              (record (h1.enums s) { symbols = put (h1.enums s).symbols old_name none }))
    ]

    forget_method : Option ServiceHeap → Option ServiceHeap
    forget_method o = elim o [
      | none ↦ none
      | some h1 ↦ some (
          set_service h1 s
            (record (h1.services s) { symbols = put (h1.services s).symbols old_name none }))
    ]

    forget-view :
        (o : Option ServiceHeap) → forget_value (view_option o) ≡ view_option (forget_method o)
    unfolding forget_value forget_method
    forget-view none = refl
    forget-view (some h1) = ap some (sym (view-set_service h1 s _))

    renamed_child-view :
        renamed_child (view h) s m old_name ≡ view_option (renamed_method h s m old_name)
    unfolding renamed_child renamed_method forget_value forget_method is_child
    renamed_child-view = elim (Bool-cases (is_method_of h s m)) [
      | inl child ↦ rw child (
          subst (λ o. forget_value o ≡ view_option (forget_method (add_method_symbol h s m)))
            (sym (add_symbol-view h s m)) (forget-view (add_method_symbol h s m)))
      | inr other ↦ rw other refl
    ]

pub try_remove_value-view :
    (h : ServiceHeap) (s : ℕ) (name : Bytes)
    → try_remove_value (view h) s name ≡ view_result (try_remove_method h s name)
unfolding try_remove_value try_remove_method
try_remove_value-view h s name = by_symbol ((h.services s).symbols name)
  where
    by_symbol :
        (o : Option ℕ)
        → (elim o as (λ _. Heap × Bool) [
          | none ↦ (view h, false)
          | some v ↦ (remove_child (view h) s v, true)
        ])
          ≡ view_result (elim o as (λ _. ServiceHeap × Bool) [
            | none ↦ (h, false)
            | some m ↦ (remove_method_child h s m, true)
          ])
    by_symbol none = refl
    by_symbol (some m) = rw (remove_child-view h s m) refl

settle-view :
    (h : ServiceHeap) (m : ℕ) (old_name : Bytes) (o : Option ServiceHeap)
    → settle (view h) m old_name (view_option o) ≡ view_result (settle_method h m old_name o)
unfolding settle settle_method
settle-view h m old_name none =
    rw (view-set_method h m (record (h.mtbs m) { name = old_name })) refl
settle-view h m old_name (some h2) = refl

notify-view :
    (h : ServiceHeap) (m : ℕ) (old_name : Bytes) (o : Option ℕ)
    → notify_parent (view h) m old_name o ≡ view_result (notify_service h m old_name o)
unfolding notify_parent notify_service
notify-view h m old_name none = refl
notify-view h m old_name (some s) =
    rw (renamed_child-view h s m old_name)
      (settle-view h m old_name (renamed_method h s m old_name))

pub try_set_name-view :
    (valid : Bytes → Bool) (h : ServiceHeap) (m : ℕ) (name : Bytes)
    → try_set_name valid (view h) m name ≡ view_result (try_set_method_name valid h m name)
unfolding try_set_name try_set_method_name
try_set_name-view valid h m name = elim (Bool-cases (bytes_eq name (h.mtbs m).name)) [
  | inl same ↦ rw same refl
  | inr ne ↦ elim (Bool-cases (valid name)) [
    | inl good ↦
        rw (ne, good)
          (subst
            (λ g.
              notify_parent g m (h.mtbs m).name (h.mtbs m).parent
              ≡ view_result (
                  notify_service (set_method h m (record (h.mtbs m) { name = name })) m
                    (h.mtbs m).name (h.mtbs m).parent))
            (view-set_method h m (record (h.mtbs m) { name = name }))
            (notify-view (set_method h m (record (h.mtbs m) { name = name })) m (h.mtbs m).name
              (h.mtbs m).parent))
    | inr bad ↦ rw (ne, bad) refl
  ]
]

-- TryAddMethod, TryRemoveMethod and TrySetName on a method do to a service what TryAddValue,
-- TryRemoveValue and TrySetName on a value do to an enum with the same names, slices and symbols:
-- the heaps they leave are the same when seen as enums, and so are the errors.
pub try_add_method-try_add_value :
    (valid : Bytes → Bool) (h : ServiceHeap) (s m : ℕ) (name : Bytes)
    → (try_add_value (view h) s m ≡ view_result (try_add_method h s m))
      × (try_remove_value (view h) s name ≡ view_result (try_remove_method h s name))
      × (try_set_name valid (view h) m name ≡ view_result (try_set_method_name valid h m name))
try_add_method-try_add_value valid h s m name =
    (try_add_value-view h s m, try_remove_value-view h s name, try_set_name-view valid h m name)
