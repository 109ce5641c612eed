-- ===== src/Builder/Service/View.antt =====
-- protobuilder/service.go against protobuilder/enum.go: a service keeps its methods the way an enum
-- keeps its values. The view of a heap of services as one of enums forgets what methods have alone.
use mathlib.Core.Path.{fun_ext}
use protoreflect.Common.{
  ℕ, ◌≡◌, refl, sym, ap, Bool, true, false, Option, none, some, List, [], ◌∷◌, Bytes, ◌==◌,
  if◌then◌else◌, bytes_eq, Bool-cases, is_some, inl, inr,
}
use protoreflect.Common.Int.{pos}
use protoreflect.Builder.Enum.{
  Heap, EnumBuilder, EnumValueBuilder, write, set_enum, set_ev, delete_builder, is_child,
  remove_child, unlink, add_symbol, attach,
}
use protoreflect.Builder.Service.{
  ServiceHeap, ServiceBuilder, MethodBuilder, set_service, set_method, delete_method, is_method_of,
  remove_method_child, unlink_method, add_method_symbol, attach_method,
}

abbrev pub view_service : ServiceBuilder → EnumBuilder
view_service sb = record {
  name = sb.name;
  comments = sb.comments;
  options = sb.options;
  reserved_ranges = [];
  reserved_names = [];
  values = sb.methods;
  symbols = sb.symbols;
}

abbrev pub view_method : MethodBuilder → EnumValueBuilder
view_method mtb = record {
  name = mtb.name;
  parent = mtb.parent;
  comments = mtb.comments;
  number = pos 0;
  number_set = false;
  options = mtb.options;
}

abbrev pub view : ServiceHeap → Heap
view h = record { enums = λ s. view_service (h.services s); evs = λ m. view_method (h.mtbs m) }

-- What an operation leaves, as one of enums.
abbrev pub view_result : {A : Type 0} → ServiceHeap × A → Heap × A
view_result r = (view r.0, r.1)

abbrev pub view_option : Option ServiceHeap → Option Heap
view_option o = elim o [ none ↦ none | some h ↦ some (view h) ]

pub map_write :
    {A B : Type 0}
    → (g : A → B) (f : ℕ → A) (p : ℕ) (x : A)
    → (λ q. g (write f p x q)) ≡ write (λ q. g (f q)) p (g x)
unfolding write
map_write g f p x = fun_ext (λ q. by_case q (q == p))
  where
    by_case : (q : ℕ) (b : Bool) → g (if b then x else f q) ≡ (if b then g x else g (f q))
    by_case q true = refl
    by_case q false = refl

module _ (h : ServiceHeap) where
  pub view-set_service :
      (s : ℕ) (sb : ServiceBuilder)
      → view (set_service h s sb) ≡ set_enum (view h) s (view_service sb)
  view-set_service s sb =
      ap (λ f. record (view h) { enums = f }) (map_write view_service h.services s sb)

  pub view-set_method :
      (m : ℕ) (mtb : MethodBuilder)
      → view (set_method h m mtb) ≡ set_ev (view h) m (view_method mtb)
  view-set_method m mtb = ap (λ f. record (view h) { evs = f }) (map_write view_method h.mtbs m mtb)

  pub is_child-view : (s m : ℕ) → is_child (view h) s m ≡ is_method_of h s m
  unfolding is_child is_method_of
  is_child-view s m = refl

  pub delete_builder-view :
      (name : Bytes) (ms : List ℕ)
      → delete_builder (view h).evs name ms ≡ delete_method h.mtbs name ms
  unfolding delete_builder delete_method
  delete_builder-view name [] = refl
  delete_builder-view name (m ∷ ms) =
      ap (λ rest. if bytes_eq (h.mtbs m).name name then ms else m ∷ rest)
        (delete_builder-view name ms)

  pub add_symbol-view : (s m : ℕ) → add_symbol (view h) s m ≡ view_option (add_method_symbol h s m)
  unfolding add_symbol add_method_symbol
  add_symbol-view s m = elim (Bool-cases (is_some ((h.services s).symbols (h.mtbs m).name))) [
    | inl taken ↦ rw taken refl
    | inr free ↦ rw free (ap some (sym (view-set_service s _)))
  ]

-- Two writes after one another.
pub view_writes :
    (h : ServiceHeap) (s : ℕ) (sb : ServiceBuilder) (m : ℕ) (mtb : MethodBuilder)
    → view (set_method (set_service h s sb) m mtb)
      ≡ set_ev (set_enum (view h) s (view_service sb)) m (view_method mtb)
view_writes h s sb m mtb =
    rw (view-set_method (set_service h s sb) m mtb, view-set_service h s sb) refl

pub remove_child-view :
    (h : ServiceHeap) (s m : ℕ) → remove_child (view h) s m ≡ view (remove_method_child h s m)
remove_child-view h s m = elim (Bool-cases (is_method_of h s m)) [
  | inl child ↦
      unfold remove_child remove_method_child is_child in
      rw (child, delete_builder-view h (h.mtbs m).name (h.services s).methods)
        (sym (view_writes h s _ m _))
  | inr other ↦ unfold remove_child remove_method_child is_child in rw other refl
]

pub unlink-view : (h : ServiceHeap) (m : ℕ) → unlink (view h) m ≡ view (unlink_method h m)
unfolding unlink unlink_method
unlink-view h m = by_parent (h.mtbs m).parent
  where
    by_parent :
        (o : Option ℕ)
        → (elim o as (λ _. Heap) [ none ↦ view h | some p ↦ remove_child (view h) p m ])
          ≡ view (elim o [ none ↦ h | some p ↦ remove_method_child h p m ])
    by_parent none = refl
    by_parent (some p) = remove_child-view h p m

pub attach-view : (h : ServiceHeap) (s m : ℕ) → attach (view h) s m ≡ view (attach_method h s m)
unfolding attach attach_method
attach-view h s m = sym (
    rw
      (
        view-set_service (set_method h m (record (h.mtbs m) { parent = some s })) s _,
        view-set_method h m (record (h.mtbs m) { parent = some s }),
      )
      refl)
