-- ===== src/Builder/Service/Result.antt =====
-- protobuilder/service.go: what holds after any sequence of operations on services and methods.
use protoreflect.Common.{
  ℕ, ◌≡◌, refl, subst, Bool, true, Option, none, some, [], Bytes, if◌then◌else◌, arith,
}
use protoreflect.Builder.Enum.{is_child, write}
use protoreflect.Builder.Enum.Map.{count}
use protoreflect.Builder.Enum.Invariant.{IsWellFormed, unlink-IsWellFormed, try_remove_value_result}
use protoreflect.Builder.Enum.Add.{try_add_value_result}
use protoreflect.Builder.Enum.Rename.{try_set_name_result}
use protoreflect.Builder.Service.{
  ServiceHeap, MethodBuilder, RpcType, set_method, is_method_of, unlink_method, get_method,
  try_add_method, try_remove_method, try_set_method_name, set_service_options, set_method_options,
  set_request_type, set_response_type,
}
use protoreflect.Builder.Service.View.{view, unlink-view}
use protoreflect.Builder.Service.Simulation.{
  try_add_value-view, try_remove_value-view, try_set_name-view,
}

-- The slice of a service holds each of its methods once and nothing else; its symbols are the names
-- of its methods and lead to them.
pub record IsConsistent (h : ServiceHeap) : Type 0 where
  pub counted : (s m : ℕ) → count m (h.services s).methods ≡ (if is_method_of h s m then 1 else 0)
  pub symbol_of_method :
      (s m : ℕ) → is_method_of h s m ≡ true → get_method h s (h.mtbs m).name ≡ some m
  pub method_of_symbol :
      (s m : ℕ) (n : Bytes)
      → get_method h s n ≡ some m
      → (is_method_of h s m ≡ true) × ((h.mtbs m).name ≡ n)

of_view : (h : ServiceHeap) → IsWellFormed (view h) → IsConsistent h
of_view h wf = record {
  counted = λ s m. unfold is_child is_method_of in wf.counted s m;
  symbol_of_method = λ s m. unfold is_child is_method_of get_method in wf.symbol_of_child s m;
  method_of_symbol = λ s m n. unfold is_child is_method_of get_method in wf.child_of_symbol s m n;
}

pub to_view : (h : ServiceHeap) → IsConsistent h → IsWellFormed (view h)
to_view h c = record {
  counted = λ s m. unfold is_child is_method_of in c.counted s m;
  symbol_of_child = λ s m. unfold is_child is_method_of get_method in c.symbol_of_method s m;
  child_of_symbol = λ s m n. unfold is_child is_method_of get_method in c.method_of_symbol s m n;
}

-- Every builder is new: no method has a parent, and no service has a method.
pub record AllNew (h : ServiceHeap) : Type 0 where
  pub no_parent : (m : ℕ) → (h.mtbs m).parent ≡ none
  pub no_methods : (s : ℕ) → (h.services s).methods ≡ []
  pub no_symbols : (s : ℕ) (n : Bytes) → (h.services s).symbols n ≡ none

-- One call of an operation, whether it is refused or not.
pub data Step (valid : Bytes → Bool) : ServiceHeap → ServiceHeap → Type 0 where
  adds : (h : ServiceHeap) (s m : ℕ) → Step valid h (try_add_method h s m).0
  removes : (h : ServiceHeap) (s : ℕ) (name : Bytes) → Step valid h (try_remove_method h s name).0
  renames :
      (h : ServiceHeap) (m : ℕ) (name : Bytes) → Step valid h (try_set_method_name valid h m name).0
  unlinks : (h : ServiceHeap) (m : ℕ) → Step valid h (unlink_method h m)
  sets_service_options :
      (h : ServiceHeap) (s : ℕ) (o : Option Bytes) → Step valid h (set_service_options h s o)
  sets_method_options :
      (h : ServiceHeap) (m : ℕ) (o : Option Bytes) → Step valid h (set_method_options h m o)
  sets_request : (h : ServiceHeap) (m : ℕ) (t : RpcType) → Step valid h (set_request_type h m t)
  sets_response : (h : ServiceHeap) (m : ℕ) (t : RpcType) → Step valid h (set_response_type h m t)

-- Any number of calls.
pub data Run (valid : Bytes → Bool) (h0 : ServiceHeap) : ServiceHeap → Type 0 where
  start : Run valid h0 h0
  then_step : {h1 h2 : ServiceHeap} → Run valid h0 h1 → Step valid h1 h2 → Run valid h0 h2

module _ (h : ServiceHeap) (c : IsConsistent h) where
  try_add_method-IsConsistent : (s m : ℕ) → IsConsistent (try_add_method h s m).0
  try_add_method-IsConsistent s m = of_view _ (
      subst (λ r. IsWellFormed r.0) (try_add_value-view h s m)
        (try_add_value_result (view h) s m (to_view h c)).0)

  try_remove_method-IsConsistent : (s : ℕ) (n : Bytes) → IsConsistent (try_remove_method h s n).0
  try_remove_method-IsConsistent s n = of_view _ (
      subst (λ r. IsWellFormed r.0) (try_remove_value-view h s n)
        (try_remove_value_result (view h) s n (to_view h c)).0)

  try_set_method_name-IsConsistent :
      (valid : Bytes → Bool) (m : ℕ) (n : Bytes) → IsConsistent (try_set_method_name valid h m n).0
  try_set_method_name-IsConsistent valid m n = of_view _ (
      subst (λ r. IsWellFormed r.0) (try_set_name-view valid h m n)
        (try_set_name_result valid (view h) m n (to_view h c)).0)

  unlink_method-IsConsistent : (m : ℕ) → IsConsistent (unlink_method h m)
  unlink_method-IsConsistent m =
      of_view _
        (subst IsWellFormed (unlink-view h m) (unlink-IsWellFormed (view h) m (to_view h c)))

-- A write to what links no builders keeps the links.
record SameLinks (h h' : ServiceHeap) : Type 0 where
  methods : (s : ℕ) → (h'.services s).methods ≡ (h.services s).methods
  symbols : (s : ℕ) (n : Bytes) → get_method h' s n ≡ get_method h s n
  names : (m : ℕ) → (h'.mtbs m).name ≡ (h.mtbs m).name
  parents : (s m : ℕ) → is_method_of h' s m ≡ is_method_of h s m

SameLinks-IsConsistent : (h h' : ServiceHeap) → SameLinks h h' → IsConsistent h → IsConsistent h'
SameLinks-IsConsistent h h' l c = record {
  counted = λ s m. rw (l.methods s, l.parents s m) (c.counted s m);
  symbol_of_method = λ s m t.
      rw (l.names m, l.symbols s (h.mtbs m).name)
        (c.symbol_of_method s m (ground (arith, l.parents s m, t)));
  method_of_symbol = λ s m n t.
      rw (l.names m, l.parents s m) (c.method_of_symbol s m n (ground (arith, l.symbols s n, t)));
}

service_options_lem :
    (h : ServiceHeap) (s : ℕ) (o : Option Bytes) → SameLinks h (set_service_options h s o)
service_options_lem h s o = record {
  methods = λ q. unfold set_service_options write in ground arith;
  symbols = λ q n. unfold set_service_options write get_method in ground arith;
  names = λ m. unfold set_service_options in refl;
  parents = λ q m. unfold set_service_options is_method_of in refl;
}

-- Another method in place of the one that stands there, of the same name and parent.
method_lem :
    (h : ServiceHeap) (m : ℕ) (mtb : MethodBuilder)
    → mtb.name ≡ (h.mtbs m).name
    → mtb.parent ≡ (h.mtbs m).parent
    → SameLinks h (set_method h m mtb)
method_lem h m mtb same under = record {
  methods = λ q. refl;
  symbols = λ q n. unfold get_method in refl;
  names = λ w. unfold write in ground arith;
  parents = λ q w. unfold write is_method_of in ground arith;
}

Step-IsConsistent :
    {valid : Bytes → Bool} {h h' : ServiceHeap} → Step valid h h' → IsConsistent h → IsConsistent h'
Step-IsConsistent (adds h s m) c = try_add_method-IsConsistent h c s m
Step-IsConsistent (removes h s name) c = try_remove_method-IsConsistent h c s name
Step-IsConsistent {valid} (renames h m name) c = try_set_method_name-IsConsistent h c valid m name
Step-IsConsistent (unlinks h m) c = unlink_method-IsConsistent h c m
Step-IsConsistent (sets_service_options h s o) c =
    SameLinks-IsConsistent h _ (service_options_lem h s o) c
Step-IsConsistent (sets_method_options h m o) c =
    unfold set_method_options in SameLinks-IsConsistent h _ (method_lem h m _ refl refl) c
Step-IsConsistent (sets_request h m t) c =
    unfold set_request_type in SameLinks-IsConsistent h _ (method_lem h m _ refl refl) c
Step-IsConsistent (sets_response h m t) c =
    unfold set_response_type in SameLinks-IsConsistent h _ (method_lem h m _ refl refl) c

-- After any sequence of TryAddMethod, TryRemoveMethod, TrySetName, Unlink and the setters on builders
-- that were all new, refused calls included: the slice of a service holds each of its methods once
-- and nothing else, and its symbols are exactly the names of its methods and lead to them.
pub Run-IsConsistent :
    {valid : Bytes → Bool} {h0 h : ServiceHeap} → AllNew h0 → Run valid h0 h → IsConsistent h
Run-IsConsistent new start = record {
  counted =
      λ s m. rw (new.no_methods s) (unfold count is_method_of in ground (arith, new.no_parent m));
  symbol_of_method = λ s m t. absurd (unfold is_method_of in ground (arith, t, new.no_parent m));
  method_of_symbol = λ s m n t. absurd (unfold get_method in ground (arith, t, new.no_symbols s n));
}
Run-IsConsistent new (then_step r s) = Step-IsConsistent s (Run-IsConsistent new r)
