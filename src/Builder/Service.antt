-- ===== src/Builder/Service.antt =====
-- protobuilder/service.go, with the base builder of protobuilder/builder.go: services and methods.
-- The builders are shared by pointer, so they live in a heap: a pointer is a number.
pub mod View
pub mod Simulation
pub mod Result
pub mod Add
pub mod Build
pub mod Locations
pub mod Examples
use protoreflect.Common.{
  ℕ, suc, Bool, true, false, Option, none, some, List, [], ◌∷◌, ◌++◌, Bytes, codes, ◌==◌,
  if◌then◌else◌, bytes_eq, is_some,
}
use protoreflect.Tags.{service_methods_tag}
use protoreflect.Builder.Enum.{
  Comments, EnumError, already_contains, invalid_name, no_comments, write, put,
}

-- RpcType: a message builder, by its pointer, or an imported message, by its full name.
pub data MessageRef : Type 0 where
  local_type : ℕ → MessageRef
  foreign_type : Bytes → MessageRef

pub record RpcType : Type 0 where
  pub is_stream : Bool
  pub message : MessageRef

-- RpcType.TypeName: `full_name` is FullName on message builders
unfoldable pub type_name : (ℕ → Bytes) → RpcType → Bytes
type_name full_name t = elim t.message [ local_type m ↦ full_name m | foreign_type n ↦ n ]

-- ServiceBuilder, with the fields of its baseBuilder. The parent file is not looked into.
pub record ServiceBuilder : Type 0 where
  pub name : Bytes
  pub comments : Comments
  pub options : Option Bytes
  pub methods : List ℕ
  pub symbols : Bytes → Option ℕ

-- MethodBuilder, with the fields of its baseBuilder. Its parent is a service or nil.
pub record MethodBuilder : Type 0 where
  pub name : Bytes
  pub parent : Option ℕ
  pub comments : Comments
  pub options : Option Bytes
  pub req_type : RpcType
  pub resp_type : RpcType

pub record ServiceHeap : Type 0 where
  pub services : ℕ → ServiceBuilder
  pub mtbs : ℕ → MethodBuilder

-- *sb = sb', *mtb = mtb'
abbrev pub set_service : ServiceHeap → ℕ → ServiceBuilder → ServiceHeap
set_service h s sb = record h { services = write h.services s sb }

abbrev pub set_method : ServiceHeap → ℕ → MethodBuilder → ServiceHeap
set_method h m mtb = record h { mtbs = write h.mtbs m mtb }

-- NewService, NewMethod: `valid` is protoreflect's Name.IsValid; a bad name is a panic
unfoldable pub new_service : (Bytes → Bool) → Bytes → Option ServiceBuilder
new_service valid name =
    if valid name
    then some (record {
      name = name;
      comments = no_comments;
      options = none;
      methods = [];
      symbols = λ _. none;
    })
    else none

unfoldable pub new_method : (Bytes → Bool) → Bytes → RpcType → RpcType → Option MethodBuilder
new_method valid name req resp =
    if valid name
    then some (record {
      name = name;
      parent = none;
      comments = no_comments;
      options = none;
      req_type = req;
      resp_type = resp;
    })
    else none

-- GetMethod
unfoldable pub get_method : ServiceHeap → ℕ → Bytes → Option ℕ
get_method h s name = (h.services s).symbols name

-- addSymbol; `none` is its error
unfoldable pub add_method_symbol : ServiceHeap → ℕ → ℕ → Option ServiceHeap
unfolding put
add_method_symbol h s m =
    let sb = h.services s in
    if is_some (sb.symbols (h.mtbs m).name)
    then none
    else some (set_service h s (record sb { symbols = put sb.symbols (h.mtbs m).name (some m) }))

-- deleteBuilder on the methods of a service: the first of that name goes
unfoldable pub delete_method : (ℕ → MethodBuilder) → Bytes → List ℕ → List ℕ
delete_method mtbs name [] = []
delete_method mtbs name (m ∷ ms) =
    if bytes_eq (mtbs m).name name then ms else m ∷ delete_method mtbs name ms

-- p, ok := b.Parent().(*ServiceBuilder); !ok || p != sb
unfoldable pub is_method_of : ServiceHeap → ℕ → ℕ → Bool
is_method_of h s m = elim (h.mtbs m).parent [ none ↦ false | some p ↦ p == s ]

-- removeChild
unfoldable pub remove_method_child : ServiceHeap → ℕ → ℕ → ServiceHeap
unfolding is_method_of delete_method put write
remove_method_child h s m =
    let sb = h.services s in
    let mtb = h.mtbs m in
    if is_method_of h s m
    then set_method
        (set_service h s (record sb {
          methods = delete_method h.mtbs mtb.name sb.methods;
          symbols = put sb.symbols mtb.name none;
        }))
        m (record mtb { parent = none })
    else h

-- Unlink, on a method
unfoldable pub unlink_method : ServiceHeap → ℕ → ServiceHeap
unlink_method h m = elim (h.mtbs m).parent [ none ↦ h | some p ↦ remove_method_child h p m ]

-- The end of TryAddMethod: setParent, and the method is appended.
unfoldable pub attach_method : ServiceHeap → ℕ → ℕ → ServiceHeap
unfolding write
attach_method h s m =
    let h1 = set_method h m (record (h.mtbs m) { parent = some s }) in
    set_service h1 s (record (h1.services s) { methods = (h1.services s).methods ++ m ∷ [] })

-- TryAddMethod: the heap behind it, and its error
unfoldable pub try_add_method : ServiceHeap → ℕ → ℕ → ServiceHeap × Option EnumError
try_add_method h s m = elim (add_method_symbol h s m) [
  | none ↦ (h, some already_contains)
  | some h1 ↦ (attach_method (unlink_method h1 m) s m, none)
]

-- TryRemoveMethod
unfoldable pub try_remove_method : ServiceHeap → ℕ → Bytes → ServiceHeap × Bool
try_remove_method h s name = elim ((h.services s).symbols name) [
  | none ↦ (h, false)
  | some m ↦ (remove_method_child h s m, true)
]

-- renamedChild; `none` is its error
unfoldable pub renamed_method : ServiceHeap → ℕ → ℕ → Bytes → Option ServiceHeap
unfolding is_method_of
renamed_method h s m old_name =
    if is_method_of h s m
    then elim (add_method_symbol h s m) [
      | none ↦ none
      | some h1 ↦
          let sb = h1.services s in
          some (set_service h1 s (record sb { symbols = put sb.symbols old_name none }))
    ]
    else some h

-- The end of baseBuilder.setName: the rename is reverted if the parent refuses it.
unfoldable pub settle_method :
    ServiceHeap → ℕ → Bytes → Option ServiceHeap → ServiceHeap × Option EnumError
settle_method h1 m old_name none =
    (set_method h1 m (record (h1.mtbs m) { name = old_name }), some already_contains)
settle_method h1 m old_name (some h2) = (h2, none)

unfoldable pub notify_service : ServiceHeap → ℕ → Bytes → Option ℕ → ServiceHeap × Option EnumError
unfolding settle_method
notify_service h1 m old_name none = (h1, none)
notify_service h1 m old_name (some s) = settle_method h1 m old_name (renamed_method h1 s m old_name)

-- TrySetName on a method, by baseBuilder.setName
unfoldable pub try_set_method_name :
    (Bytes → Bool) → ServiceHeap → ℕ → Bytes → ServiceHeap × Option EnumError
unfolding notify_service
try_set_method_name valid h m new_name =
    let mtb = h.mtbs m in
    if bytes_eq new_name mtb.name
    then (h, none)
    else if valid new_name
    then notify_service (set_method h m (record mtb { name = new_name })) m mtb.name mtb.parent
    else (h, some invalid_name)

-- SetOptions, SetRequestType, SetResponseType
unfoldable pub set_service_options : ServiceHeap → ℕ → Option Bytes → ServiceHeap
set_service_options h s options = set_service h s (record (h.services s) { options = options })

unfoldable pub set_method_options : ServiceHeap → ℕ → Option Bytes → ServiceHeap
set_method_options h m options = set_method h m (record (h.mtbs m) { options = options })

unfoldable pub set_request_type : ServiceHeap → ℕ → RpcType → ServiceHeap
set_request_type h m t = set_method h m (record (h.mtbs m) { req_type = t })

unfoldable pub set_response_type : ServiceHeap → ℕ → RpcType → ServiceHeap
set_response_type h m t = set_method h m (record (h.mtbs m) { resp_type = t })
