-- ===== src/Resolve/Symbols.antt =====
-- protoresolve/helpers.go: the descriptor of a full name in a file.
pub mod Declares
pub mod Finds
pub mod Sound
pub mod Examples
use protoreflect.Common.{
  ℕ, Bool, true, false, Option, none, some, List, [], ◌∷◌, ◌++◌, Bytes, ◌==◌, if◌then◌else◌,
  bytes_eq, has_prefix, length, drop,
}

-- What is asked of descriptors: their names and their children
pub record EnumNode : Type 0 where
  pub name : Bytes
  pub values : List Bytes

pub record ServiceNode : Type 0 where
  pub name : Bytes
  pub methods : List Bytes

pub record MessageBody : Type 0 where
  pub name : Bytes
  pub fields : List Bytes
  pub oneofs : List Bytes
  pub enums : List EnumNode
  pub extensions : List Bytes

mutual
  pub data MessageNode : Type 0 where
    message_node : MessageBody → MessageNodes → MessageNode

  pub data MessageNodes : Type 0 where
    no_messages : MessageNodes
    more_messages : MessageNode → MessageNodes → MessageNodes

pub record FileNode : Type 0 where
  pub package_name : Bytes
  pub messages : MessageNodes
  pub enums : List EnumNode
  pub extensions : List Bytes
  pub services : List ServiceNode

-- A descriptor that a search returns; an enum value and a method come with their parents.
pub data Symbol : Type 0 where
  message_symbol : MessageNode → Symbol
  enum_symbol : EnumNode → Symbol
  extension_symbol : Bytes → Symbol
  service_symbol : ServiceNode → Symbol
  enum_value_symbol : EnumNode → Bytes → Symbol
  method_symbol : ServiceNode → Bytes → Symbol
  field_symbol : Bytes → Symbol
  oneof_symbol : Bytes → Symbol

abbrev pub message_name : MessageNode → Bytes
message_name (message_node body nested) = body.name

-- ByName of the runtime's lists, as the symbol that the search returns
unfoldable pub by_name : {A : Type 0} → (A → Bytes) → (A → Symbol) → Bytes → List A → Option Symbol
by_name name_of symbol n [] = none
by_name name_of symbol n (x ∷ xs) =
    if bytes_eq (name_of x) n then some (symbol x) else by_name name_of symbol n xs

unfoldable pub service_by_name : Bytes → List ServiceNode → Option ServiceNode
service_by_name n [] = none
service_by_name n (s ∷ ss) = if bytes_eq s.name n then some s else service_by_name n ss

unfoldable pub message_by_name : Bytes → MessageNodes → Option MessageNode
message_by_name n no_messages = none
message_by_name n (more_messages m ms) =
    if bytes_eq (message_name m) n then some m else message_by_name n ms

-- if d := ...; d != nil { return d }
unfoldable pub or_else : Option Symbol → Option Symbol → Option Symbol
or_else (some d) next = some d
or_else none next = next

unfoldable pub as_message : Option MessageNode → Option Symbol
as_message none = none
as_message (some m) = some (message_symbol m)

-- The loop over the enums of a scope, whose values belong to the scope
unfoldable pub value_in_enums : Bytes → List EnumNode → Option Symbol
unfolding by_name or_else
value_in_enums n [] = none
value_in_enums n (e ∷ es) =
    or_else (by_name (λ v. v) (enum_value_symbol e) n e.values) (value_in_enums n es)

-- findSymbolInMessage; no caller passes an empty list
unfoldable pub find_symbol_in_message : List Bytes → MessageNode → Option Symbol
unfolding by_name message_by_name or_else as_message value_in_enums
find_symbol_in_message [] m = none
find_symbol_in_message (n ∷ []) (message_node md nested) =
    or_else (by_name (λ f. f) field_symbol n md.fields) (
      or_else (by_name (λ o. o) oneof_symbol n md.oneofs) (
        or_else (as_message (message_by_name n nested)) (
          or_else (by_name (λ (e : EnumNode). e.name) enum_symbol n md.enums) (
            or_else (by_name (λ x. x) extension_symbol n md.extensions)
              (value_in_enums n md.enums)))))
find_symbol_in_message (first ∷ second ∷ rest) (message_node md nested) =
    elim (message_by_name first nested) [
      | none ↦ none
      | some m ↦ find_symbol_in_message (second ∷ rest) m
    ]

unfoldable pub find_in_messages : Bytes → List Bytes → FileNode → Option Symbol
unfolding find_symbol_in_message message_by_name
find_in_messages first rest fd = elim (message_by_name first fd.messages) [
  | none ↦ none
  | some m ↦ find_symbol_in_message rest m
]

-- findSymbolInFile
unfoldable pub find_symbol_in_file : List Bytes → FileNode → Option Symbol
unfolding by_name service_by_name message_by_name or_else as_message value_in_enums find_in_messages
find_symbol_in_file [] fd = none
find_symbol_in_file (n ∷ []) fd = or_else (as_message (message_by_name n fd.messages)) (
    or_else (by_name (λ (e : EnumNode). e.name) enum_symbol n fd.enums) (
      or_else (by_name (λ x. x) extension_symbol n fd.extensions) (
        or_else (by_name (λ (s : ServiceNode). s.name) service_symbol n fd.services)
          (value_in_enums n fd.enums))))
find_symbol_in_file (first ∷ second ∷ []) fd = elim (service_by_name first fd.services) [
  | some svc ↦ by_name (λ m. m) (method_symbol svc) second svc.methods
  | none ↦ find_in_messages first (second ∷ []) fd
]
find_symbol_in_file (first ∷ second ∷ third ∷ rest) fd =
    find_in_messages first (second ∷ third ∷ rest) fd

-- strings.Split(s, "."): the first part and the others
unfoldable pub split_dots : Bytes → Bytes × List Bytes
split_dots [] = ([], [])
split_dots (c ∷ s) =
    let (first, rest) = split_dots s in if c == 46 then ([], first ∷ rest) else (c ∷ first, rest)

unfoldable pub trim_prefix : Bytes → Bytes → Bytes
unfolding has_prefix
trim_prefix s p = if has_prefix s p then drop (length p) s else s

unfoldable pub find_parts : FileNode → Bytes → Option Symbol
unfolding split_dots find_symbol_in_file
find_parts file s = let (first, rest) = split_dots s in find_symbol_in_file (first ∷ rest) file

-- FindDescriptorByNameInFile
unfoldable pub find_descriptor_by_name_in_file : FileNode → Bytes → Option Symbol
unfolding trim_prefix find_parts bytes_eq
find_descriptor_by_name_in_file file sym =
    let sym_no_pkg = trim_prefix sym (file.package_name ++ 46 ∷ []) in
    let in_package = if bytes_eq sym_no_pkg sym then none else find_parts file sym_no_pkg in
    elim file.package_name [ [] ↦ find_parts file sym | _ ∷ _ ↦ in_package ]
