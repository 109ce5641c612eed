-- ===== src/Resolve/Symbols/Declares.antt =====
-- What the elements of a file are: the names that lead to each, from the file or a message down.
use protoreflect.Common.{◌≡◌, ◌⊎◌, List, [], ◌∷◌, ◌++◌, Bytes}
use protoreflect.Resolve.Symbols.{
  EnumNode, ServiceNode, MessageBody, MessageNode, message_node, MessageNodes, no_messages,
  more_messages, message_name, FileNode, Symbol, message_symbol, enum_symbol, extension_symbol,
  service_symbol, enum_value_symbol, method_symbol, field_symbol, oneof_symbol,
}

abbrev pub Among : {A : Type 0} → A → List A → Type 0
Among a [] = ⊥
Among a (x ∷ xs) = (x ≡ a) ⊎ Among a xs

abbrev pub AmongMessages : MessageNode → MessageNodes → Type 0
AmongMessages m no_messages = ⊥
AmongMessages m (more_messages x xs) = (x ≡ m) ⊎ AmongMessages m xs

-- The names lead from the message down to the symbol.
pub data Declares : MessageNode → List Bytes → Symbol → Type 0 where
  a_field :
      {body : MessageBody} {nested : MessageNodes} {n : Bytes}
      → Among n body.fields
      → Declares (message_node body nested) (n ∷ []) (field_symbol n)
  a_oneof :
      {body : MessageBody} {nested : MessageNodes} {n : Bytes}
      → Among n body.oneofs
      → Declares (message_node body nested) (n ∷ []) (oneof_symbol n)
  an_extension :
      {body : MessageBody} {nested : MessageNodes} {n : Bytes}
      → Among n body.extensions
      → Declares (message_node body nested) (n ∷ []) (extension_symbol n)
  an_enum :
      {body : MessageBody} {nested : MessageNodes} {n : Bytes} {e : EnumNode}
      → Among e body.enums
      → e.name ≡ n
      → Declares (message_node body nested) (n ∷ []) (enum_symbol e)
  an_enum_value :
      {body : MessageBody} {nested : MessageNodes} {n : Bytes} {e : EnumNode}
      → Among e body.enums
      → Among n e.values
      → Declares (message_node body nested) (n ∷ []) (enum_value_symbol e n)
  a_message :
      {body : MessageBody} {nested : MessageNodes} {n : Bytes} {m : MessageNode}
      → AmongMessages m nested
      → message_name m ≡ n
      → Declares (message_node body nested) (n ∷ []) (message_symbol m)
  inside :
      {body : MessageBody} {nested : MessageNodes} {n : Bytes} {m : MessageNode}
      {parts : List Bytes} {d : Symbol}
      → AmongMessages m nested
      → message_name m ≡ n
      → Declares m parts d
      → Declares (message_node body nested) (n ∷ parts) d

-- The names lead from the file down to the symbol.
pub data FileDeclares (f : FileNode) : List Bytes → Symbol → Type 0 where
  top_message :
      {n : Bytes} {m : MessageNode}
      → AmongMessages m f.messages
      → message_name m ≡ n
      → FileDeclares f (n ∷ []) (message_symbol m)
  top_enum :
      {n : Bytes} {e : EnumNode}
      → Among e f.enums
      → e.name ≡ n
      → FileDeclares f (n ∷ []) (enum_symbol e)
  top_extension : {n : Bytes} → Among n f.extensions → FileDeclares f (n ∷ []) (extension_symbol n)
  top_service :
      {n : Bytes} {s : ServiceNode}
      → Among s f.services
      → s.name ≡ n
      → FileDeclares f (n ∷ []) (service_symbol s)
  top_enum_value :
      {n : Bytes} {e : EnumNode}
      → Among e f.enums
      → Among n e.values
      → FileDeclares f (n ∷ []) (enum_value_symbol e n)
  a_method :
      {n k : Bytes} {s : ServiceNode}
      → Among s f.services
      → s.name ≡ n
      → Among k s.methods
      → FileDeclares f (n ∷ k ∷ []) (method_symbol s k)
  in_message :
      {n : Bytes} {m : MessageNode} {parts : List Bytes} {d : Symbol}
      → AmongMessages m f.messages
      → message_name m ≡ n
      → Declares m parts d
      → FileDeclares f (n ∷ parts) d

-- The names with a dot between each two
abbrev pub join_dots : Bytes → List Bytes → Bytes
join_dots first [] = first
join_dots first (second ∷ rest) = first ++ 46 ∷ join_dots second rest

-- A symbol's name in its package
abbrev pub qualified : Bytes → Bytes → Bytes
qualified [] name = name
qualified (c ∷ package_name) name = (c ∷ package_name) ++ 46 ∷ name
