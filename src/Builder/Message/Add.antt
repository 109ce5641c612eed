-- ===== src/Builder/Message/Add.antt =====
-- The operations of protobuilder/message.go and field.go that add and remove elements.
use protoreflect.Common.{
  ℕ, zero, suc, Bool, true, false, Option, none, some, List, [], ◌∷◌, ◌++◌, Bytes, if◌then◌else◌,
  get_elem?,
}
use protoreflect.Builder.Enum.{write}
use protoreflect.Builder.Message.{
  Builder, field, oneof, message, enum, Builders, BuilderError, symbol_taken, is_an_extension,
  not_an_extension, put_symbol, put_tag, set_message, same_builder, name_of, set_parent,
  is_child_of, is_extension,
}
use protoreflect.Builder.Message.Remove.{remove_child_of, unlink_builder}
use protoreflect.Builder.Message.Register.{add_symbol_to, delete_symbol, delete_tag, register_field}

-- isPresentButNotChild
unfoldable pub is_present_but_not_child : Builders → ℕ → Builder → Bool
unfolding is_child_of name_of same_builder
is_present_but_not_child h m b =
    if is_child_of h (message m) b
    then false
    else elim ((h.messages m).symbols (name_of h b)) [ none ↦ false | some c ↦ same_builder c b ]

-- setParent, and the element is appended to the fields and oneofs.
unfoldable pub append_element : Builders → ℕ → Builder → Builders
unfolding set_parent write
append_element h m b =
    let h1 = set_parent h b (some (message m)) in
    set_message h1 m
      (record (h1.messages m) { fields_and_oneofs = (h1.messages m).fields_and_oneofs ++ b ∷ [] })

-- The registration of a field, and then something else if it is not refused.
unfoldable pub and_then :
    Builders × Option BuilderError → (Builders → Builders) → Builders × Option BuilderError
and_then r next = elim r.1 [ none ↦ (next r.0, none) | some e ↦ (r.0, some e) ]

-- TryAddField
unfoldable pub try_add_field : Builders → ℕ → ℕ → Builders × Option BuilderError
unfolding is_extension is_present_but_not_child and_then register_field append_element
    unlink_builder
try_add_field h m f =
    if is_extension (h.fields f)
    then (h, some is_an_extension)
    else if is_present_but_not_child h m (field f)
    then and_then (register_field (unlink_builder h (field f)) m f)
        (λ h1. append_element h1 m (field f))
    else and_then (register_field h m f)
        (λ h1. append_element (unlink_builder h1 (field f)) m (field f))

-- GetField
unfoldable pub get_field : Builders → ℕ → Bytes → Option ℕ
unfolding is_extension
get_field h m name = elim ((h.messages m).symbols name) [
  | none ↦ none
  | some b ↦ elim b [
    | field f ↦ if is_extension (h.fields f) then none else some f
    | oneof _ ↦ none
    | message _ ↦ none
    | enum _ ↦ none
  ]
]

-- TryRemoveField; `none` is the panic on a field with no parent
unfoldable pub try_remove_field : Builders → ℕ → Bytes → Option (Builders × Bool)
unfolding get_field remove_child_of
try_remove_field h m name = elim (get_field h m name) [
  | none ↦ some (h, false)
  | some f ↦ elim (h.fields f).parent [
    | none ↦ none
    | some p ↦ some (remove_child_of h p (field f), true)
  ]
]

-- The loop of TryAddOneOf over the choices: the heap behind it, how many were registered, and the
-- error of the one that was refused.
unfoldable pub register_choices : Builders → ℕ → List ℕ → ℕ → Builders × ℕ × Option BuilderError
unfolding register_field
register_choices h m [] i = (h, i, none)
register_choices h m (f ∷ fs) i =
    let r = register_field h m f in
    let rest = register_choices r.0 m fs (suc i) in
    elim r.1 [ none ↦ rest | some e ↦ (r.0, i, some e) ]

-- delete(mb.symbols, flb.Name()), delete(mb.fieldTags, flb.Number())
unfoldable pub undo_choice : Builders → ℕ → Option ℕ → Builders
unfolding put_symbol put_tag write
undo_choice h m none = h
undo_choice h m (some f) =
    set_message h m
      (delete_tag (delete_symbol (h.messages m) (h.fields f).name) (h.fields f).number)

-- The undo loop of TryAddOneOf: for i > 1 { i--; ... }
unfoldable pub undo_choices : Builders → ℕ → List ℕ → ℕ → Builders
unfolding undo_choice
undo_choices h m choices zero = h
undo_choices h m choices (suc zero) = h
undo_choices h m choices (suc (suc i)) =
    undo_choices (undo_choice h m (get_elem? choices (suc i))) m choices (suc i)

-- The rest of TryAddOneOf, behind the loop.
unfoldable pub finish_one_of :
    ℕ → ℕ → Builders × ℕ × Option BuilderError → Builders × Option BuilderError
unfolding undo_choices append_element unlink_builder put_symbol write
finish_one_of m o r =
    let h = r.0 in
    elim r.2 [
      | none ↦ (append_element (unlink_builder h (oneof o)) m (oneof o), none)
      | some e ↦ (
        undo_choices (set_message h m (delete_symbol (h.messages m) (h.oneofs o).name)) m
            (h.oneofs o).choices r.1,
        some e,
      )
    ]

-- TryAddOneOf
unfoldable pub try_add_one_of : Builders → ℕ → ℕ → Builders × Option BuilderError
unfolding add_symbol_to register_choices finish_one_of write
try_add_one_of h m o = elim (add_symbol_to (h.messages m) (h.oneofs o).name (oneof o)) [
  | none ↦ (h, some symbol_taken)
  | some mb ↦ finish_one_of m o (register_choices (set_message h m mb) m (h.oneofs o).choices 0)
]

-- addSymbol on the message at a pointer
unfoldable pub add_symbol_at : Builders → ℕ → Builder → Builders × Option BuilderError
unfolding add_symbol_to name_of write
add_symbol_at h m b = elim (add_symbol_to (h.messages m) (name_of h b) b) [
  | none ↦ (h, some symbol_taken)
  | some mb ↦ (set_message h m mb, none)
]

-- The ends of TryAddNestedMessage, TryAddNestedExtension and TryAddNestedEnum.
unfoldable pub append_message : Builders → ℕ → ℕ → Builders
unfolding set_parent write
append_message h m n =
    let h1 = set_parent h (message n) (some (message m)) in
    set_message h1 m
      (record (h1.messages m) { nested_messages = (h1.messages m).nested_messages ++ n ∷ [] })

unfoldable pub append_extension : Builders → ℕ → ℕ → Builders
unfolding set_parent write
append_extension h m f =
    let h1 = set_parent h (field f) (some (message m)) in
    set_message h1 m
      (record (h1.messages m) { nested_extensions = (h1.messages m).nested_extensions ++ f ∷ [] })

unfoldable pub append_enum : Builders → ℕ → ℕ → Builders
unfolding set_parent write
append_enum h m e =
    let h1 = set_parent h (enum e) (some (message m)) in
    set_message h1 m
      (record (h1.messages m) { nested_enums = (h1.messages m).nested_enums ++ e ∷ [] })

-- TryAddNestedMessage
unfoldable pub try_add_nested_message : Builders → ℕ → ℕ → Builders × Option BuilderError
unfolding is_present_but_not_child add_symbol_at and_then append_message unlink_builder
try_add_nested_message h m n =
    if is_present_but_not_child h m (message n)
    then (append_message (add_symbol_at (unlink_builder h (message n)) m (message n)).0 m n, none)
    else and_then (add_symbol_at h m (message n))
        (λ h1. append_message (unlink_builder h1 (message n)) m n)

-- TryAddNestedExtension
unfoldable pub try_add_nested_extension : Builders → ℕ → ℕ → Builders × Option BuilderError
unfolding is_extension add_symbol_at and_then append_extension unlink_builder
try_add_nested_extension h m f =
    if is_extension (h.fields f)
    then and_then (add_symbol_at h m (field f))
        (λ h1. append_extension (unlink_builder h1 (field f)) m f)
    else (h, some not_an_extension)

-- TryAddNestedEnum
unfoldable pub try_add_nested_enum : Builders → ℕ → ℕ → Builders × Option BuilderError
unfolding add_symbol_at and_then append_enum unlink_builder
try_add_nested_enum h m e =
    and_then (add_symbol_at h m (enum e)) (λ h1. append_enum (unlink_builder h1 (enum e)) m e)
