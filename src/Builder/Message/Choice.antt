-- ===== src/Builder/Message/Choice.antt =====
-- OneofBuilder of protobuilder/field.go: adding, removing and renaming its choices; and the renames
-- of the elements of a message.
use protoreflect.Common.{
  ℕ, Bool, true, false, ◌&&◌, not, Option, none, some, [], ◌∷◌, ◌++◌, Bytes, ◌==◌, if◌then◌else◌,
  is_some,
}
use protoreflect.Builder.Enum.{write}
use protoreflect.Builder.Message.{
  Builder, field, oneof, message, FieldBuilder, Cardinality, unset, optional, required, repeated,
  type_group, Builders, BuilderError, symbol_taken, is_an_extension, map_in_oneof, not_optional,
  put_symbol, set_message, set_oneof, set_parent, is_child_of, is_extension, message_of_oneof,
}
use protoreflect.Builder.Message.Remove.{remove_from_oneof, unlink_builder}
use protoreflect.Builder.Message.Register.{register_field}
use protoreflect.Builder.Message.Add.{is_present_but_not_child, add_symbol_at}

-- IsRepeated() || IsRequired()
unfoldable pub repeated_or_required : Cardinality → Bool
repeated_or_required unset = false
repeated_or_required optional = false
repeated_or_required required = true
repeated_or_required repeated = true

-- The guards of TryAddChoice.
unfoldable pub check_choice : FieldBuilder → Option BuilderError
unfolding is_extension repeated_or_required
check_choice flb =
    if is_extension flb
    then some is_an_extension
    else if is_some flb.msg_type && not (flb.field_type.field_type == type_group)
    then some map_in_oneof
    else if repeated_or_required flb.cardinality
    then some not_optional
    else none

-- OneofBuilder.addSymbol; `none` is its error
unfoldable pub add_choice_symbol : Builders → ℕ → ℕ → Option Builders
unfolding put_symbol write
add_choice_symbol h o f =
    let oob = h.oneofs o in
    if is_some (oob.symbols (h.fields f).name)
    then none
    else some
        (set_oneof h o (record oob { symbols = put_symbol oob.symbols (h.fields f).name (some f) }))

-- delete(oob.symbols, name)
abbrev pub delete_choice_symbol : Builders → ℕ → Bytes → Builders
delete_choice_symbol h o name =
    set_oneof h o (record (h.oneofs o) { symbols = put_symbol (h.oneofs o).symbols name none })

-- setParent, and the field is appended to the choices.
unfoldable pub append_choice : Builders → ℕ → ℕ → Builders
unfolding set_parent write
append_choice h o f =
    let h1 = set_parent h (field f) (some (oneof o)) in
    set_oneof h1 o (record (h1.oneofs o) { choices = (h1.oneofs o).choices ++ f ∷ [] })

-- The registration of a choice in the message that the oneof is in. A oneof in no message leaves the
-- field where it was.
unfoldable pub register_choice : Builders → ℕ → ℕ → Option ℕ → Builders × Option BuilderError
unfolding is_present_but_not_child register_field unlink_builder put_symbol write
register_choice h o f none = (h, none)
register_choice h o f (some m) =
    let first = register_field (unlink_builder h (field f)) m f in
    let r = register_field h m f in
    let last : Builders × Option BuilderError = elim r.1 [
      | none ↦ (unlink_builder r.0 (field f), none)
      | some e ↦ (delete_choice_symbol r.0 o (h.fields f).name, some e)
    ] in
    if is_present_but_not_child h m (field f) then first else last

-- TryAddChoice
unfoldable pub try_add_choice : Builders → ℕ → ℕ → Builders × Option BuilderError
unfolding check_choice add_choice_symbol register_choice append_choice message_of_oneof
try_add_choice h o f = elim (check_choice (h.fields f)) [
  | some e ↦ (h, some e)
  | none ↦ elim (add_choice_symbol h o f) [
    | none ↦ (h, some symbol_taken)
    | some h1 ↦
        let r = register_choice h1 o f (message_of_oneof (h1.oneofs o)) in
        elim r.1 [ none ↦ (append_choice r.0 o f, none) | some e ↦ (r.0, some e) ]
  ]
]

-- TryRemoveChoice
unfoldable pub try_remove_choice : Builders → ℕ → Bytes → Builders × Bool
unfolding remove_from_oneof
try_remove_choice h o name = elim ((h.oneofs o).symbols name) [
  | none ↦ (h, false)
  | some f ↦ (remove_from_oneof h o f, true)
]

-- delete(mb.symbols, name)
abbrev pub delete_symbol_at : Builders → ℕ → Bytes → Builders
delete_symbol_at h m name =
    set_message h m
      (record (h.messages m) { symbols = put_symbol (h.messages m).symbols name none })

-- MessageBuilder.renamedChild
unfoldable pub renamed_in_message : Builders → ℕ → Builder → Bytes → Builders × Option BuilderError
unfolding is_child_of add_symbol_at put_symbol write
renamed_in_message h m b old_name =
    let r = add_symbol_at h m b in
    if is_child_of h (message m) b
    then elim r.1 [ none ↦ (delete_symbol_at r.0 m old_name, none) | some e ↦ (r.0, some e) ]
    else (h, none)

-- The part of OneofBuilder.renamedChild that concerns the message that the oneof is in.
unfoldable pub rename_choice_in :
    Builders → ℕ → ℕ → Bytes → Option ℕ → Builders × Option BuilderError
unfolding add_symbol_at put_symbol write
rename_choice_in h o f old_name none = (h, none)
rename_choice_in h o f old_name (some m) =
    let r = add_symbol_at h m (field f) in
    elim r.1 [
      | none ↦ (delete_symbol_at r.0 m old_name, none)
      | some e ↦ (delete_choice_symbol r.0 o (h.fields f).name, some e)
    ]

-- OneofBuilder.renamedChild
unfoldable pub renamed_in_oneof : Builders → ℕ → ℕ → Bytes → Builders × Option BuilderError
unfolding is_child_of add_choice_symbol rename_choice_in put_symbol write message_of_oneof
renamed_in_oneof h o f old_name =
    let renamed : Builders × Option BuilderError = elim (add_choice_symbol h o f) [
      | none ↦ (h, some symbol_taken)
      | some h1 ↦
          let r = rename_choice_in h1 o f old_name (message_of_oneof (h1.oneofs o)) in
          elim r.1 [ none ↦ (delete_choice_symbol r.0 o old_name, none) | some e ↦ (r.0, some e) ]
    ] in
    if is_child_of h (oneof o) (field f) then renamed else (h, none)
