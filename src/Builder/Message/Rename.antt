-- ===== src/Builder/Message/Rename.antt =====
-- TrySetName on the elements of a message (protobuilder/builder.go, message.go and field.go), and how
-- the names of a field and of its group or map entry message follow each other.
use protoreflect.Common.{
  ℕ, ◌+◌, Bool, ◌&&◌, not, Option, none, some, [], ◌∷◌, map, Bytes, ◌==◌, leb, if◌then◌else◌,
  bytes_eq, is_some,
}
use protoreflect.Builder.Enum.{write}
use protoreflect.Builder.Message.{
  Builder, field, oneof, message, enum, FieldBuilder, type_group, Builders, BuilderError,
  not_an_identifier, lower_case_group, name_of_map_entry, name_of_group, panics, set_message,
  set_field, set_oneof, name_of, parent_of,
}
use protoreflect.Builder.Message.Add.{add_symbol_at}
use protoreflect.Builder.Message.Choice.{renamed_in_message, renamed_in_oneof}

-- b.name = name
unfoldable pub put_name : Builders → Builder → Bytes → Builders
unfolding write
put_name h (field f) name = set_field h f (record (h.fields f) { name = name })
put_name h (oneof o) name = set_oneof h o (record (h.oneofs o) { name = name })
put_name h (message m) name = set_message h m (record (h.messages m) { name = name })
put_name h (enum e) name = record h { enums = write h.enums e (record (h.enums e) { name = name }) }

-- unicode.IsUpper and strings.ToLower, on the letters that a name can have
unfoldable pub is_upper : ℕ → Bool
is_upper c = leb 65 c && leb c 90

unfoldable pub to_lower : Bytes → Bytes
unfolding is_upper
to_lower name = map (λ c. if is_upper c then c + 32 else c) name

-- The end of baseBuilder.setName: the name is put back if the parent refuses it.
unfoldable pub settle_name :
    Builder → Bytes → Builders × Option BuilderError → Builders × Option BuilderError
unfolding put_name
settle_name b old_name r = elim r.1 [ none ↦ r | some e ↦ (put_name r.0 b old_name, some e) ]

-- baseBuilder.setName: `valid` is protoreflect's Name.IsValid, and `renamed` is the parent's
-- renamedChild
unfoldable pub set_name_with :
    (Builders → Builder → Bytes → Builders × Option BuilderError)
    → (Bytes → Bool)
    → Builders
    → Builder
    → Bytes
    → Builders × Option BuilderError
unfolding settle_name name_of parent_of put_name
set_name_with renamed valid h b new_name =
    let old_name = name_of h b in
    let h1 = put_name h b new_name in
    if bytes_eq new_name old_name
    then (h, none)
    else if not (valid new_name)
    then (h, some not_an_identifier)
    else elim (parent_of h1 b) [
      | none ↦ (h1, none)
      | some p ↦ settle_name b old_name (renamed h1 p old_name)
    ]

-- renamedChild of a field's parent
unfoldable pub renamed_field : ℕ → Builders → Builder → Bytes → Builders × Option BuilderError
unfolding renamed_in_message renamed_in_oneof
renamed_field f h (message m) old_name = renamed_in_message h m (field f) old_name
renamed_field f h (oneof o) old_name = renamed_in_oneof h o f old_name
renamed_field f h (field _) old_name = (h, none)
renamed_field f h (enum _) old_name = (h, none)

-- FieldBuilder.trySetNameInternal
unfoldable pub set_field_name :
    (Bytes → Bool) → Builders → ℕ → Bytes → Builders × Option BuilderError
unfolding set_name_with renamed_field
set_field_name valid h f new_name = set_name_with (renamed_field f) valid h (field f) new_name

abbrev pub is_group : FieldBuilder → Bool
is_group flb = flb.field_type.field_type == type_group

-- FieldBuilder.setNameInternal, and then the error that made it necessary.
unfoldable pub undo_field_name :
    (Bytes → Bool) → ℕ → Bytes → BuilderError → Builders → Builders × Option BuilderError
unfolding set_field_name
undo_field_name valid f old_field_name e h =
    let r = set_field_name valid h f old_field_name in
    elim r.1 [ none ↦ (r.0, some e) | some _ ↦ (r.0, some panics) ]

-- The end of FieldBuilder.renamedChild: the message's new name goes to the message that holds the
-- field.
unfoldable pub register_entry_name :
    (Bytes → Bool) → Builders → ℕ → ℕ → Bytes → Option Builder → Builders × Option BuilderError
unfolding add_symbol_at undo_field_name
register_entry_name valid h f n old_field_name (some (message p)) =
    let r = add_symbol_at h p (message n) in
    elim r.1 [
      | none ↦ r
      | some e ↦
          if is_group (h.fields f)
          then undo_field_name valid f old_field_name e r.0
          else (r.0, some e)
    ]
register_entry_name valid h f n old_field_name o = (h, none)

-- The group part of FieldBuilder.renamedChild: the field takes the group's name in lower case.
unfoldable pub rename_group_field :
    (Bytes → Bool) → Builders → ℕ → Bytes → Builders × Option BuilderError
unfolding set_field_name is_upper to_lower
rename_group_field valid h f [] = (h, some panics)
rename_group_field valid h f (c ∷ cs) =
    if is_upper c then set_field_name valid h f (to_lower (c ∷ cs)) else (h, some lower_case_group)

-- FieldBuilder.renamedChild, on the field's message
unfoldable pub renamed_in_field : (Bytes → Bool) → Builders → ℕ → ℕ → Builders × Option BuilderError
unfolding rename_group_field register_entry_name
renamed_in_field valid h f n =
    let flb = h.fields f in
    let first : Builders × Option BuilderError =
      if is_group flb then rename_group_field valid h f (h.messages n).name else (h, none) in
    let renamed : Builders × Option BuilderError = elim first.1 [
      | none ↦ register_entry_name valid first.0 f n flb.name (first.0.fields f).parent
      | some e ↦ first
    ] in
    if is_some flb.msg_type then renamed else (h, none)

-- renamedChild of the parent of a message, a oneof or an enum
unfoldable pub renamed_element :
    (Bytes → Bool) → Builder → Builders → Builder → Bytes → Builders × Option BuilderError
unfolding renamed_in_message renamed_in_field
renamed_element valid b h (message m) old_name = renamed_in_message h m b old_name
renamed_element valid (message n) h (field f) old_name = renamed_in_field valid h f n
renamed_element valid b h p old_name = (h, none)

-- baseBuilder.setName on a message, a oneof or an enum
unfoldable pub set_element_name :
    (Bytes → Bool) → Builders → Builder → Bytes → Builders × Option BuilderError
unfolding set_name_with renamed_element
set_element_name valid h b new_name = set_name_with (renamed_element valid b) valid h b new_name

-- FieldBuilder.TrySetName, for a field with the given message: `entry_name` is entryTypeName, the
-- name of a map's entries
unfoldable pub set_both_names :
    (Bytes → Bool)
    → (Bytes → Bytes)
    → Builders
    → ℕ
    → Bytes
    → Option ℕ
    → Builders × Option BuilderError
unfolding set_field_name set_element_name
set_both_names valid entry_name h f new_name none = set_field_name valid h f new_name
set_both_names valid entry_name h f new_name (some t) =
    let first = set_element_name valid h (message t) (entry_name new_name) in
    let second = set_field_name valid first.0 f new_name in
    let undone = set_element_name valid second.0 (message t) (h.messages t).name in
    let rest : Builders × Option BuilderError = elim second.1 [
      | none ↦ second
      | some e ↦ elim undone.1 [ none ↦ (undone.0, some e) | some _ ↦ (undone.0, some panics) ]
    ] in
    if is_group (h.fields f)
    then (h, some name_of_group)
    else elim first.1 [ none ↦ rest | some e ↦ first ]

-- FieldBuilder.TrySetName
unfoldable pub try_set_field_name :
    (Bytes → Bool) → (Bytes → Bytes) → Builders → ℕ → Bytes → Builders × Option BuilderError
unfolding set_both_names
try_set_field_name valid entry_name h f new_name =
    set_both_names valid entry_name h f new_name (h.fields f).msg_type

-- MessageBuilder.TrySetName
unfoldable pub try_set_message_name :
    (Bytes → Bool) → Builders → ℕ → Bytes → Builders × Option BuilderError
unfolding set_element_name
try_set_message_name valid h m new_name =
    let set = set_element_name valid h (message m) new_name in
    elim (h.messages m).parent [
      | none ↦ set
      | some p ↦ elim p [
        | field f ↦ if is_group (h.fields f) then set else (h, some name_of_map_entry)
        | message _ ↦ set
        | oneof _ ↦ set
        | enum _ ↦ set
      ]
    ]
