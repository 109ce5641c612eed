-- ===== src/Builder/Message/Make.antt =====
-- The constructors of protobuilder/message.go and field.go, and the setters of messages and fields.
use protoreflect.Common.{
  ℕ, Bool, true, false, ◌&&◌, ◌||◌, not, Option, none, some, List, [], ◌∷◌, ◌++◌, Bytes, codes,
  ◌==◌, if◌then◌else◌, is_some,
}
use protoreflect.Common.Int.{ℤ, pos}
use protoreflect.Builder.Enum.{no_comments, write}
use protoreflect.Builder.Message.{
  field, message, unset, optional, required, repeated, Cardinality, FieldType, FieldBuilder,
  OneofBuilder, FieldRange, ExtensionRange, MessageBuilder, Builders, type_group, set_message,
  set_field, set_parent,
}
use protoreflect.Builder.Message.Remove.{unlink_builder}
use protoreflect.Builder.Message.Add.{try_add_field}
use protoreflect.Builder.Message.Number.{check_number}
use protoreflect.Builder.Message.Rename.{is_upper, to_lower, is_group}

-- NewMessage, NewOneof, NewField: `valid` is protoreflect's Name.IsValid; a bad name is a panic
unfoldable pub new_message : (Bytes → Bool) → Bytes → Option MessageBuilder
new_message valid name =
    if valid name
    then some (record {
      name = name;
      parent = none;
      comments = no_comments;
      options = none;
      extension_ranges = [];
      reserved_ranges = [];
      reserved_names = [];
      fields_and_oneofs = [];
      field_tags = λ _. none;
      nested_messages = [];
      nested_extensions = [];
      nested_enums = [];
      symbols = λ _. none;
    })
    else none

unfoldable pub new_oneof : (Bytes → Bool) → Bytes → Option OneofBuilder
new_oneof valid name =
    if valid name
    then some (record {
      name = name;
      parent = none;
      comments = no_comments;
      options = none;
      choices = [];
      symbols = λ _. none;
    })
    else none

unfoldable pub new_field : (Bytes → Bool) → Bytes → FieldType → Option FieldBuilder
new_field valid name typ =
    if valid name
    then some (record {
      name = name;
      parent = none;
      comments = no_comments;
      number = pos 0;
      msg_type = none;
      field_type = typ;
      options = none;
      cardinality = unset;
      proto3_optional = false;
      default = [];
      json_name = [];
      foreign_extendee = none;
      local_extendee = none;
    })
    else none

-- NewExtension: the number is set before the extendee
unfoldable pub new_extension : (Bytes → Bool) → Bytes → ℤ → FieldType → ℕ → Option FieldBuilder
unfolding check_number new_field
new_extension valid name tag typ extendee = elim (new_field valid name typ) [
  | none ↦ none
  | some flb ↦ elim (check_number false tag) [
    | some _ ↦ none
    | none ↦ some (record flb { number = tag; local_extendee = some extendee })
  ]
]

-- NewGroupField, for the message at `n` with a field put at `f`; `none` is a panic
unfoldable pub new_group_field : (Bytes → Bool) → Builders → ℕ → ℕ → Option Builders
unfolding is_upper to_lower new_field unlink_builder set_parent write
new_group_field valid h f n =
    let name = (h.messages n).name in
    let typ : FieldType = record { field_type = type_group; local_msg_type = some n } in
    let h1 = unlink_builder h (message n) in
    let starts_upper : Bool = elim name [ [] ↦ false | c ∷ _ ↦ is_upper c ] in
    elim (new_field valid (to_lower name) typ) [
      | none ↦ none
      | some flb ↦
          if starts_upper
          then some (
              set_parent (set_field h1 f (record flb { msg_type = some n })) (message n)
                (some (field f)))
          else none
    ]

-- The key types that NewMapField takes, by the numbers of the descriptor types.
unfoldable pub is_map_key : ℕ → Bool
is_map_key t =
    t == 8
    || t == 9
    || t == 5
    || t == 3
    || t == 17
    || t == 18
    || t == 13
    || t == 4
    || t == 7
    || t == 6
    || t == 15
    || t == 16

-- NewMapField, with its key and value fields put at `k` and `v`, its entry message at `n` and itself
-- at `f`: `entry_name` is entryTypeName; `none` is a panic
unfoldable pub new_map_field :
    (Bytes → Bool)
    → (Bytes → Bytes)
    → Builders
    → Bytes
    → FieldType
    → FieldType
    → ℕ
    → ℕ
    → ℕ
    → ℕ
    → Option Builders
unfolding is_map_key new_message new_field try_add_field set_parent write
new_map_field valid entry_name h name key value k v n f =
    elim (new_message valid (entry_name name)) [
      | none ↦ none
      | some entry ↦ elim (new_field valid (codes "key") key) [
        | none ↦ none
        | some key_flb ↦ elim (new_field valid (codes "value") value) [
          | none ↦ none
          | some val_flb ↦
              elim (new_field valid name (record { field_type = 11; local_msg_type = some n })) [
                | none ↦ none
                | some flb ↦
                    let h1 =
                      set_field
                        (set_field (set_message h n entry) k (record key_flb { number = pos 1 })) v
                        (record val_flb { number = pos 2 }) in
                    let with_key = try_add_field h1 n k in
                    let with_value = try_add_field with_key.0 n v in
                    let h2 = with_value.0 in
                    let h3 = set_message h2 n (record (h2.messages n) {
                      options = some (record { map_entry = true; message_set_wire_format = false });
                    }) in
                    let h4 =
                      set_field h3 f (record flb { msg_type = some n; cardinality = repeated }) in
                    if is_map_key key.field_type
                      && not (value.field_type == type_group)
                      && not (is_some with_key.1 || is_some with_value.1)
                    then some (set_parent h4 (message n) (some (field f)))
                    else none
              ]
        ]
      ]
    ]

-- IsRepeated, and IsMap
unfoldable pub is_repeated : Cardinality → Bool
is_repeated repeated = true
is_repeated unset = false
is_repeated optional = false
is_repeated required = false

unfoldable pub is_map : Builders → ℕ → Bool
unfolding is_repeated
is_map h f =
    let flb = h.fields f in
    let entry : Bool = elim flb.msg_type [
      | none ↦ false
      | some t ↦ elim (h.messages t).options [ none ↦ false | some o ↦ o.map_entry ]
    ] in
    is_repeated flb.cardinality && not (is_group flb) && entry

-- SetType: the message of a group or map entry that is not the new type's is unlinked
unfoldable pub set_type : Builders → ℕ → FieldType → Builders
unfolding unlink_builder write
set_type h f ft =
    let h1 = set_field h f (record (h.fields f) { field_type = ft }) in
    elim (h.fields f).msg_type [
      | none ↦ h1
      | some t ↦
          let same : Bool = elim ft.local_msg_type [ none ↦ false | some u ↦ t == u ] in
          if same then h1 else unlink_builder h1 (message t)
    ]

-- AddExtensionRangeWithOptions, SetExtensionRanges, AddReservedRange, SetReservedRanges,
-- AddReservedName, SetReservedNames
unfoldable pub add_extension_range_with_options : Builders → ℕ → ℤ → ℤ → Option Bytes → Builders
unfolding write
add_extension_range_with_options h m start end options =
    let mb = h.messages m in
    let er : ExtensionRange = record { field_range = (start, end); options = options } in
    set_message h m (record mb { extension_ranges = mb.extension_ranges ++ er ∷ [] })

unfoldable pub set_extension_ranges : Builders → ℕ → List ExtensionRange → Builders
unfolding write
set_extension_ranges h m ranges =
    set_message h m (record (h.messages m) { extension_ranges = ranges })

unfoldable pub add_message_reserved_range : Builders → ℕ → ℤ → ℤ → Builders
unfolding write
add_message_reserved_range h m start end =
    let mb = h.messages m in
    set_message h m (record mb { reserved_ranges = mb.reserved_ranges ++ (start, end) ∷ [] })

unfoldable pub set_message_reserved_ranges : Builders → ℕ → List FieldRange → Builders
unfolding write
set_message_reserved_ranges h m ranges =
    set_message h m (record (h.messages m) { reserved_ranges = ranges })

unfoldable pub add_message_reserved_name : Builders → ℕ → Bytes → Builders
unfolding write
add_message_reserved_name h m name =
    let mb = h.messages m in
    set_message h m (record mb { reserved_names = mb.reserved_names ++ name ∷ [] })

unfoldable pub set_message_reserved_names : Builders → ℕ → List Bytes → Builders
unfolding write
set_message_reserved_names h m names =
    set_message h m (record (h.messages m) { reserved_names = names })
