-- ===== src/Builder/Message/Remove.antt =====
-- removeChild of protobuilder/message.go and field.go, and Unlink of builder.go.
use protoreflect.Common.{ℕ, Option, none, some, List, [], ◌∷◌, Bytes, ◌==◌, if◌then◌else◌, bytes_eq}
use protoreflect.Builder.Enum.{write}
use protoreflect.Builder.Message.{
  Builder, field, oneof, message, enum, MessageBuilder, FieldBuilder, Builders, put_symbol, put_tag,
  set_message, set_field, set_oneof, name_of, parent_of, set_parent, is_child_of, is_extension,
  message_of_oneof,
}

-- deleteBuilder: the first of that name goes
unfoldable pub delete_named : {A : Type 0} → (A → Bytes) → Bytes → List A → List A
delete_named name_of_it name [] = []
delete_named name_of_it name (b ∷ bs) =
    if bytes_eq (name_of_it b) name then bs else b ∷ delete_named name_of_it name bs

-- if flb.msgType != nil { delete(mb.symbols, flb.msgType.Name()) }
unfoldable pub forget_msg_type :
    Builders → FieldBuilder → (Bytes → Option Builder) → Bytes → Option Builder
unfolding put_symbol
forget_msg_type h flb symbols = elim flb.msg_type [
  | none ↦ symbols
  | some t ↦ put_symbol symbols (h.messages t).name none
]

-- The loop over the choices of a oneof that leaves: their names and their tags go.
unfoldable pub forget_choices : Builders → List ℕ → MessageBuilder → MessageBuilder
unfolding put_symbol put_tag
forget_choices h [] mb = mb
forget_choices h (f ∷ fs) mb = forget_choices h fs (record mb {
  symbols = put_symbol mb.symbols (h.fields f).name none;
  field_tags = put_tag mb.field_tags (h.fields f).number none;
})

-- The switch of MessageBuilder.removeChild: what it takes out of the message besides the name.
unfoldable pub forget_child : Builders → MessageBuilder → Builder → MessageBuilder
unfolding delete_named forget_msg_type forget_choices put_tag is_extension
forget_child h mb (field f) =
    let flb = h.fields f in
    if is_extension flb
    then record mb {
      nested_extensions = delete_named (λ g. (h.fields g).name) flb.name mb.nested_extensions;
    }
    else record mb {
      fields_and_oneofs = delete_named (name_of h) flb.name mb.fields_and_oneofs;
      field_tags = put_tag mb.field_tags flb.number none;
      symbols = forget_msg_type h flb mb.symbols;
    }
forget_child h mb (oneof o) =
    let oob = h.oneofs o in
    forget_choices h oob.choices
      (record mb { fields_and_oneofs = delete_named (name_of h) oob.name mb.fields_and_oneofs })
forget_child h mb (message n) = record mb {
  nested_messages = delete_named (λ k. (h.messages k).name) (h.messages n).name mb.nested_messages;
}
forget_child h mb (enum e) = record mb {
  nested_enums = delete_named (λ k. (h.enums k).name) (h.enums e).name mb.nested_enums;
}

-- MessageBuilder.removeChild
unfoldable pub remove_from_message : Builders → ℕ → Builder → Builders
unfolding is_child_of forget_child set_parent put_symbol write
remove_from_message h m b =
    let mb = forget_child h (h.messages m) b in
    if is_child_of h (message m) b
    then set_parent
        (set_message h m (record mb { symbols = put_symbol mb.symbols (name_of h b) none })) b none
    else h

-- What OneofBuilder.removeChild takes out of the message that the oneof is in.
unfoldable pub forget_choice : Builders → ℕ → Option ℕ → Builders
unfolding forget_msg_type put_symbol put_tag write
forget_choice h f none = h
forget_choice h f (some m) =
    let mb = h.messages m in
    let flb = h.fields f in
    set_message h m (record mb {
      field_tags = put_tag mb.field_tags flb.number none;
      symbols = forget_msg_type h flb (put_symbol mb.symbols flb.name none);
    })

-- OneofBuilder.removeChild, on a field
unfoldable pub remove_from_oneof : Builders → ℕ → ℕ → Builders
unfolding is_child_of forget_choice delete_named put_symbol set_parent write
remove_from_oneof h o f =
    let oob = h.oneofs o in
    let flb = h.fields f in
    if is_child_of h (oneof o) (field f)
    then set_parent
        (set_oneof (forget_choice h f (message_of_oneof oob)) o (record oob {
          choices = delete_named (λ g. (h.fields g).name) flb.name oob.choices;
          symbols = put_symbol oob.symbols flb.name none;
        }))
        (field f) none
    else h

-- delete(p.symbols, mb.Name()), if the field's parent is a message
unfoldable pub forget_in_parent : Builders → Option Builder → Bytes → Builders
unfolding put_symbol write
forget_in_parent h (some (message p)) name =
    set_message h p
      (record (h.messages p) { symbols = put_symbol (h.messages p).symbols name none })
forget_in_parent h o name = h

-- FieldBuilder.removeChild, on a message; the message keeps its parent
unfoldable pub remove_from_field : Builders → ℕ → ℕ → Builders
unfolding forget_in_parent write
remove_from_field h f n =
    let flb = h.fields f in
    let removed =
      forget_in_parent (set_field h f (record flb { msg_type = none })) flb.parent
        (h.messages n).name in
    elim flb.msg_type [ none ↦ h | some t ↦ if n == t then removed else h ]

-- p.removeChild(b)
unfoldable pub remove_child_of : Builders → Builder → Builder → Builders
unfolding remove_from_message remove_from_oneof remove_from_field
remove_child_of h (message m) b = remove_from_message h m b
remove_child_of h (oneof o) (field f) = remove_from_oneof h o f
remove_child_of h (field f) (message n) = remove_from_field h f n
remove_child_of h p b = h

-- Unlink
unfoldable pub unlink_builder : Builders → Builder → Builders
unfolding parent_of remove_child_of
unlink_builder h b = elim (parent_of h b) [ none ↦ h | some p ↦ remove_child_of h p b ]
