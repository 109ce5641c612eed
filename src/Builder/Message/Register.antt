-- ===== src/Builder/Message/Register.antt =====
-- addSymbol, addTag and registerField of protobuilder/message.go: all of a field is registered, or
-- nothing of it.
use protoreflect.Common.{ℕ, Option, none, some, Bytes, if◌then◌else◌, is_some}
use protoreflect.Common.Int.{ℤ, pos, eqz}
use protoreflect.Builder.Enum.{write}
use protoreflect.Builder.Message.{
  Builder, field, message, MessageBuilder, Builders, BuilderError, symbol_taken, tag_taken,
  put_symbol, put_tag, set_message,
}

-- addSymbol on a message: the message behind it, or `none` for its error
unfoldable pub add_symbol_to : MessageBuilder → Bytes → Builder → Option MessageBuilder
unfolding put_symbol
add_symbol_to mb name b =
    if is_some (mb.symbols name)
    then none
    else some (record mb { symbols = put_symbol mb.symbols name (some b) })

-- addTag on a message
unfoldable pub add_tag_to : MessageBuilder → ℤ → ℕ → Option MessageBuilder
unfolding put_tag
add_tag_to mb number f =
    if eqz number (pos 0)
    then some mb
    else if is_some (mb.field_tags number)
    then none
    else some (record mb { field_tags = put_tag mb.field_tags number (some f) })

-- delete(mb.symbols, name) and delete(mb.fieldTags, tag)
abbrev pub delete_symbol : MessageBuilder → Bytes → MessageBuilder
delete_symbol mb name = record mb { symbols = put_symbol mb.symbols name none }

abbrev pub delete_tag : MessageBuilder → ℤ → MessageBuilder
delete_tag mb number = record mb { field_tags = put_tag mb.field_tags number none }

-- The end of registerField, for the message of a group or of a map's entries.
unfoldable pub register_msg_type :
    MessageBuilder → Bytes → ℤ → Option (Bytes × ℕ) → MessageBuilder × Option BuilderError
unfolding add_symbol_to put_symbol put_tag
register_msg_type mb name number none = (mb, none)
register_msg_type mb name number (some (entry, t)) = elim (add_symbol_to mb entry (message t)) [
  | none ↦ (delete_tag (delete_symbol mb name) number, some symbol_taken)
  | some mb1 ↦ (mb1, none)
]

unfoldable pub register_tag :
    MessageBuilder → Bytes → ℤ → ℕ → Option (Bytes × ℕ) → MessageBuilder × Option BuilderError
unfolding add_tag_to register_msg_type put_symbol
register_tag mb name number f t = elim (add_tag_to mb number f) [
  | none ↦ (delete_symbol mb name, some tag_taken)
  | some mb1 ↦ register_msg_type mb1 name number t
]

-- registerField on a message, with the field's name, number and message: the message behind it, and
-- its error
unfoldable pub register_with :
    MessageBuilder → Bytes → ℤ → ℕ → Option (Bytes × ℕ) → MessageBuilder × Option BuilderError
unfolding add_symbol_to register_tag
register_with mb name number f t = elim (add_symbol_to mb name (field f)) [
  | none ↦ (mb, some symbol_taken)
  | some mb1 ↦ register_tag mb1 name number f t
]

-- The message of the field's group or map entries, with its name.
abbrev pub msg_type_of : Builders → ℕ → Option (Bytes × ℕ)
msg_type_of h f = elim (h.fields f).msg_type [
  | none ↦ none
  | some t ↦ some ((h.messages t).name, t)
]

-- registerField
unfoldable pub register_field : Builders → ℕ → ℕ → Builders × Option BuilderError
unfolding register_with write
register_field h m f =
    let flb = h.fields f in
    let r = register_with (h.messages m) flb.name flb.number f (msg_type_of h f) in
    (set_message h m r.0, r.1)
