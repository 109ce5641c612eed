-- ===== src/Builder/Message/Number.antt =====
-- TrySetNumber of protobuilder/field.go: which numbers it takes, and what a refused call leaves.
use mathlib.Core.Path.{fun_ext}
use protoreflect.Common.{
  ℕ, ◌≡◌, ◌≢◌, ◌⊎◌, ap, Bool, true, false, not, ◌&&◌, Option, none, some, if◌then◌else◌, arith,
}
use protoreflect.Common.Int.{ℤ, pos, negsuc, ltz, eqz, ◌≤ℤ◌, ◌<ℤ◌}
use protoreflect.Tags.{max_tag, special_reserved_start, special_reserved_end}
use protoreflect.Builder.Enum.{write}
use protoreflect.Builder.Message.{
  Builder, field, oneof, message, enum, OneofBuilder, field, oneof, message, enum, Builders,
  BuilderError, tag_taken, negative_tag, zero_extension, special_reserved, above_max, put_tag,
  set_message, set_field, is_extension, message_of_oneof,
}
use protoreflect.Builder.Message.Register.{add_tag_to, delete_tag}

-- The guards of TrySetNumber: what is wrong with the number.
unfoldable pub check_number : Bool → ℤ → Option BuilderError
check_number extension tag =
    if ltz tag (pos 0)
    then some negative_tag
    else if eqz tag (pos 0) && extension
    then some zero_extension
    else if not (ltz tag (pos special_reserved_start)) && not (ltz (pos special_reserved_end) tag)
    then some special_reserved
    else if ltz (pos max_tag) tag
    then some above_max
    else none

-- The message in whose tags a field is: its parent, or the message that its oneof is in.
unfoldable pub message_of_parent : (ℕ → OneofBuilder) → Option Builder → Option ℕ
unfolding message_of_oneof
message_of_parent oneofs none = none
message_of_parent oneofs (some (message m)) = some m
message_of_parent oneofs (some (oneof o)) = message_of_oneof (oneofs o)
message_of_parent oneofs (some (field _)) = none
message_of_parent oneofs (some (enum _)) = none

unfoldable pub message_of_field : Builders → ℕ → Option ℕ
unfolding message_of_parent
message_of_field h f = message_of_parent h.oneofs (h.fields f).parent

-- flb.number = tag
abbrev pub with_number : Builders → ℕ → ℤ → Builders
with_number h f tag = set_field h f (record (h.fields f) { number = tag })

-- The end of TrySetNumber: the message, if any, takes the new number and forgets the old one, or it
-- refuses and the field gets its old number back.
unfoldable pub move_tag : Builders → ℕ → ℤ → Option ℕ → Builders × Option BuilderError
unfolding add_tag_to put_tag write
move_tag h f tag none = (with_number h f tag, none)
move_tag h f tag (some m) = elim (add_tag_to (h.messages m) tag f) [
  | none ↦ (with_number (with_number h f tag) f (h.fields f).number, some tag_taken)
  | some mb ↦ (set_message (with_number h f tag) m (delete_tag mb (h.fields f).number), none)
]

-- TrySetNumber
unfoldable pub try_set_number : Builders → ℕ → ℤ → Builders × Option BuilderError
unfolding check_number move_tag message_of_field is_extension write
try_set_number h f tag =
    let flb = h.fields f in
    if eqz tag flb.number then (h, none) else elim (check_number (is_extension flb) tag) [
      | some e ↦ (h, some e)
      | none ↦
          if is_extension flb
          then (with_number h f tag, none)
          else move_tag h f tag (message_of_field h f)
    ]

-- The number is none of those that a field must not have.
abbrev pub IsAllowed : Bool → ℤ → Type 0
IsAllowed extension tag =
    (pos 0 ≤ℤ tag)
    × (tag ≤ℤ pos max_tag)
    × ((tag <ℤ pos special_reserved_start) ⊎ (pos special_reserved_end <ℤ tag))
    × ((extension ≡ false) ⊎ (tag ≢ pos 0))

pub check_number-none : (x : Bool) (tag : ℤ) → check_number x tag ≡ none → IsAllowed x tag
unfolding check_number
check_number-none true (pos n) e = ground arith
check_number-none false (pos n) e = ground arith
check_number-none x (negsuc n) e = ground arith

pub check_number-some :
    (x : Bool) (tag : ℤ) (e : BuilderError) → check_number x tag ≡ some e → ¬ IsAllowed x tag
unfolding check_number
check_number-some true (pos n) e h (lo, hi, out, nz) = ground (arith, h, lo, hi, out, nz)
check_number-some false (pos n) e h (lo, hi, out, nz) = ground (arith, h, lo, hi, out)
check_number-some x (negsuc n) e h (lo, hi, out, nz) = ground (arith, lo)

pub numbers_back :
    (h : Builders) (f : ℕ) (tag : ℤ) → with_number (with_number h f tag) f (h.fields f).number ≡ h
unfolding write
numbers_back h f tag = ap (λ g. record h { fields = g }) (fun_ext (λ q. ground arith))
