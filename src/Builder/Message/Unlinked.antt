-- ===== src/Builder/Message/Unlinked.antt =====
-- Unlink on a field of protobuilder/message.go: the field leaves its message, and the field tags stay
-- true.
use protoreflect.Common.{
  ℕ, ◌≡◌, refl, sym, ap, ◌∙◌, subst, Bool, true, false, ◌&&◌, not, Option, none, some, ◌==◌,
  if◌then◌else◌, ==_iff, Bool-cases, inl, inr, arith,
}
use protoreflect.Common.Int.{ℤ, eqz}
use protoreflect.Builder.Enum.{write}
use protoreflect.Builder.Message.{
  Builder, field, oneof, message, enum, OneofBuilder, MessageBuilder, Builders, is_extension,
  message_of_oneof,
}
use protoreflect.Builder.Message.Number.{message_of_parent, message_of_field}
use protoreflect.Builder.Message.Tags.{TagsHold}
use protoreflect.Builder.Message.Moved.{
  TagsOf, owned_by, owner_without, tags_without, without-TagsOf,
}

abbrev pub number_of : Builders → ℕ → ℤ
number_of h g = (h.fields g).number

abbrev pub extension_of : Builders → ℕ → Bool
extension_of h g = is_extension (h.fields g)

abbrev pub tags_of : Builders → ℕ → ℤ → Option ℕ
tags_of h m = (h.messages m).field_tags

pub TagsHold-TagsOf :
    (h : Builders)
    → TagsHold h
    → TagsOf (number_of h) (extension_of h) (message_of_field h) (tags_of h)
TagsHold-TagsOf h t = record {
  sound = λ m f n e. let (same, nz, l) = t.sound m f n e in (same, nz, l.regular, l.owned);
  complete = λ m f own reg nz. t.complete m f (record { regular = reg; owned = own }) nz;
}

-- Builders whose fields and tags are the given functions.
pub TagsOf-TagsHold :
    (h : Builders) (num : ℕ → ℤ) (ext : ℕ → Bool) (owner : ℕ → Option ℕ) (tags : ℕ → ℤ → Option ℕ)
    → TagsOf num ext owner tags
    → ((g : ℕ) → number_of h g ≡ num g)
    → ((g : ℕ) → extension_of h g ≡ ext g)
    → ((g : ℕ) → message_of_field h g ≡ owner g)
    → ((m : ℕ) (n : ℤ) → tags_of h m n ≡ tags m n)
    → TagsHold h
TagsOf-TagsHold h num ext owner tags t en ee eo et = record {
  sound = λ m f n e.
      let (same, nz, reg, own) = t.sound m f n (sym (et m n) ∙ e) in
      (en f ∙ same, nz, record { regular = ee f ∙ reg; owned = eo f ∙ own });
  complete = λ m f l nz.
      et m (number_of h f)
      ∙ ap (tags m) (en f)
      ∙ t.complete m f (sym (eo f) ∙ l.owned) (sym (ee f) ∙ l.regular) (λ z. nz (en f ∙ z));
}

pub message_of_parent_same :
    (os os' : ℕ → OneofBuilder)
    → ((o : ℕ) → (os' o).parent ≡ (os o).parent)
    → (p : Option Builder) → message_of_parent os' p ≡ message_of_parent os p
unfolding message_of_parent message_of_oneof
message_of_parent_same os os' e none = refl
message_of_parent_same os os' e (some (message m)) = refl
message_of_parent_same os os' e (some (field g)) = refl
message_of_parent_same os os' e (some (enum k)) = refl
message_of_parent_same os os' e (some (oneof o)) = rw (e o) refl

-- What Unlink on a field leaves of the fields and tags.
pub record IsUnlinked (h h' : Builders) (f : ℕ) : Type 0 where
  pub numbers : (g : ℕ) → number_of h' g ≡ number_of h g
  pub extensions : (g : ℕ) → extension_of h' g ≡ extension_of h g
  pub owners : (g : ℕ) → message_of_field h' g ≡ (if g == f then none else message_of_field h g)
  pub oneof_parents : (o : ℕ) → (h'.oneofs o).parent ≡ (h.oneofs o).parent
  pub tags :
      (m : ℕ) (n : ℤ)
      → tags_of h' m n ≡ (
          if not (extension_of h f) && owned_by (message_of_field h f) m && eqz n (number_of h f)
          then none
          else tags_of h m n)

pub IsUnlinked-TagsHold : (h h' : Builders) (f : ℕ) → IsUnlinked h h' f → TagsHold h → TagsHold h'
IsUnlinked-TagsHold h h' f u t =
    TagsOf-TagsHold h' (number_of h) (extension_of h)
      (owner_without (number_of h) (extension_of h) (message_of_field h) (tags_of h) f
        (TagsHold-TagsOf h t))
      (tags_without (number_of h) (extension_of h) (message_of_field h) (tags_of h) f
        (TagsHold-TagsOf h t))
      (without-TagsOf (number_of h) (extension_of h) (message_of_field h) (tags_of h) f
        (TagsHold-TagsOf h t))
      u.numbers u.extensions u.owners u.tags

-- The builders with other messages and oneofs, and with the field that has no parent.
abbrev pub without_parent : Builders → ℕ → (ℕ → MessageBuilder) → (ℕ → OneofBuilder) → Builders
without_parent h f messages oneofs = record h {
  messages = messages;
  oneofs = oneofs;
  fields = write h.fields f (record (h.fields f) { parent = none });
}

pub field_tags-write :
    (messages : ℕ → MessageBuilder) (p : ℕ) (mb : MessageBuilder) (m : ℕ) (n : ℤ)
    → (write messages p mb m).field_tags n
      ≡ (if m == p then mb.field_tags n else (messages m).field_tags n)
unfolding write
field_tags-write messages p mb m n = by_case (m == p)
  where
    by_case :
        (b : Bool)
        → (if b then mb else messages m).field_tags n
          ≡ (if b then mb.field_tags n else (messages m).field_tags n)
    by_case true = refl
    by_case false = refl

pub leave_tags :
    (x e : Bool) (p m : ℕ) (t : ℕ → Option ℕ)
    → (if m == p then if x && e then none else t p else t m)
      ≡ (if x && owned_by (some p) m && e then none else t m)
leave_tags x e p m t = elim (Bool-cases (m == p)) [
  | inl here ↦
      let at_p : m ≡ p = (==_iff m p).0 here in
      rw here (
        subst (λ q. (if x && e then none else t p) ≡ (if x && (p == q) && e then none else t q))
          (sym at_p) (rw ((==_iff p p).1 refl) (ground arith)))
  | inr other ↦
      let apart : (p == m) ≡ false = ground (arith, other) in rw (other, apart) (ground arith)
]
