-- ===== src/Builder/Message/Refused.antt =====
-- A rename of a field that is refused (protobuilder/builder.go and field.go) leaves nothing behind.
use mathlib.Core.Path.{fun_ext}
use protoreflect.Common.{
  ℕ, ◌≡◌, refl, sym, ap, ◌∙◌, subst, Bool, true, false, Option, none, some, Bytes, bytes_eq,
  is_some, Bool-cases, inl, inr, arith,
}
use protoreflect.Builder.Enum.{write}
use protoreflect.Builder.Message.{
  Builder, field, oneof, message, enum, OneofBuilder, MessageBuilder, set_message, Builders,
  BuilderError, symbol_taken, put_symbol, set_oneof, name_of, parent_of, is_child_of,
  message_of_oneof,
}
use protoreflect.Builder.Message.Register.{add_symbol_to}
use protoreflect.Builder.Message.Registered.{put_symbol_back}
use protoreflect.Builder.Message.Add.{add_symbol_at}
use protoreflect.Builder.Message.Choice.{
  delete_symbol_at, add_choice_symbol, delete_choice_symbol, rename_choice_in, renamed_in_message,
  renamed_in_oneof,
}
use protoreflect.Builder.Message.Rename.{
  put_name, set_name_with, settle_name, renamed_field, set_field_name, set_both_names,
  try_set_field_name,
}

-- If the call returned an error, the builders are the given ones.
abbrev Keeps : Builders → Builders × Option BuilderError → Type 0
Keeps h r = is_some r.1 ≡ true → r.0 ≡ h

no_error : {A : Type 0} → is_some {A = BuilderError} none ≡ true → A
no_error e = absurd (ground (arith, e))

add_symbol_at-Keeps : (h : Builders) (m : ℕ) (b : Builder) → Keeps h (add_symbol_at h m b)
unfolding add_symbol_at
add_symbol_at-Keeps h m b = by_symbol (add_symbol_to (h.messages m) (name_of h b) b)
  where
    by_symbol :
        (o : Option MessageBuilder)
        → Keeps h (elim o as (λ _. Builders × Option BuilderError) [
          | none ↦ (h, some symbol_taken)
          | some mb ↦ (set_message h m mb, none)
        ])
    by_symbol none e = refl
    by_symbol (some mb) e = no_error e

-- An operation that can only be refused before it writes.
after_Keeps :
    (h : Builders) (r : Builders × Option BuilderError) (next : Builders → Builders)
    → Keeps h r
    → Keeps h (elim r.1 as (λ _. Builders × Option BuilderError) [
      | none ↦ (next r.0, none)
      | some e ↦ (r.0, some e)
    ])
after_Keeps h (h1, none) next k e = no_error e
after_Keeps h (h1, some x) next k e = k refl

renamed_in_message-Keeps :
    (h : Builders) (m : ℕ) (b : Builder) (old : Bytes) → Keeps h (renamed_in_message h m b old)
unfolding renamed_in_message
renamed_in_message-Keeps h m b old = elim (Bool-cases (is_child_of h (message m) b)) [
  | inl child ↦ rw child (
      after_Keeps h (add_symbol_at h m b) (λ g. delete_symbol_at g m old)
        (add_symbol_at-Keeps h m b))
  | inr other ↦ rw other (λ e. no_error e)
]

set_oneof_twice :
    (h : Builders) (o : ℕ) (a b : OneofBuilder) → set_oneof (set_oneof h o a) o b ≡ set_oneof h o b
unfolding write
set_oneof_twice h o a b = ap (λ g. record h { oneofs = g }) (fun_ext (λ q. ground arith))

set_oneof_same : (h : Builders) (o : ℕ) → set_oneof h o (h.oneofs o) ≡ h
unfolding write
set_oneof_same h o = ap (λ g. record h { oneofs = g }) (fun_ext (λ q. ground arith))

oneof_at : (h : Builders) (o : ℕ) (a : OneofBuilder) → (set_oneof h o a).oneofs o ≡ a
unfolding write
oneof_at h o a = ground arith

module _ (h : Builders) (o f : ℕ) where
  -- The oneof with the choice's name added.
  abbrev with_choice : Builders
  with_choice =
      set_oneof h o (record (h.oneofs o) {
        symbols = put_symbol (h.oneofs o).symbols (h.fields f).name (some f);
      })

  choice_taken :
      is_some ((h.oneofs o).symbols (h.fields f).name) ≡ true → add_choice_symbol h o f ≡ none
  unfolding add_choice_symbol
  choice_taken t = rw t refl

  choice_free :
      is_some ((h.oneofs o).symbols (h.fields f).name) ≡ false
      → add_choice_symbol h o f ≡ some with_choice
  unfolding add_choice_symbol
  choice_free t = rw t refl

  choice_undone :
      (h.oneofs o).symbols (h.fields f).name ≡ none
      → delete_choice_symbol with_choice o (h.fields f).name ≡ h
  choice_undone free =
      ap
        (λ x.
          set_oneof with_choice o
            (record x { symbols = put_symbol x.symbols (h.fields f).name none }))
        (oneof_at h o (record (h.oneofs o) {
          symbols = put_symbol (h.oneofs o).symbols (h.fields f).name (some f);
        }))
      ∙ set_oneof_twice h o _ _
      ∙ rw (put_symbol_back (h.oneofs o).symbols (h.fields f).name (some f) free)
          (set_oneof_same h o)

  after_message :
      (m : ℕ) (old : Bytes) (r : Builders × Option BuilderError)
      → (h.oneofs o).symbols (h.fields f).name ≡ none
      → Keeps with_choice r
      → Keeps h (elim r.1 as (λ _. Builders × Option BuilderError) [
        | none ↦ (delete_symbol_at r.0 m old, none)
        | some e ↦ (delete_choice_symbol r.0 o (h.fields f).name, some e)
      ])
  after_message m old (g, none) free k e = no_error e
  after_message m old (g, some x) free k e =
      ap (λ q. delete_choice_symbol q o (h.fields f).name) (k refl) ∙ choice_undone free

  in_message :
      (old : Bytes) (p : Option ℕ)
      → (h.oneofs o).symbols (h.fields f).name ≡ none
      → Keeps h (rename_choice_in with_choice o f old p)
  unfolding rename_choice_in
  in_message old none free e = no_error e
  in_message old (some m) free e =
      after_message m old (add_symbol_at with_choice m (field f)) free
        (add_symbol_at-Keeps with_choice m (field f)) e

  renamed_in_oneof-Keeps : (old : Bytes) → Keeps h (renamed_in_oneof h o f old)
  renamed_in_oneof-Keeps old = elim (Bool-cases (is_child_of h (oneof o) (field f))) [
    | inr other ↦ unfold renamed_in_oneof in rw other (λ e. no_error e)
    | inl child ↦ elim (Bool-cases (is_some ((h.oneofs o).symbols (h.fields f).name))) [
      | inl taken ↦ unfold renamed_in_oneof in rw (child, choice_taken taken) (λ e. refl)
      | inr free ↦
          unfold renamed_in_oneof in
          rw (child, choice_free free)
            (after_Keeps h
              (rename_choice_in with_choice o f old (message_of_oneof (with_choice.oneofs o)))
              (λ g. delete_choice_symbol g o old)
              (in_message old (message_of_oneof (with_choice.oneofs o)) (ground (arith, free))))
    ]
  ]

renamed_field-Keeps :
    (f : ℕ) (h : Builders) (p : Builder) (old : Bytes) → Keeps h (renamed_field f h p old)
unfolding renamed_field
renamed_field-Keeps f h (message m) old = renamed_in_message-Keeps h m (field f) old
renamed_field-Keeps f h (oneof o) old = renamed_in_oneof-Keeps h o f old
renamed_field-Keeps f h (field _) old = λ e. no_error e
renamed_field-Keeps f h (enum _) old = λ e. no_error e

name_back :
    (h : Builders) (f : ℕ) (name : Bytes)
    → put_name (put_name h (field f) name) (field f) (h.fields f).name ≡ h
unfolding put_name write
name_back h f name = ap (λ g. record h { fields = g }) (fun_ext (λ q. ground arith))

settled :
    (h h1 : Builders) (b : Builder) (old : Bytes) (r : Builders × Option BuilderError)
    → put_name h1 b old ≡ h
    → Keeps h1 r
    → Keeps h (settle_name b old r)
unfolding settle_name
settled h h1 b old (g, none) back k e = no_error e
settled h h1 b old (g, some x) back k e = ap (λ q. put_name q b old) (k refl) ∙ back

module _ (valid : Bytes → Bool) (h : Builders) (f : ℕ) (name : Bytes) where
  by_parent :
      (o : Option Builder)
      → Keeps h (elim o as (λ _. Builders × Option BuilderError) [
        | none ↦ (put_name h (field f) name, none)
        | some p ↦
            settle_name
              (field f)
              (h.fields f).name
              (renamed_field f (put_name h (field f) name) p (h.fields f).name)
      ])
  by_parent none e = no_error e
  by_parent (some p) e =
      settled h (put_name h (field f) name) (field f) (h.fields f).name
        (renamed_field f (put_name h (field f) name) p (h.fields f).name) (name_back h f name)
        (renamed_field-Keeps f (put_name h (field f) name) p (h.fields f).name) e

  set_field_name-Keeps : Keeps h (set_field_name valid h f name)
  set_field_name-Keeps = elim (Bool-cases (bytes_eq name (h.fields f).name)) [
    | inl same ↦ unfold set_field_name set_name_with name_of in rw same (λ e. no_error e)
    | inr ne ↦ elim (Bool-cases (valid name)) [
      | inl good ↦
          unfold set_field_name set_name_with name_of in
          rw (ne, good) (by_parent (parent_of (put_name h (field f) name) (field f)))
      | inr bad ↦ unfold set_field_name set_name_with name_of in rw (ne, bad) (λ e. refl)
    ]
  ]

-- TrySetName on a field that has no group or map entry message: if it returns an error, all builders
-- are exactly as they were, whether the field is in a message or in a oneof, and whichever of the two
-- tables of names refused the name.
pub try_set_field_name_refused :
    (valid : Bytes → Bool) (entry_name : Bytes → Bytes) (h : Builders) (f : ℕ) (name : Bytes)
    → (h.fields f).msg_type ≡ none
    → is_some (try_set_field_name valid entry_name h f name).1 ≡ true
    → (try_set_field_name valid entry_name h f name).0 ≡ h
try_set_field_name_refused valid entry_name h f name plain =
    subst (Keeps h) (sym without_message) (set_field_name-Keeps valid h f name)
  where
    without_message : try_set_field_name valid entry_name h f name ≡ set_field_name valid h f name
    without_message =
        unfold try_set_field_name set_both_names in
        ap (set_both_names valid entry_name h f name) plain
