-- ===== src/Remote/Options/Examples.antt =====
-- Runs of the options and defaults of protoresolve/remotereg/converter.go, and the theorems at these
-- inputs.
use mathlib.Core.List.{Permᴰ, Memᴰ}
use protoreflect.Common.{
  ℕ, ◌≡◌, refl, true, false, Option, none, some, [], ◌∷◌, Bytes, codes, bytes_less, bytes_eq, ◌≢◌,
  sym, ◌∙◌, ap, ◌==◌, if◌then◌else◌, arith,
}
use protoreflect.Common.Int.{negsuc}
use protoreflect.Remote.Options.{
  ValueOf, int32_kind, message_kind, Wrapped, interface_of, entries, OptionField, option_name,
  contains_dot, option_name_less, insert_option, sort_options, marshalled, append_opt,
  entry_options, held_options, option, gathered, options,
}
use protoreflect.Remote.Options.Order.{NamesDiffer, options_permuted}
use protoreflect.Remote.Options.Default.{
  digits, format_int, format_uint, field_default, default_text, default_value, DefaultField,
}
use protoreflect.Remote.Options.Same.{field_default-default_value}

-- An extension that holds a list, and a normal option.
abbrev custom : OptionField ℕ ℕ
custom = record {
  name = codes "x";
  full_name = codes "a.x";
  is_extension = true;
  kind = message_kind;
  held = entries (5 ∷ 6 ∷ []);
}

abbrev normal : OptionField ℕ ℕ
normal = record {
  name = codes "deprecated";
  full_name = codes "google.protobuf.FieldOptions.deprecated";
  is_extension = false;
  kind = message_kind;
  held = entries (7 ∷ []);
}

abbrev same : ℕ → ℕ
same f = f

-- Message 6 cannot be marshalled.
abbrev marshal : Wrapped ℕ ℕ → Option ℕ
marshal (interface_of m) = if m == 6 then none else some m
marshal w = none

apart : option_name custom ≢ option_name normal
unfolding option_name
apart e = ground (arith, ap (λ n. bytes_eq n (codes "a.x")) e)

names_differ : NamesDiffer same marshal (custom ∷ normal ∷ [])
names_differ f g (Memᴰ.head a) (Memᴰ.head b) e = a ∙ sym b
names_differ f g (Memᴰ.head a) (Memᴰ.tail (Memᴰ.head b)) e =
    absurd (apart (sym (ap option_name a) ∙ e ∙ ap option_name b))
names_differ f g (Memᴰ.tail (Memᴰ.head a)) (Memᴰ.head b) e =
    absurd (apart (sym (ap option_name b) ∙ sym e ∙ ap option_name a))
names_differ f g (Memᴰ.tail (Memᴰ.head a)) (Memᴰ.tail (Memᴰ.head b)) e = a ∙ sym b
names_differ f g (Memᴰ.head a) (Memᴰ.tail (Memᴰ.tail m)) e = elim m [ ]
names_differ f g (Memᴰ.tail (Memᴰ.head a)) (Memᴰ.tail (Memᴰ.tail m)) e = elim m [ ]
names_differ f g (Memᴰ.tail (Memᴰ.tail m)) _ e = elim m [ ]

sorted :
    options same marshal (custom ∷ normal ∷ [])
    ≡ record { name = codes "deprecated"; value = 7 }
      ∷ record { name = codes "a.x"; value = 5 }
      ∷ []
unfolding options gathered option held_options entry_options append_opt marshalled option_name
    sort_options insert_option option_name_less contains_dot bytes_less
sorted = refl

options_permuted_example :
    options same marshal (custom ∷ normal ∷ []) ≡ options same marshal (normal ∷ custom ∷ [])
options_permuted_example = options_permuted same marshal names_differ (Permᴰ.swap refl refl)

abbrev field_of : DefaultField ℕ
field_of = record {
  kind = int32_kind;
  has_default = true;
  has_presence = true;
  is_optional = true;
  has_message = false;
  default = some (unfold ValueOf in negsuc 41);
  enum_name = [];
}

abbrev no_float : ℕ → ℕ → Bytes
no_float size bits = []

abbrev no_format : ℕ → Bytes
no_format m = []

field_default-default_value_example :
    field_default no_float no_format field_of ≡ some (default_value no_float no_format field_of)
field_default-default_value_example =
    field_default-default_value no_float no_format field_of
      (λ _. record {
        presence = refl;
        optional = refl;
        no_message = refl;
        no_message_kind = (λ e. cc, λ e. cc);
      })
      (λ _. refl)

minus_42 : default_value no_float no_format field_of ≡ codes "-42"
unfolding default_value default_text format_int format_uint digits
minus_42 = refl
