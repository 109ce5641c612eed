-- ===== src/Resolve/Symbols/Finds.antt =====
-- The lookups by name in protoresolve/helpers.go find what is there.
use protoreflect.Common.{
  ◌≡◌, refl, sym, subst, inl, inr, Option, none, some, List, [], ◌∷◌, Bytes, bytes_eq,
  bytes_eq_sound, Bool-cases,
}
use protoreflect.Resolve.Symbols.{
  EnumNode, ServiceNode, MessageNode, MessageNodes, no_messages, more_messages, message_name,
  Symbol, message_symbol, enum_value_symbol, by_name, service_by_name, message_by_name, or_else,
  as_message, value_in_enums,
}
use protoreflect.Resolve.Symbols.Declares.{Among, AmongMessages}

-- What is found, if anything, has the property.
abbrev pub Finds : {A : Type 0} → (A → Type 0) → Option A → Type 0
Finds P none = Unit
Finds P (some d) = P d

pub Finds-or_else :
    (P : Symbol → Type 0) (o p : Option Symbol) → Finds P o → Finds P p → Finds P (or_else o p)
unfolding or_else
Finds-or_else P none p h k = k
Finds-or_else P (some d) p h k = h

pub Finds-by_name :
    {A : Type 0} (P : Symbol → Type 0) (name_of : A → Bytes) (symbol : A → Symbol) (n : Bytes)
    (xs : List A)
    → ((x : A) → Among x xs → name_of x ≡ n → P (symbol x))
    → Finds P (by_name name_of symbol n xs)
unfolding by_name
Finds-by_name P name_of symbol n [] h = tt
Finds-by_name P name_of symbol n (x ∷ xs) h = elim (Bool-cases (bytes_eq (name_of x) n)) [
  | inl e ↦ rw e (h x (inl refl) (bytes_eq_sound (name_of x) n e))
  | inr e ↦ rw e (Finds-by_name P name_of symbol n xs (λ y among. h y (inr among)))
]

pub Finds-message_by_name :
    (n : Bytes) (ms : MessageNodes)
    → Finds (λ m. AmongMessages m ms × (message_name m ≡ n)) (message_by_name n ms)
unfolding message_by_name
Finds-message_by_name n no_messages = tt
Finds-message_by_name n (more_messages m ms) = elim (Bool-cases (bytes_eq (message_name m) n)) [
  | inl e ↦ rw e (inl refl, bytes_eq_sound (message_name m) n e)
  | inr e ↦ rw e (later (message_by_name n ms) (Finds-message_by_name n ms))
]
  where
    later :
        (o : Option MessageNode)
        → Finds (λ x. AmongMessages x ms × (message_name x ≡ n)) o
        → Finds (λ x. AmongMessages x (more_messages m ms) × (message_name x ≡ n)) o
    later none h = tt
    later (some x) (among, e) = (inr among, e)

pub Finds-service_by_name :
    (n : Bytes) (ss : List ServiceNode)
    → Finds (λ (s : ServiceNode). Among s ss × (s.name ≡ n)) (service_by_name n ss)
unfolding service_by_name
Finds-service_by_name n [] = tt
Finds-service_by_name n (s ∷ ss) = elim (Bool-cases (bytes_eq s.name n)) [
  | inl e ↦ rw e (inl refl, bytes_eq_sound s.name n e)
  | inr e ↦ rw e (later (service_by_name n ss) (Finds-service_by_name n ss))
]
  where
    later :
        (o : Option ServiceNode)
        → Finds (λ (x : ServiceNode). Among x ss × (x.name ≡ n)) o
        → Finds (λ (x : ServiceNode). Among x (s ∷ ss) × (x.name ≡ n)) o
    later none h = tt
    later (some x) (among, e) = (inr among, e)

pub Finds-value_in_enums :
    (P : Symbol → Type 0) (n : Bytes) (es : List EnumNode)
    → ((e : EnumNode) → Among e es → Among n e.values → P (enum_value_symbol e n))
    → Finds P (value_in_enums n es)
unfolding value_in_enums
Finds-value_in_enums P n [] h = tt
Finds-value_in_enums P n (e ∷ es) h =
    Finds-or_else P _ _
      (Finds-by_name P _ (enum_value_symbol e) n e.values (λ v among same.
        subst (λ k. P (enum_value_symbol e k)) (sym same)
          (h e (inl refl) (subst (λ k. Among k e.values) same among))))
      (Finds-value_in_enums P n es (λ e' among. h e' (inr among)))

pub Finds-as_message :
    (P : Symbol → Type 0) (n : Bytes) (ms : MessageNodes)
    → ((m : MessageNode) → AmongMessages m ms → message_name m ≡ n → P (message_symbol m))
    → Finds P (as_message (message_by_name n ms))
unfolding as_message
Finds-as_message P n ms h = of_found (message_by_name n ms) (Finds-message_by_name n ms)
  where
    of_found :
        (o : Option MessageNode)
        → Finds (λ m. AmongMessages m ms × (message_name m ≡ n)) o
        → Finds P (as_message o)
    of_found none g = tt
    of_found (some m) (among, e) = h m among e

pub Finds-elim : {A : Type 0} (P : A → Type 0) (o : Option A) (d : A) → o ≡ some d → Finds P o → P d
Finds-elim P o d e h = subst (Finds P) e h
