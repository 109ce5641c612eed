-- ===== src/Resolve/Symbols/Sound.antt =====
-- The search of protoresolve/helpers.go finds what a file declares.
use protoreflect.Common.{
  ℕ, ◌≡◌, refl, sym, ap, subst, ◌∙◌, inl, inr, Bool, true, false, Option, none, some, List, [], ◌∷◌,
  ◌++◌, append_assoc, Bytes, ◌==◌, ==_iff, if◌then◌else◌, bytes_eq, bytes_eq_refl, has_prefix,
  has_prefix-append, Bool-cases, arith,
}
use protoreflect.Resolve.Symbols.{
  ServiceNode, MessageNode, message_node, message_name, FileNode, Symbol, enum_symbol,
  extension_symbol, service_symbol, method_symbol, field_symbol, oneof_symbol, by_name,
  service_by_name, message_by_name, find_symbol_in_message, find_in_messages, find_symbol_in_file,
  split_dots, trim_prefix, find_parts, find_descriptor_by_name_in_file,
}
use protoreflect.Resolve.Symbols.Declares.{
  Among, AmongMessages, Declares, a_field, a_oneof, an_extension, an_enum, an_enum_value, a_message,
  inside, FileDeclares, top_message, top_enum, top_extension, top_service, top_enum_value, a_method,
  in_message, join_dots, qualified,
}
use protoreflect.Resolve.Symbols.Finds.{
  Finds, Finds-or_else, Finds-by_name, Finds-message_by_name, Finds-service_by_name,
  Finds-value_in_enums, Finds-as_message, Finds-elim,
}

Finds-find_symbol_in_message :
    (parts : List Bytes) (m : MessageNode)
    → Finds (Declares m parts) (find_symbol_in_message parts m)
unfolding find_symbol_in_message
Finds-find_symbol_in_message [] m = tt
Finds-find_symbol_in_message (n ∷ []) (message_node md nested) =
    let P = Declares (message_node md nested) (n ∷ []) in
    Finds-or_else P _ _
      (Finds-by_name P _ field_symbol n md.fields (λ x among e.
        subst (λ k. P (field_symbol k)) (sym e) (a_field (subst (λ k. Among k md.fields) e among))))
      (Finds-or_else P _ _
        (Finds-by_name P _ oneof_symbol n md.oneofs (λ x among e.
          subst (λ k. P (oneof_symbol k)) (sym e)
            (a_oneof (subst (λ k. Among k md.oneofs) e among))))
        (Finds-or_else P _ _ (Finds-as_message P n nested (λ m among e. a_message among e)) (
          Finds-or_else P _ _
            (Finds-by_name P _ enum_symbol n md.enums (λ x among e. an_enum among e))
            (Finds-or_else P _ _
              (Finds-by_name P _ extension_symbol n md.extensions (λ x among e.
                subst (λ k. P (extension_symbol k)) (sym e)
                  (an_extension (subst (λ k. Among k md.extensions) e among))))
              (Finds-value_in_enums P n md.enums (λ e among v. an_enum_value among v))))))
Finds-find_symbol_in_message (first ∷ second ∷ rest) (message_node md nested) =
    of_found (message_by_name first nested) (Finds-message_by_name first nested)
      (λ m. Finds-find_symbol_in_message (second ∷ rest) m)
  where
    of_found :
        (o : Option MessageNode)
        → Finds (λ m. AmongMessages m nested × (message_name m ≡ first)) o
        → ((m : MessageNode)
            → Finds (Declares m (second ∷ rest)) (find_symbol_in_message (second ∷ rest) m))
        → Finds
            (Declares (message_node md nested) (first ∷ second ∷ rest))
            (elim o [ none ↦ none | some m ↦ find_symbol_in_message (second ∷ rest) m ])
    of_found none g ih = tt
    of_found (some m) (among, e) ih = deeper (find_symbol_in_message (second ∷ rest) m) (ih m)
      where
        deeper :
            (o : Option Symbol)
            → Finds (Declares m (second ∷ rest)) o
            → Finds (Declares (message_node md nested) (first ∷ second ∷ rest)) o
        deeper none h = tt
        deeper (some d) h = inside among e h

Finds-find_in_messages :
    (first : Bytes) (rest : List Bytes) (f : FileNode)
    → Finds (FileDeclares f (first ∷ rest)) (find_in_messages first rest f)
unfolding find_in_messages
Finds-find_in_messages first rest f =
    of_found (message_by_name first f.messages) (Finds-message_by_name first f.messages)
  where
    of_found :
        (o : Option MessageNode)
        → Finds (λ m. AmongMessages m f.messages × (message_name m ≡ first)) o
        → Finds
            (FileDeclares f (first ∷ rest))
            (elim o [ none ↦ none | some m ↦ find_symbol_in_message rest m ])
    of_found none g = tt
    of_found (some m) (among, e) =
        deeper (find_symbol_in_message rest m) (Finds-find_symbol_in_message rest m)
      where
        deeper :
            (o : Option Symbol)
            → Finds (Declares m rest) o
            → Finds (FileDeclares f (first ∷ rest)) o
        deeper none h = tt
        deeper (some d) h = in_message among e h

Finds-find_symbol_in_file :
    (parts : List Bytes) (f : FileNode) → Finds (FileDeclares f parts) (find_symbol_in_file parts f)
unfolding find_symbol_in_file
Finds-find_symbol_in_file [] f = tt
Finds-find_symbol_in_file (n ∷ []) f =
    let P = FileDeclares f (n ∷ []) in
    Finds-or_else P _ _ (Finds-as_message P n f.messages (λ m among e. top_message among e)) (
      Finds-or_else P _ _ (Finds-by_name P _ enum_symbol n f.enums (λ x among e. top_enum among e))
        (Finds-or_else P _ _
          (Finds-by_name P _ extension_symbol n f.extensions (λ x among e.
            subst (λ k. P (extension_symbol k)) (sym e)
              (top_extension (subst (λ k. Among k f.extensions) e among))))
          (Finds-or_else P _ _
            (Finds-by_name P _ service_symbol n f.services (λ x among e. top_service among e))
            (Finds-value_in_enums P n f.enums (λ e among v. top_enum_value among v)))))
Finds-find_symbol_in_file (first ∷ second ∷ []) f =
    of_found (service_by_name first f.services) (Finds-service_by_name first f.services)
  where
    of_found :
        (o : Option ServiceNode)
        → Finds (λ (s : ServiceNode). Among s f.services × (s.name ≡ first)) o
        → Finds (FileDeclares f (first ∷ second ∷ [])) (elim o [
          | some svc ↦ by_name (λ m. m) (method_symbol svc) second svc.methods
          | none ↦ find_in_messages first (second ∷ []) f
        ])
    of_found none g = Finds-find_in_messages first (second ∷ []) f
    of_found (some svc) (among, e) =
        Finds-by_name (FileDeclares f (first ∷ second ∷ [])) _ (method_symbol svc) second
          svc.methods
          (λ x m same.
            subst (λ k. FileDeclares f (first ∷ second ∷ []) (method_symbol svc k)) (sym same)
              (a_method among e (subst (λ k. Among k svc.methods) same m)))
Finds-find_symbol_in_file (first ∷ second ∷ third ∷ rest) f =
    Finds-find_in_messages first (second ∷ third ∷ rest) f

join_dots_cons :
    (c : ℕ) (first : Bytes) (rest : List Bytes)
    → join_dots (c ∷ first) rest ≡ c ∷ join_dots first rest
join_dots_cons c first [] = refl
join_dots_cons c first (second ∷ rest) = refl

join_dots-split_dots : (s : Bytes) → join_dots (split_dots s).0 (split_dots s).1 ≡ s
unfolding split_dots
join_dots-split_dots [] = refl
join_dots-split_dots (c ∷ s) = elim (Bool-cases (c == 46)) [
  | inl e ↦
      rw e (ap (λ l. 46 ∷ l) (join_dots-split_dots s) ∙ ap (λ n. n ∷ s) (sym ((==_iff c 46).0 e)))
  | inr e ↦ rw e (
      join_dots_cons c (split_dots s).0 (split_dots s).1 ∙ ap (λ l. c ∷ l) (join_dots-split_dots s))
]

-- The symbol is declared under the parts of a name that, in the package, is `name`.
abbrev pub IsNamed : FileNode → Bytes → Symbol → Type 0
IsNamed f name d =
    (first : Bytes) × (rest : List Bytes) × FileDeclares f (first ∷ rest) d
    × (qualified f.package_name (join_dots first rest) ≡ name)

find_parts-Declares :
    (f : FileNode) (s : Bytes) (d : Symbol)
    → find_parts f s ≡ some d
    → FileDeclares f ((split_dots s).0 ∷ (split_dots s).1) d
unfolding find_parts
find_parts-Declares f s d e =
    Finds-elim (FileDeclares f ((split_dots s).0 ∷ (split_dots s).1)) _ d e
      (Finds-find_symbol_in_file ((split_dots s).0 ∷ (split_dots s).1) f)

trim_prefix_none : (s p : Bytes) → has_prefix s p ≡ false → trim_prefix s p ≡ s
unfolding trim_prefix
trim_prefix_none s p e = rw e refl

trim_prefix-changes :
    (s p : Bytes) → bytes_eq (trim_prefix s p) s ≡ false → p ++ trim_prefix s p ≡ s
unfolding trim_prefix
trim_prefix-changes s p h = elim (Bool-cases (has_prefix s p)) [
  | inl e ↦ rw e (has_prefix-append s p e)
  | inr e ↦
      absurd
        (ground (arith, sym (ap (λ x. bytes_eq x s) (trim_prefix_none s p e)) ∙ h, bytes_eq_refl s))
]

unless_some :
    (b : Bool) (o : Option Symbol) (d : Symbol)
    → (if b then none else o) ≡ some d
    → (b ≡ false) × (o ≡ some d)
unless_some true o d h = cc h
unless_some false o d h = (refl, h)

qualified_cons : (pkg : Bytes) (c : ℕ) (p n : Bytes) → pkg ≡ c ∷ p → qualified pkg n ≡ pkg ++ 46 ∷ n
qualified_cons pkg c p n e = subst (λ q. qualified q n ≡ q ++ 46 ∷ n) (sym e) refl

module _ (f : FileNode) (name : Bytes) (d : Symbol) where
  abbrev rest_of_name : Bytes
  rest_of_name = trim_prefix name (f.package_name ++ 46 ∷ [])

  in_package_result :
      (c : ℕ) (p : Bytes)
      → f.package_name ≡ c ∷ p
      → (if bytes_eq rest_of_name name then none else find_parts f rest_of_name) ≡ some d
      → IsNamed f name d
  in_package_result c p e h =
      let (other, parts_found) =
        unless_some (bytes_eq rest_of_name name) (find_parts f rest_of_name) d h in
      let (first, rest) = split_dots rest_of_name in
      (
        first,
        rest,
        find_parts-Declares f rest_of_name d parts_found,
        qualified_cons f.package_name c p (join_dots first rest) e
            ∙ ap (λ n. f.package_name ++ 46 ∷ n) (join_dots-split_dots rest_of_name)
            ∙ sym (append_assoc f.package_name (46 ∷ []) rest_of_name)
            ∙ trim_prefix-changes name (f.package_name ++ 46 ∷ []) other,
      )

  by_package :
      (pkg : Bytes)
      → f.package_name ≡ pkg
      → elim pkg [
        | [] ↦ find_parts f name
        | _ ∷ _ ↦ if bytes_eq rest_of_name name then none else find_parts f rest_of_name
      ]
        ≡ some d
      → IsNamed f name d
  by_package [] e h = (
    (split_dots name).0,
    (split_dots name).1,
    find_parts-Declares f name d h,
    ap (λ p. qualified p (join_dots (split_dots name).0 (split_dots name).1)) e
        ∙ join_dots-split_dots name,
  )
  by_package (c ∷ p) e h = in_package_result c p e h

-- What FindDescriptorByNameInFile finds is declared in the file, and the names that lead to it, behind
-- the file's package, spell the full name that was asked for.
pub find_descriptor_by_name_in_file-IsNamed :
    (f : FileNode) (name : Bytes) (d : Symbol)
    → find_descriptor_by_name_in_file f name ≡ some d
    → IsNamed f name d
unfolding find_descriptor_by_name_in_file
find_descriptor_by_name_in_file-IsNamed f name d h = by_package f name d f.package_name refl h
