-- ===== src/Remote/Urls/Nearest.antt =====
-- The package whose base URL baseURLFromRegistrationsLocked of
-- protoresolve/remotereg/remote_registry.go finds.
use protoreflect.Remote.Options.{contains_dot}
use protoreflect.Common.{
  ℕ, zero, suc, ◌≤◌, ◌<◌, ◌≡◌, ◌≢◌, ◌⊎◌, refl, sym, ap, ◌∙◌, subst, true, false, Option, none, some,
  [], ◌∷◌, ◌++◌, Bytes, length, length-append, append_assoc, bytes_eq, bytes_eq_iff, bytes_eq_sound,
  Bool-cases, inl, inr, arith,
}
use protoreflect.Remote.Urls.{PkgBaseUrl, Registry, parent_name, base_url_from_registrations}
use protoreflect.Remote.Urls.Names.{base_url_from_registrations_result, parent_name_shorter}

-- The package `q` is `p`, or `p` is in front of a dot in it.
pub data Encloses (p q : Bytes) : Type 0 where
  itself : p ≡ q → Encloses p q
  before_dot : (rest : Bytes) → p ++ 46 ∷ rest ≡ q → Encloses p q

dot_inside : (p rest : Bytes) → contains_dot (p ++ 46 ∷ rest) ≡ true
unfolding contains_dot
dot_inside [] rest = refl
dot_inside (c ∷ p) rest = ground (arith, dot_inside p rest)

-- The parent is in front of the last dot.
parent_name-dot :
    (q : Bytes)
    → contains_dot q ≡ true
    → (rest : Bytes) × (parent_name q ++ 46 ∷ rest ≡ q) × (contains_dot rest ≡ false)
unfolding contains_dot parent_name
parent_name-dot [] e = absurd (ground (arith, e))
parent_name-dot (c ∷ s) e = elim (Bool-cases (contains_dot s)) [
  | inl d ↦
      let (rest, same, plain) = parent_name-dot s d in (rest, rw d (ap (λ t. c ∷ t) same), plain)
  | inr d ↦ let dot : c ≡ 46 = ground (arith, e, d) in (s, rw (d, dot) refl, d)
]

-- A package in front of a dot encloses the parent.
before_dot-parent : (p rest : Bytes) → Encloses p (parent_name (p ++ 46 ∷ rest))
unfolding parent_name
before_dot-parent [] rest = elim (Bool-cases (contains_dot rest)) [
  | inl d ↦ rw d (before_dot (parent_name rest) refl)
  | inr d ↦ rw d (itself refl)
]
before_dot-parent (c ∷ p) rest = rw (dot_inside p rest) (more (before_dot-parent p rest))
  where
    more : {q : Bytes} → Encloses p q → Encloses (c ∷ p) (c ∷ q)
    more (itself e) = itself (ap (λ t. c ∷ t) e)
    more (before_dot tail e) = before_dot tail (ap (λ t. c ∷ t) e)

parent-Encloses : (p q : Bytes) → Encloses p q → p ≢ q → Encloses p (parent_name q)
parent-Encloses p q (itself e) ne = absurd (ne e)
parent-Encloses p q (before_dot rest e) ne =
    subst (λ t. Encloses p (parent_name t)) e (before_dot-parent p rest)

Encloses-parent : (p q : Bytes) → contains_dot q ≡ true → Encloses p (parent_name q) → Encloses p q
Encloses-parent p q d (itself e) =
    let (rest, same, _) = parent_name-dot q d in before_dot rest (ap (λ t. t ++ 46 ∷ rest) e ∙ same)
Encloses-parent p q d (before_dot tail e) =
    let (rest, same, _) = parent_name-dot q d in
    before_dot (tail ++ 46 ∷ rest)
      (sym (append_assoc p (46 ∷ tail) (46 ∷ rest)) ∙ ap (λ t. t ++ 46 ∷ rest) e ∙ same)

no_dot-parent : (q : Bytes) → contains_dot q ≡ false → parent_name q ≡ []
unfolding contains_dot parent_name
no_dot-parent [] e = refl
no_dot-parent (c ∷ s) e = let d : contains_dot s ≡ false = ground (arith, e) in rw d refl

-- No package but the empty one encloses the empty one.
enclosed_by_none : (p : Bytes) → Encloses p [] → p ≡ []
enclosed_by_none p (itself e) = e
enclosed_by_none [] (before_dot rest e) = refl
enclosed_by_none (c ∷ p) (before_dot rest e) = absurd (ground (arith, e))

length-Encloses : (p q : Bytes) → Encloses p q → length p ≤ length q
length-Encloses p q (itself e) = omega (arith, ap length e)
length-Encloses p q (before_dot rest e) = omega (arith, length-append p (46 ∷ rest), ap length e)

-- The registered package that encloses `q` and is the longest such one, but for the empty package.
pub record IsNearest (r : Registry) (q p : Bytes) (entry : PkgBaseUrl) : Type 0 where
  pub registered : r.pkg_base_urls p ≡ some entry
  pub encloses : Encloses p q
  pub not_empty : p ≢ []
  pub longest : (k : Bytes) → Encloses k q → length p < length k → r.pkg_base_urls k ≡ none

-- No package but the empty one that encloses `q` is registered.
abbrev pub NoneEncloses : Registry → Bytes → Type 0
NoneEncloses r q = (k : Bytes) → Encloses k q → k ≢ [] → r.pkg_base_urls k ≡ none

abbrev Found : Registry → Bytes → Bytes → Type 0
Found r q url =
    ((p : Bytes) × (entry : PkgBaseUrl) × IsNearest r q p entry × (url ≡ entry.base_url))
    ⊎ (NoneEncloses r q × (url ≡ []))

module _ (r : Registry) (q : Bytes) (absent : r.pkg_base_urls q ≡ none) where
  at_or_below :
      (k : Bytes)
      → Encloses k q
      → (Encloses k (parent_name q) → r.pkg_base_urls k ≡ none)
      → r.pkg_base_urls k ≡ none
  at_or_below k enc above = elim (Bool-cases (bytes_eq k q)) [
    | inl e ↦ ap r.pkg_base_urls (bytes_eq_sound k q e) ∙ absent
    | inr ne ↦ above (parent-Encloses k q enc (λ e. ground (arith, ne, (bytes_eq_iff k q).1 e)))
  ]

  parent-Found : (url : Bytes) → Found r (parent_name q) url → Found r q url
  parent-Found url (inl (p, entry, near, e)) = inl (
    p,
    entry,
    record {
      registered = near.registered;
      encloses = elim (Bool-cases (contains_dot q)) [
        | inl d ↦ Encloses-parent p q d near.encloses
        | inr d ↦ absurd (
            near.not_empty
              (enclosed_by_none p (subst (Encloses p) (no_dot-parent q d) near.encloses)))
      ];
      not_empty = near.not_empty;
      longest = λ k enc l. at_or_below k enc (λ above. near.longest k above l);
    },
    e,
  )
  parent-Found url (inr (nothing, e)) =
      inr (λ k enc ne. at_or_below k enc (λ above. nothing k above ne), e)

module _ (r : Registry) where
  by_entry :
      (c : ℕ) (s : Bytes) (o : Option PkgBaseUrl)
      → r.pkg_base_urls (c ∷ s) ≡ o
      → Found r (parent_name (c ∷ s)) (base_url_from_registrations r (parent_name (c ∷ s)))
      → Found r (c ∷ s) (elim o as (λ _. Bytes) [
        | none ↦ base_url_from_registrations r (parent_name (c ∷ s))
        | some entry ↦ entry.base_url
      ])
  by_entry c s none e found = parent-Found r (c ∷ s) e _ found
  by_entry c s (some entry) e found = inl (
    c ∷ s,
    entry,
    record {
      registered = e;
      encloses = itself refl;
      not_empty = λ z. ground (arith, z);
      longest = λ k enc l. absurd (omega (arith, length-Encloses k (c ∷ s) enc, l));
    },
    refl,
  )

  search-Found : (n : ℕ) (q : Bytes) → length q < n → Found r q (base_url_from_registrations r q)
  search-Found zero q l = absurd (omega (arith, l))
  search-Found (suc n) [] l =
      inr
        (λ k enc ne. absurd (ne (enclosed_by_none k enc)), (base_url_from_registrations_result r).0)
  search-Found (suc n) (c ∷ s) l =
      subst (Found r (c ∷ s)) (sym ((base_url_from_registrations_result r).1 c s)) (
        by_entry c s (r.pkg_base_urls (c ∷ s)) refl
          (search-Found n (parent_name (c ∷ s)) (omega (arith, l, parent_name_shorter c s))))

-- The base URL of a package that the search among the registered packages returns: that of the longest
-- registered package that is the package itself or is in front of a dot in it, and the empty one if
-- there is no such package. The empty package never counts. A package in front of a dot counts
-- whether or not it was registered with its sub-packages, against the doc of RegisterPackageBaseURL.
pub base_url_from_registrations-IsNearest :
    (r : Registry) (q : Bytes)
    → ((p : Bytes) × (entry : PkgBaseUrl) × IsNearest r q p entry
        × (base_url_from_registrations r q ≡ entry.base_url))
      ⊎ (NoneEncloses r q × (base_url_from_registrations r q ≡ []))
base_url_from_registrations-IsNearest r q = search-Found r (suc (length q)) q (omega arith)
