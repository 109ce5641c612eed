-- ===== src/Remote/Urls/Names.antt =====
-- The names and packages of type URLs in protoresolve/remotereg/remote_registry.go.
use protoreflect.Remote.Options.{contains_dot}
use protoreflect.Common.{
  ℕ, zero, suc, ◌≤◌, ◌<◌, ◌≡◌, refl, ap, Bool, true, false, Option, none, some, [], ◌∷◌, ◌++◌,
  Bytes, if◌then◌else◌, length, Bool-cases, inl, inr, arith,
}
use protoreflect.Remote.Urls.{
  PkgBaseUrl, Registry, parent_name, is_empty, registrations_loop, base_url_from_registrations,
  url_from_registrations, base_url_without_registrations, url_for_type, contains_slash,
  type_name_from_url, put_base_url, base_url, ensure_scheme,
}

type_name-no_slash : (s : Bytes) → contains_slash s ≡ false → type_name_from_url s ≡ s
unfolding contains_slash type_name_from_url
type_name-no_slash [] e = refl
type_name-no_slash (c ∷ s) e = ground (arith, e)

pub slash_inside : (base name : Bytes) → contains_slash (base ++ 47 ∷ name) ≡ true
unfolding contains_slash
slash_inside [] name = refl
slash_inside (c ∷ base) name = ground (arith, slash_inside base name)

pub type_name-append :
    (base name : Bytes)
    → contains_slash name ≡ false
    → type_name_from_url (base ++ 47 ∷ name) ≡ name
unfolding type_name_from_url
type_name-append [] name e = rw e refl
type_name-append (c ∷ base) name e = rw (slash_inside base name) (type_name-append base name e)

module _ (r : Registry) (name pkg : Bytes) (plain : contains_slash name ≡ false)
    (known : (url : Bytes) → r.type_urls name ≡ some url → type_name_from_url url ≡ name) where
  -- A URL, if there is one, has the name.
  IsFor : Bytes → Type 0
  IsFor url = is_empty url ≡ false → type_name_from_url url ≡ name

  registered-IsFor : IsFor (url_from_registrations r name pkg)
  unfolding IsFor url_from_registrations
  registered-IsFor = by_type (r.type_urls name) refl
    where
      by_base :
          (b : Bool) → IsFor (if b then [] else base_url_from_registrations r pkg ++ 47 ∷ name)
      by_base true e = absurd (unfold is_empty in ground (arith, e))
      by_base false e = type_name-append (base_url_from_registrations r pkg) name plain

      by_type :
          (o : Option Bytes)
          → r.type_urls name ≡ o
          → IsFor (elim o as (λ _. Bytes) [
            | some url ↦ url
            | none ↦
                if is_empty (base_url_from_registrations r pkg)
                then []
                else base_url_from_registrations r pkg ++ 47 ∷ name
          ])
      by_type none e = by_base (is_empty (base_url_from_registrations r pkg))
      by_type (some url) e = λ _. known url e

-- The name of a type comes back from its URL by TypeNameFromURL, whichever package or type is
-- registered, if the name has no slash and the type, if it is registered itself, is so under a URL
-- that ends in its name.
pub type_name_from_url-url_for_type :
    (r : Registry) (name pkg : Bytes)
    → contains_slash name ≡ false
    → ((url : Bytes) → r.type_urls name ≡ some url → type_name_from_url url ≡ name)
    → type_name_from_url (url_for_type r name pkg) ≡ name
unfolding url_for_type IsFor
type_name_from_url-url_for_type r name pkg plain known =
    elim (Bool-cases (is_empty (url_from_registrations r name pkg))) [
      | inl e ↦ rw e (type_name-append (base_url_without_registrations r pkg) name plain)
      | inr e ↦ rw e (registered-IsFor r name pkg plain known e)
    ]

-- A map with another flag for the package.
module _ (urls : Bytes → Option PkgBaseUrl) (pkg base : Bytes) where
  abbrev with_flag : Bool → Bytes → Option PkgBaseUrl
  with_flag x = put_base_url urls pkg (record { base_url = base; apply_to_sub_packages = x })

module _ (r : Registry) (pkg url : Bytes) where
  -- The registry with the base URL of the package, for the flag.
  abbrev with_package : Bool → Registry
  with_package x = record r { pkg_base_urls = with_flag r.pkg_base_urls pkg (ensure_scheme url) x }

pub parent_name_shorter : (c : ℕ) (s : Bytes) → length (parent_name (c ∷ s)) ≤ length s
unfolding parent_name
parent_name_shorter c [] = omega arith
parent_name_shorter c (d ∷ s) = elim (Bool-cases (contains_dot (d ∷ s))) [
  | inl e ↦ rw e (omega (arith, parent_name_shorter d s))
  | inr e ↦ rw e (omega arith)
]

loop-fuel :
    (urls : Bytes → Option PkgBaseUrl) (x : Bool) (m n : ℕ) (p : Bytes)
    → length p < m
    → length p < n
    → registrations_loop m urls x p ≡ registrations_loop n urls x p
unfolding registrations_loop is_empty
loop-fuel urls x zero n p lm ln = absurd (omega (arith, lm))
loop-fuel urls x (suc m) zero p lm ln = absurd (omega (arith, ln))
loop-fuel urls x (suc m) (suc n) [] lm ln = refl
loop-fuel urls x (suc m) (suc n) (c ∷ s) lm ln =
    ap
      (λ more. elim (urls (c ∷ s)) as (λ _. Bytes) [
        | none ↦ more
        | some entry ↦
            if (if x then entry.apply_to_sub_packages else true) then entry.base_url else more
      ])
      (loop-fuel urls x m n (parent_name (c ∷ s)) (omega (arith, lm, parent_name_shorter c s))
        (omega (arith, ln, parent_name_shorter c s)))

-- One round of the search, which its fuel is enough for.
pub base_url_from_registrations_result :
    (r : Registry)
    → (base_url_from_registrations r [] ≡ [])
      × ((c : ℕ) (s : Bytes)
          → base_url_from_registrations r (c ∷ s)
            ≡ (elim (r.pkg_base_urls (c ∷ s)) as (λ _. Bytes) [
              | none ↦ base_url_from_registrations r (parent_name (c ∷ s))
              | some entry ↦ entry.base_url
            ]))
unfolding base_url_from_registrations registrations_loop is_empty
base_url_from_registrations_result r = (
  refl,
  λ c s.
      ap
        (λ more. elim (r.pkg_base_urls (c ∷ s)) as (λ _. Bytes) [
          | none ↦ more
          | some entry ↦ entry.base_url
        ])
        (loop-fuel r.pkg_base_urls false (suc (length s)) (suc (length (parent_name (c ∷ s))))
          (parent_name (c ∷ s)) (omega (arith, parent_name_shorter c s)) (omega arith)),
)
