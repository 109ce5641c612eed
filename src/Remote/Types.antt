-- ===== src/Remote/Types.antt =====
-- protoresolve/remotereg/remote_registry.go: types registered under their URLs.
use protoreflect.Common.{
  ◌≡◌, refl, sym, ap, ◌∙◌, subst, true, false, Option, none, some, [], ◌∷◌, ◌++◌, Bytes, codes,
  if◌then◌else◌, bytes_eq, bytes_eq_sound, bytes_eq_refl, is_some, Bool-cases, inl, inr, arith,
}
use protoreflect.Remote.Urls.{
  Registry, url_for_type, contains_slash, type_name_from_url, has_scheme, ensure_scheme,
}
use protoreflect.Remote.Urls.Names.{type_name_from_url-url_for_type, type_name-append}

-- Why checkTypeLocked refuses.
pub data RegistryError : Type 0 where
  type_registered : RegistryError
  url_registered : RegistryError

-- checkTypeLocked
unfoldable pub check_type : Registry → Bytes → Bytes → Option RegistryError
check_type r name url =
    if is_some (r.type_urls name)
    then some type_registered
    else if is_some (r.type_cache url)
    then some url_registered
    else none

unfoldable pub put_text : (Bytes → Option Bytes) → Bytes → Bytes → Bytes → Option Bytes
put_text m key value k = if bytes_eq k key then some value else m k

-- RegisterMessageWithURL and RegisterEnumWithURL, behind ensureScheme
unfoldable pub register_checked : Registry → Bytes → Bytes → Registry × Option RegistryError
unfolding check_type put_text
register_checked r name url = elim (check_type r name url) [
  | some e ↦ (r, some e)
  | none ↦ (
    record r {
      type_urls = put_text r.type_urls name url;
      type_cache = put_text r.type_cache url name;
    },
    none,
  )
]

-- RegisterMessageWithURL and RegisterEnumWithURL
unfoldable pub register_with_url : Registry → Bytes → Bytes → Registry × Option RegistryError
unfolding register_checked ensure_scheme
register_with_url r name url = register_checked r name (ensure_scheme url)

-- RegisterMessage and RegisterEnum, on the name and the package of the type
unfoldable pub register_type : Registry → Bytes → Bytes → Registry × Option RegistryError
unfolding register_with_url url_for_type
register_type r name pkg = register_with_url r name (url_for_type r name pkg)

-- Each registered type has its URL in the cache, which ends in its name.
pub record UrlsHold (r : Registry) : Type 0 where
  pub ends : (name url : Bytes) → r.type_urls name ≡ some url → type_name_from_url url ≡ name
  pub cached : (name url : Bytes) → r.type_urls name ≡ some url → r.type_cache url ≡ some name

slash_behind : (p u : Bytes) → contains_slash u ≡ true → contains_slash (p ++ u) ≡ true
unfolding contains_slash
slash_behind [] u e = e
slash_behind (c ∷ p) u e = ground (arith, slash_behind p u e)

name_behind :
    (p u : Bytes) → contains_slash u ≡ true → type_name_from_url (p ++ u) ≡ type_name_from_url u
unfolding type_name_from_url
name_behind [] u e = refl
name_behind (c ∷ p) u e = rw (slash_behind p u e) (name_behind p u e)

no_slash_name : (u : Bytes) → contains_slash u ≡ false → type_name_from_url u ≡ u
unfolding contains_slash type_name_from_url
no_slash_name [] e = refl
no_slash_name (c ∷ s) e = ground (arith, e)

-- The scheme does not change the name, not even where there is no slash.
ensure_scheme-name : (u : Bytes) → type_name_from_url (ensure_scheme u) ≡ type_name_from_url u
unfolding ensure_scheme
ensure_scheme-name u = elim (Bool-cases (has_scheme u)) [
  | inl e ↦ rw e refl
  | inr e ↦ elim (Bool-cases (contains_slash u)) [
    | inl slash ↦ rw e (name_behind (codes "https://") u slash)
    | inr plain ↦ rw e (type_name-append (codes "https:/") u plain ∙ sym (no_slash_name u plain))
  ]
]

checked-none :
    (r : Registry) (name url : Bytes)
    → check_type r name url ≡ none
    → (r.type_urls name ≡ none) × (r.type_cache url ≡ none)
unfolding check_type
checked-none r name url e = by_both (r.type_urls name) (r.type_cache url) e
  where
    by_both :
        (a b : Option Bytes)
        → (if is_some a
            then some type_registered
            else if is_some b
            then some url_registered
            else none)
          ≡ none
        → (a ≡ none) × (b ≡ none)
    by_both none none x = (refl, refl)
    by_both none (some b) x = absurd (ground (arith, x))
    by_both (some a) b x = absurd (ground (arith, x))

module _ (r : Registry) (name url : Bytes) (t : UrlsHold r)
    (named : type_name_from_url url ≡ name) where
  put-UrlsHold :
      r.type_cache url ≡ none
      → UrlsHold (record r {
        type_urls = put_text r.type_urls name url;
        type_cache = put_text r.type_cache url name;
      })
  unfolding put_text
  put-UrlsHold fresh = record {
    ends = λ n u e. elim (Bool-cases (bytes_eq n name)) [
      | inl at ↦
          ap type_name_from_url (ground (arith, e, at)) ∙ named ∙ sym (bytes_eq_sound n name at)
      | inr other ↦ t.ends n u (ground (arith, e, other))
    ];
    cached = λ n u e. elim (Bool-cases (bytes_eq n name)) [
      | inl at ↦
          let u_at : url ≡ u = ground (arith, e, at) in
          subst (λ v. put_text r.type_cache url name v ≡ some n) u_at
            (rw (bytes_eq_refl url) (ap some (sym (bytes_eq_sound n name at))))
      | inr other ↦
          let old : r.type_cache u ≡ some n = t.cached n u (ground (arith, e, other)) in
          elim (Bool-cases (bytes_eq u url)) [
            | inl same ↦
                absurd
                  (ground (arith, sym old ∙ ap r.type_cache (bytes_eq_sound u url same) ∙ fresh))
            | inr apart ↦ rw apart old
          ]
    ];
  }

  register_checked-UrlsHold : UrlsHold (register_checked r name url).0
  unfolding register_checked
  register_checked-UrlsHold = by_check (check_type r name url) refl
    where
      by_check :
          (o : Option RegistryError)
          → check_type r name url ≡ o
          → UrlsHold
              (elim o as (λ _. Registry × Option RegistryError) [
                | some e ↦ (r, some e)
                | none ↦ (
                  record r {
                    type_urls = put_text r.type_urls name url;
                    type_cache = put_text r.type_cache url name;
                  },
                  none,
                )
              ]).0
      by_check (some e) x = t
      by_check none x = put-UrlsHold ((checked-none r name url x).1)

-- RegisterMessage and RegisterEnum keep the registry's types and URLs together, whether they are refused
-- or not: each registered type has a URL that ends in its name and that leads back to it. The name has
-- no slash.
pub register_type-UrlsHold :
    (r : Registry) (name pkg : Bytes)
    → UrlsHold r
    → contains_slash name ≡ false
    → UrlsHold (register_type r name pkg).0
unfolding register_type register_with_url
register_type-UrlsHold r name pkg t plain =
    register_checked-UrlsHold r name (ensure_scheme (url_for_type r name pkg)) t (
      ensure_scheme-name (url_for_type r name pkg)
      ∙ type_name_from_url-url_for_type r name pkg plain (t.ends name))
