-- ===== src/Remote/Urls.antt =====
-- protoresolve/remotereg/remote_registry.go: the type URL of a name, and TypeNameFromURL of
-- protoresolve/helpers.go.
pub mod Names
pub mod Nearest
pub mod Examples
use protoreflect.Common.{
  ℕ, zero, suc, Bool, true, false, ◌||◌, Option, none, some, List, [], ◌∷◌, ◌++◌, Bytes, codes,
  ◌==◌, if◌then◌else◌, length, bytes_eq, has_prefix,
}
use protoreflect.Remote.Options.{contains_dot}

-- pkgBaseURL
pub record PkgBaseUrl : Type 0 where
  pub base_url : Bytes
  pub apply_to_sub_packages : Bool

-- What the Registry has for URLs. The cache has the full name of the descriptor under each URL.
pub record Registry : Type 0 where
  pub type_urls : Bytes → Option Bytes
  pub type_cache : Bytes → Option Bytes
  pub pkg_base_urls : Bytes → Option PkgBaseUrl
  pub package_base_url_mapper : Option (Bytes → Bytes)
  pub default_base_url : Bytes

-- FullName.Parent: what is in front of the last dot, or nothing
unfoldable pub parent_name : Bytes → Bytes
unfolding contains_dot
parent_name [] = []
parent_name (c ∷ s) = let rest = parent_name s in if contains_dot s then c ∷ rest else []

unfoldable pub is_empty : Bytes → Bool
is_empty [] = true
is_empty (c ∷ s) = false

-- The loop of baseURLFromRegistrationsLocked, whose variable `ancestor` is the third argument.
unfoldable pub registrations_loop : ℕ → (Bytes → Option PkgBaseUrl) → Bool → Bytes → Bytes
unfolding parent_name is_empty
registrations_loop zero urls ancestor pkg = []
registrations_loop (suc fuel) urls ancestor pkg =
    let more = registrations_loop fuel urls ancestor (parent_name pkg) in
    let here : Bytes = elim (urls pkg) [
      | none ↦ more
      | some entry ↦
          if (if ancestor then entry.apply_to_sub_packages else true) then entry.base_url else more
    ] in
    if is_empty pkg then [] else here

-- baseURLFromRegistrationsLocked, with fuel for each byte of the package and one round more
unfoldable pub base_url_from_registrations : Registry → Bytes → Bytes
unfolding registrations_loop
base_url_from_registrations r pkg = registrations_loop (suc (length pkg)) r.pkg_base_urls false pkg

-- urlFromRegistrations
unfoldable pub url_from_registrations : Registry → Bytes → Bytes → Bytes
unfolding base_url_from_registrations is_empty
url_from_registrations r type_name pkg_name =
    let base = base_url_from_registrations r pkg_name in
    elim (r.type_urls type_name) [
      | some url ↦ url
      | none ↦ if is_empty base then [] else base ++ 47 ∷ type_name
    ]

-- The loop of baseURLWithoutRegistrations over the package and its parents, the empty one included.
unfoldable pub mapper_loop : ℕ → (Bytes → Bytes) → Bytes → Bytes
unfolding parent_name is_empty
mapper_loop zero mapper pkg = []
mapper_loop (suc fuel) mapper pkg =
    let more = mapper_loop fuel mapper (parent_name pkg) in
    let url = mapper pkg in if is_empty url then if is_empty pkg then [] else more else url

-- defaultBaseURL
abbrev pub default_url : Bytes
default_url = codes "type.googleapis.com"

-- baseURLWithoutRegistrations
unfoldable pub base_url_without_registrations : Registry → Bytes → Bytes
unfolding mapper_loop is_empty
base_url_without_registrations r pkg =
    let default : Bytes = if is_empty r.default_base_url then default_url else r.default_base_url in
    elim r.package_base_url_mapper [
      | none ↦ default
      | some mapper ↦
          let mapped = mapper_loop (suc (length pkg)) mapper pkg in
          if is_empty mapped then default else mapped
    ]

-- urlForType
unfoldable pub url_for_type : Registry → Bytes → Bytes → Bytes
unfolding url_from_registrations base_url_without_registrations is_empty
url_for_type r type_name pkg_name =
    let url = url_from_registrations r type_name pkg_name in
    if is_empty url then base_url_without_registrations r pkg_name ++ 47 ∷ type_name else url

unfoldable pub contains_slash : Bytes → Bool
contains_slash [] = false
contains_slash (c ∷ s) = c == 47 || contains_slash s

-- TypeNameFromURL: what is behind the last slash, or everything
unfoldable pub type_name_from_url : Bytes → Bytes
unfolding contains_slash
type_name_from_url [] = []
type_name_from_url (c ∷ s) =
    let rest = type_name_from_url s in
    if contains_slash s then rest else if c == 47 then s else c ∷ s

-- An entry of the map of base URLs.
unfoldable pub put_base_url :
    (Bytes → Option PkgBaseUrl) → Bytes → PkgBaseUrl → Bytes → Option PkgBaseUrl
put_base_url urls pkg entry name = if bytes_eq name pkg then some entry else urls name

-- baseURL
unfoldable pub base_url : Registry → Bytes → Bytes
unfolding base_url_from_registrations base_url_without_registrations is_empty
base_url r pkg =
    let registered = base_url_from_registrations r pkg in
    if is_empty registered then base_url_without_registrations r pkg else registered

-- strings.Index(url, "://") >= 0
unfoldable pub has_scheme : Bytes → Bool
unfolding has_prefix
has_scheme [] = false
has_scheme (c ∷ s) = has_prefix (c ∷ s) (codes "://") || has_scheme s

-- ensureScheme
unfoldable pub ensure_scheme : Bytes → Bytes
unfolding has_scheme
ensure_scheme url = if has_scheme url then url else codes "https://" ++ url

-- RegisterPackageBaseURL: the registry behind it, the previous base URL, and whether the package was
-- registered.
unfoldable pub register_package_base_url : Registry → Bytes → Bytes → Bool → Registry × Bytes × Bool
unfolding ensure_scheme put_base_url base_url
register_package_base_url r pkg url include_sub_packages =
    let entry : PkgBaseUrl = record {
      base_url = ensure_scheme url;
      apply_to_sub_packages = include_sub_packages;
    } in
    let r' : Registry = record r { pkg_base_urls = put_base_url r.pkg_base_urls pkg entry } in
    elim (r.pkg_base_urls pkg) [
      | none ↦ (r', base_url r pkg, false)
      | some previous ↦ (r', previous.base_url, true)
    ]
