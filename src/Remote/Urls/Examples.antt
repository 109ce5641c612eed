-- ===== src/Remote/Urls/Examples.antt =====
-- Runs of the type URLs of protoresolve/remotereg/remote_registry.go, and the theorems at these inputs.
use protoreflect.Common.{◌⊎◌, ◌≡◌, refl, false, none, [], Bytes, codes, bytes_eq, has_prefix, arith}
use protoreflect.Remote.Options.{contains_dot}
use protoreflect.Remote.Types.{register_type, UrlsHold, register_type-UrlsHold}
use protoreflect.Remote.Urls.{
  PkgBaseUrl, Registry, parent_name, is_empty, registrations_loop, base_url_from_registrations,
  url_from_registrations, url_for_type, contains_slash, type_name_from_url, put_base_url, base_url,
  has_scheme, ensure_scheme, register_package_base_url,
}
use protoreflect.Remote.Urls.Nearest.{
  IsNearest, NoneEncloses, base_url_from_registrations-IsNearest,
}
use protoreflect.Remote.Urls.Names.{type_name_from_url-url_for_type}

abbrev pub registry : Registry
registry = record {
  type_urls = λ _. none;
  type_cache = λ _. none;
  pkg_base_urls = λ _. none;
  package_base_url_mapper = none;
  default_base_url = [];
}

-- The registry where the package `a` has the base URL `https://b`, without its sub-packages.
abbrev with_a : Registry
with_a = (register_package_base_url registry (codes "a") (codes "b") false).0

-- A type in a sub-package gets this base URL all the same.
sub_package : url_for_type with_a (codes "a.c.M") (codes "a.c") ≡ codes "https://b/a.c.M"
unfolding url_for_type url_from_registrations base_url_from_registrations registrations_loop
    parent_name is_empty contains_dot register_package_base_url put_base_url base_url ensure_scheme
    has_scheme has_prefix bytes_eq
sub_package = refl

abbrev pub with_base : Registry
with_base = record registry { default_base_url = codes "https://x.y/z" }

type_name_from_url-url_for_type_example :
    type_name_from_url (url_for_type with_base (codes "a.c.M") (codes "a.c")) ≡ codes "a.c.M"
type_name_from_url-url_for_type_example =
    type_name_from_url-url_for_type with_base (codes "a.c.M") (codes "a.c")
      (unfold contains_slash in refl) (λ url e. absurd (ground (arith, e)))

base_url_from_registrations-IsNearest_example :
    ((p : Bytes) × (entry : PkgBaseUrl) × IsNearest with_a (codes "a.c") p entry
      × (base_url_from_registrations with_a (codes "a.c") ≡ entry.base_url))
    ⊎ (NoneEncloses with_a (codes "a.c") × (base_url_from_registrations with_a (codes "a.c") ≡ []))
base_url_from_registrations-IsNearest_example =
    base_url_from_registrations-IsNearest with_a (codes "a.c")

register_type-UrlsHold_example : UrlsHold (register_type with_base (codes "a.M") (codes "a")).0
register_type-UrlsHold_example =
    register_type-UrlsHold with_base (codes "a.M") (codes "a")
      (record {
        ends = λ n u e. absurd (ground (arith, e));
        cached = λ n u e. absurd (ground (arith, e));
      })
      (unfold contains_slash in refl)
