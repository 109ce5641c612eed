-- ===== src/Resolve/Errors.antt =====
-- protoresolve/errors.go: the error for a descriptor of the wrong kind.
pub mod Blind
pub mod Examples
use protoreflect.Common.{Bytes, [], ◌∷◌, ◌++◌, codes}
use protoreflect.Descriptor.{Descriptor}
use protoreflect.Descriptor.Kind.{DescriptorKind, kind_unknown, with_article}

-- ErrUnexpectedType
pub record ErrUnexpectedType : Type 0 where
  pub url : Bytes
  pub name : Bytes
  pub expecting : DescriptorKind
  pub actual : DescriptorKind
  pub descriptor : Descriptor

-- The name that is set when there is no URL
unfoldable pub queried_name : Bytes → Bytes → Bytes
queried_name [] full_name = full_name
queried_name (_ ∷ _) full_name = []

-- NewUnexpectedTypeError; `full_name` is got.FullName(). Actual is not set, which leaves it zero.
unfoldable pub new_unexpected_type_error :
    (Descriptor → Bytes) → DescriptorKind → Descriptor → Bytes → ErrUnexpectedType
unfolding queried_name
new_unexpected_type_error full_name expecting got url = record {
  url = url;
  name = queried_name url (full_name got);
  expecting = expecting;
  actual = kind_unknown;
  descriptor = got;
}

unfoldable pub query_kind : Bytes → Bytes
query_kind [] = codes "name"
query_kind (_ ∷ _) = codes "URL"

unfoldable pub query_of : ErrUnexpectedType → Bytes → Bytes
query_of e [] = e.name
query_of e (c ∷ url) = c ∷ url

-- Error; `quote` is what %q writes
unfoldable pub error_text : (Bytes → Bytes) → ErrUnexpectedType → Bytes
unfolding query_kind query_of with_article
error_text quote e =
    codes "wrong kind of descriptor for "
    ++ query_kind e.url
    ++ codes " "
    ++ quote (query_of e e.url)
    ++ codes ": expected "
    ++ with_article e.expecting
    ++ codes ", got "
    ++ with_article e.actual
