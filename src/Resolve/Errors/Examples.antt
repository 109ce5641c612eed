-- ===== src/Resolve/Errors/Examples.antt =====
-- The error for a message and for an enum that were found where a service was expected.
use protoreflect.Common.{◌≡◌, refl, Bytes, [], ◌++◌, codes}
use protoreflect.Descriptor.{Descriptor, file, message, enum}
use protoreflect.Descriptor.Kind.{kind_service, with_article}
use protoreflect.Resolve.Errors.{
  new_unexpected_type_error, error_text, query_kind, query_of, queried_name,
}
use protoreflect.Resolve.Errors.Blind.{error_text-new_unexpected_type_error}

abbrev in_quotes : Bytes → Bytes
in_quotes s = codes "\"" ++ s ++ codes "\""

abbrev same_name : Descriptor → Bytes
same_name _ = codes "a.B"

a_message_found :
    error_text in_quotes (
      new_unexpected_type_error same_name kind_service
        (message (file (codes "f")) 0 (codes "B"))
        [])
    ≡ codes "wrong kind of descriptor for name \"a.B\": expected a service, got unknown"
unfolding error_text new_unexpected_type_error query_kind query_of queried_name with_article
a_message_found = refl

error_text-new_unexpected_type_error_example :
    error_text in_quotes (
      new_unexpected_type_error same_name kind_service
        (message (file (codes "f")) 0 (codes "B"))
        [])
    ≡ error_text in_quotes (
        new_unexpected_type_error same_name kind_service (enum (file (codes "f")) 0 (codes "B")) [])
error_text-new_unexpected_type_error_example =
    error_text-new_unexpected_type_error in_quotes same_name kind_service
      (message (file (codes "f")) 0 (codes "B")) (enum (file (codes "f")) 0 (codes "B")) [] refl
