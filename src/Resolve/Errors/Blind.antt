-- ===== src/Resolve/Errors/Blind.antt =====
-- What the error of protoresolve/errors.go says of the descriptor that was found.
use protoreflect.Common.{◌≡◌, refl, Bytes, [], ◌∷◌}
use protoreflect.Descriptor.{Descriptor}
use protoreflect.Descriptor.Kind.{DescriptorKind}
use protoreflect.Resolve.Errors.{queried_name, new_unexpected_type_error, query_of, error_text}

-- The error for a name that leads to a descriptor of the wrong kind reads the same for any two
-- descriptors of that name, whatever their kinds are: it does not say which kind was found.
pub error_text-new_unexpected_type_error :
    (quote : Bytes → Bytes) (full_name : Descriptor → Bytes) (expecting : DescriptorKind)
    (got other : Descriptor) (url : Bytes)
    → full_name got ≡ full_name other
    → error_text quote (new_unexpected_type_error full_name expecting got url)
      ≡ error_text quote (new_unexpected_type_error full_name expecting other url)
unfolding error_text new_unexpected_type_error query_of queried_name
error_text-new_unexpected_type_error quote full_name expecting got other [] e = rw e refl
error_text-new_unexpected_type_error quote full_name expecting got other (c ∷ url) e = refl
