-- ===== src/Descriptor.antt =====
-- The descriptors that the packages read through the interfaces of the Protobuf runtime
-- (protoreflect.Descriptor and its kinds): what the code asks of one is its kind, its parent, its
-- index in the parent and its name. protoresolve/kind.go classifies them.
pub mod Kind
use protoreflect.Common.{ℕ, Bool, Bytes}

-- `absent` is nil.
pub data Descriptor : Type 0 where
  absent : Descriptor
  file : Bytes → Descriptor
  message : Descriptor → ℕ → Bytes → Descriptor
  field : Bool → Descriptor → ℕ → Bytes → Descriptor
  oneof : Descriptor → ℕ → Bytes → Descriptor
  enum : Descriptor → ℕ → Bytes → Descriptor
  enum_value : Descriptor → ℕ → Bytes → Descriptor
  service : Descriptor → ℕ → Bytes → Descriptor
  method : Descriptor → ℕ → Bytes → Descriptor
