-- ===== src/Remote.antt =====
-- protoresolve/remotereg: descriptors converted to the messages of type.proto and api.proto.
pub mod Options
pub mod Urls
pub mod Types
pub mod Fields
