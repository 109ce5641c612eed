-- ===== src/Resolve.antt =====
-- protoresolve: resolvers of descriptors and types, and searches in descriptors.
pub mod Combine
pub mod Pool
pub mod Symbols
pub mod Errors
