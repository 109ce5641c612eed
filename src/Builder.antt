-- ===== src/Builder.antt =====
-- protobuilder: builders that are assembled into a tree and then built into descriptors.
pub mod Enum
pub mod Numbers
pub mod Service
pub mod Message
