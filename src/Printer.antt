-- ===== src/Printer.antt =====
-- protoprint: printing descriptors as .proto source.
pub mod Position
pub mod Item
pub mod Order
pub mod Element
pub mod Custom
pub mod Extras
pub mod Qualify
