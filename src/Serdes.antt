-- ===== src/Serdes.antt =====
-- common/serdes.hpp and common/byte_order.hpp: cursors that read and write values in a byte order.
pub mod ByteOrder
pub mod Reader
pub mod Writer
pub mod Span
mod Tests
