-- ===== src/Memory.antt =====
-- The memory byte stream of src/lib/src/entities_detail.cpp (`MemoryBytesGenerator`): which
-- addresses of a window have a byte, in which pages they are read, and which listed item each
-- belongs to.
pub mod Words
pub mod Spans
pub mod Items
pub mod Regions
pub mod Pages
pub mod Chunk
