-- ===== src/ByteSearch.antt =====
-- The table `byte_search` of src/lib/src/entities_tables.cpp: its patterns, the windows and regions
-- that it searches, and the scan over pages of bytes.
pub mod Pattern
pub mod Regions
pub mod Scan
pub mod Complete
