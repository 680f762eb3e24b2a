-- ===== src/Tables.antt =====
-- The logic of the SQL tables in src/lib/src/entities_tables.cpp: row ids, the rows that a query
-- keeps, the windows that constraints fold into, the rows behind a table and the writes to them.
pub mod RowIds
pub mod Window
pub mod Instructions
