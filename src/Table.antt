-- ===== src/Table.antt =====
-- src/table: schemas, rows, rows as bytes, and tables of rows.
pub mod Schema
pub mod Row
pub mod Serialize
pub mod Rows
