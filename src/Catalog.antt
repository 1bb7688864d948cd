-- ===== src/Catalog.antt =====
-- src/catalog: what the catalog records of tables, indexes, views and triggers, and the catalog.
pub mod Meta
pub mod State
