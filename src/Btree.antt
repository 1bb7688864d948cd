-- ===== src/Btree.antt =====
-- src/btree: nodes and their keys, and the B+tree.
pub mod Node
pub mod Tree
