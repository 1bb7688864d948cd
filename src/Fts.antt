-- ===== src/Fts.antt =====
-- src/fts: the tokenizer and the bytes of posting lists.
pub mod Tokenizer
pub mod Postings
