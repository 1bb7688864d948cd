-- ===== src/Parser.antt =====
-- src/parser: tokens and the lexer.
pub mod Token
pub mod Lexer
pub mod Ast
pub mod Sql
