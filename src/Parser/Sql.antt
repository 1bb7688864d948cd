-- ===== src/Parser/Sql.antt =====
-- src/parser/parser.rs: `parse`, which runs the lexer on a text and the parser on its tokens. The parser
-- of tokens is a parameter, and so is `str::chars`.
pub mod Debug
use sql.Common.{ℕ, suc, List, Option, none, some, length}
use sql.Common.Bytes.{Bytes}
use sql.Common.Result.{Result, ok, err}
use sql.Parser.Token.{Token}
use sql.Parser.Lexer.{Std, LexError, tokenize}
use sql.Parser.Ast.{Statement}

-- Where `parse` fails. The lexer's loop never runs out of the fuel it is given here.
pub data SqlError (E : Type 0) : Type 0 where
  lexing : LexError → SqlError E
  parsing : E → SqlError E
  unfinished : SqlError E

module _ {E : Type 0} where
  unfoldable pub parsed : Result E (List Statement) → Result (SqlError E) (List Statement)
  parsed (ok statements) = ok statements
  parsed (err e) = err (parsing e)

  unfoldable pub parse_tokens :
      (List Token → Result E (List Statement))
      → Option (Result LexError (List Token))
      → Result (SqlError E) (List Statement)
  unfolding parsed
  parse_tokens parser none = err unfinished
  parse_tokens parser (some (err e)) = err (lexing e)
  parse_tokens parser (some (ok tokens)) = parsed (parser tokens)

  unfoldable pub parse :
      Std
      → (Bytes → List ℕ)
      → (List Token → Result E (List Statement))
      → Bytes
      → Result (SqlError E) (List Statement)
  unfolding parse_tokens
  parse std chars parser sql =
      parse_tokens parser (tokenize std (suc (length (chars sql))) (chars sql))
