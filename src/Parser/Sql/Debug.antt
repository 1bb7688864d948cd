-- ===== src/Parser/Sql/Debug.antt =====
-- src/parser/lexer.rs on the text that the derived Debug writes for a SELECT.
use sql.Common.{ℕ, suc, List, [], ◌∷◌, ◌++◌, some, false, ◌≡◌, refl, ap, ◌∙◌, arith, chars_eq}
use sql.Common.Bytes.{Bytes, codes}
use sql.Common.Result.{Result, err}
use sql.Parser.Token.{Token, ident, find_keyword}
use sql.Parser.Ast.{Statement}
use sql.Parser.Lexer.{
  Std, tokenize, tokenize_loop, next_token, push_token, lex_char, lex_other, symbol_or,
  unexpected_character,
}
use sql.Parser.Lexer.Spelling.{IsAscii, Spells, plain, is_visible, is_letter}
use sql.Parser.Lexer.RoundTrip.{Spells-lexed, loop-blank, skip_visible, symbol-none, not_digit}
use sql.Parser.Sql.{lexing, parse}

-- The upper case of the one word that matters here, and a brace that is no letter.
pub record KnowsSelect (std : Std) : Type 0 where
  pub ascii : IsAscii std
  pub upper : std.to_uppercase (codes "SelectStmt") ≡ codes "SELECTSTMT"
  pub brace_is_no_letter : std.is_alphabetic b'{' ≡ false

brace_lexed :
    (std : Std) (s : List ℕ)
    → KnowsSelect std
    → next_token std (b'{' ∷ s) ≡ err (unexpected_character b'{')
unfolding lex_char lex_other symbol_or is_visible
brace_lexed std s k =
    skip_visible std b'{' s k.ascii refl refl
    ∙ rw (symbol-none b'{' (omega arith), not_digit b'{' (omega arith), k.brace_is_no_letter) refl

word-Spells :
    (std : Std) → KnowsSelect std → Spells std (codes "SelectStmt") (ident (codes "SelectStmt"))
unfolding is_letter find_keyword chars_eq
word-Spells std k =
    plain b'S' (codes "electStmt")
      (refl, (refl, (refl, (refl, (refl, (refl, (refl, (refl, (refl, (refl, tt))))))))))
      (rw k.upper refl)

tokenize-debug_text :
    (std : Std) (fuel : ℕ) (rest : List ℕ)
    → KnowsSelect std
    → tokenize std (suc (suc fuel)) (codes "SelectStmt" ++ (b' ' ∷ (b'{' ∷ rest)))
      ≡ some (err (unexpected_character b'{'))
unfolding tokenize tokenize_loop push_token
tokenize-debug_text std fuel rest k =
    let w = codes "SelectStmt" in
    let spells = word-Spells std k in
    ap (push_token (tokenize_loop std (suc fuel)) [])
      (Spells-lexed std w (ident w) (b'{' ∷ rest) k.ascii spells)
    ∙ loop-blank std (suc fuel) (ident w ∷ []) (b'{' ∷ rest) k.ascii
    ∙ ap (push_token (tokenize_loop std fuel) (ident w ∷ [])) (brace_lexed std rest k)

pub parse-debug_text :
    {E : Type 0} (std : Std) (chars : Bytes → List ℕ)
    (parser : List Token → Result E (List Statement)) (sql : Bytes) (rest : List ℕ)
    → KnowsSelect std
    → chars sql ≡ codes "SelectStmt" ++ (b' ' ∷ (b'{' ∷ rest))
    → parse std chars parser sql ≡ err (lexing (unexpected_character b'{'))
unfolding parse
parse-debug_text std chars parser sql rest k e = rw e (rw (tokenize-debug_text std _ rest k) refl)
