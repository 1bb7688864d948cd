-- ===== src/Parser/Lexer.antt =====
-- src/parser/lexer.rs: the lexer. Its state is the rest of the input, from `pos` on: `peek` is the
-- first of the rest, `advance` drops it.
pub mod Progress
pub mod Spelling
pub mod Tables
pub mod RoundTrip
use sql.Common.{
  take_while, ℕ, zero, suc, ◌+◌, ◌*◌, ◌-◌, ◌^◌, List, [], ◌∷◌, ◌++◌, Bool, true, false, ◌&&◌, ◌||◌,
  Option, none, some, ◌==◌, ltb, leb, if◌then◌else◌,
}
use sql.Common.Int.{ℤ, pos}
use sql.Common.Result.{Result, ok, err}
use mathlib.Core.Option
use sql.Parser.Token.{
  Token, is_eof, keywords, find_keyword, ident, lit_int, lit_float, lit_str, l_paren, r_paren,
  comma, semicolon, dot, plus, minus, star, slash, percent, eq, lt, lt_eq, gt, gt_eq, not_eq,
  concat, eof,
}

pub data LexError : Type 0 where
  unexpected_character : ℕ → LexError
  expected_concat unterminated_string unterminated_quoted_identifier : LexError
  invalid_float invalid_integer : List ℕ → LexError

-- What the lexer calls of the standard library: the methods of `char`, `str::to_uppercase`, and the
-- parser of floats, which gives a bit pattern.
pub record Std : Type 0 where
  pub is_whitespace : ℕ → Bool
  pub is_alphabetic : ℕ → Bool
  pub is_alphanumeric : ℕ → Bool
  pub to_uppercase : List ℕ → List ℕ
  pub parse_float : List ℕ → Option ℕ

unfoldable pub is_ascii_digit : ℕ → Bool
is_ascii_digit c = leb b'0' c && leb c b'9'

-- `self.peek() == Some(c)`.
unfoldable pub peek_is : ℕ → List ℕ → Bool
peek_is c [] = false
peek_is c (d ∷ s) = d == c

unfoldable pub peek_digit : List ℕ → Bool
unfolding is_ascii_digit
peek_digit [] = false
peek_digit (d ∷ s) = is_ascii_digit d

abbrev pub Lexed : Type 0
Lexed = Result LexError (Token × List ℕ)

-- `lex_string` behind the opening quote; `acc` is `s`.
unfoldable pub string_body : List ℕ → List ℕ → Lexed
string_body acc [] = err unterminated_string
string_body acc (c ∷ []) = if c == b'\'' then ok (lit_str acc, []) else err unterminated_string
string_body acc (c ∷ d ∷ s) = elim (c == b'\'') [
  | true ↦ elim (d == b'\'') [
    | true ↦ string_body (acc ++ (b'\'' ∷ [])) s
    | false ↦ ok (lit_str acc, d ∷ s)
  ]
  | false ↦ string_body (acc ++ (c ∷ [])) (d ∷ s)
]

-- `lex_quoted_ident` behind the opening quote.
unfoldable pub quoted_body : ℕ → List ℕ → List ℕ → Lexed
quoted_body close acc [] = err unterminated_quoted_identifier
quoted_body close acc (c ∷ s) = elim (c == close) [
  | true ↦ ok (ident acc, s)
  | false ↦ quoted_body close (acc ++ (c ∷ [])) s
]

-- `str::parse::<i64>` of a text of digits, which fails past 2 ^ 63 - 1 and on the empty text.
unfoldable pub digits_value : ℕ → List ℕ → ℕ
digits_value n [] = n
digits_value n (c ∷ s) = digits_value (n * 10 + (c - b'0')) s

unfoldable pub parse_int : List ℕ → Option ℤ
unfolding digits_value
parse_int [] = none
parse_int (c ∷ s) = let n = digits_value 0 (c ∷ s) in if ltb n (2 ^ 63) then some (pos n) else none

abbrev after : Option Token → LexError → List ℕ → Lexed
after none e s = err e
after (some t) e s = ok (t, s)

-- `<`, `>`, `!` and `|`, which look at one more character.
unfoldable pub lex_less : List ℕ → Lexed
lex_less [] = ok (lt, [])
lex_less (c ∷ s) =
    if c == b'=' then ok (lt_eq, s) else if c == b'>' then ok (not_eq, s) else ok (lt, c ∷ s)

unfoldable pub lex_pair : ℕ → Token → Lexed → List ℕ → Lexed
lex_pair q t other [] = other
lex_pair q t other (c ∷ s) = if c == q then ok (t, s) else other

unfoldable pub symbol : ℕ → Option Token
symbol c =
    if c == b'('
    then some l_paren
    else if c == b')'
    then some r_paren
    else if c == b','
    then some comma
    else if c == b';'
    then some semicolon
    else if c == b'.'
    then some dot
    else if c == b'+'
    then some plus
    else if c == b'-'
    then some minus
    else if c == b'*'
    then some star
    else if c == b'/'
    then some slash
    else if c == b'%'
    then some percent
    else if c == b'='
    then some eq
    else none

unfoldable pub symbol_or : Option Token → List ℕ → Lexed → Lexed
symbol_or none s other = other
symbol_or (some t) s other = ok (t, s)

-- What `tokenize` does with the next token; `more` is the loop.
unfoldable pub push_token :
    (List Token → List ℕ → Option (Result LexError (List Token)))
    → List Token
    → Lexed
    → Option (Result LexError (List Token))
unfolding is_eof
push_token more tokens (err e) = some (err e)
push_token more tokens (ok (tok, rest)) =
    if is_eof tok then some (ok (tokens ++ (tok ∷ []))) else more (tokens ++ (tok ∷ [])) rest

module _ (std : Std) where
  -- The loop that skips blanks and comments; the flag says that it stands in a comment. The newline
  -- behind a comment is looked at again by the outer loop.
  unfoldable pub skip : Bool → List ℕ → List ℕ
  unfolding peek_is
  skip inside [] = []
  skip true (c ∷ s) = elim (c == b'\n') [
    | true ↦ elim (std.is_whitespace c) [ true ↦ skip false s | false ↦ c ∷ s ]
    | false ↦ skip true s
  ]
  skip false (c ∷ s) = elim (std.is_whitespace c) [
    | true ↦ skip false s
    | false ↦ elim ((c == b'-') && peek_is b'-' s) [ true ↦ skip true s | false ↦ c ∷ s ]
  ]

  unfoldable pub keyword : List ℕ → Option Token
  unfolding find_keyword
  keyword s = find_keyword (std.to_uppercase s) keywords

  float_token : List ℕ → List ℕ → Lexed
  float_token text rest =
      after (Option.map lit_float (std.parse_float text)) (invalid_float text) rest

  -- `lex_number` behind the first run of digits, which is `text`.
  unfoldable pub number_end : List ℕ → List ℕ → Lexed
  unfolding take_while is_ascii_digit peek_digit parse_int float_token
  number_end text [] = after (Option.map lit_int (parse_int text)) (invalid_integer text) []
  number_end text (c ∷ rest) = elim ((c == b'.') && peek_digit rest) [
    | true ↦
        let fraction = take_while is_ascii_digit rest in
        float_token (text ++ (c ∷ fraction.0)) fraction.1
    | false ↦ after (Option.map lit_int (parse_int text)) (invalid_integer text) (c ∷ rest)
  ]

  unfoldable pub lex_number : List ℕ → Lexed
  unfolding take_while number_end
  lex_number s = let whole = take_while is_ascii_digit s in number_end whole.0 whole.1

  is_ident_char : ℕ → Bool
  is_ident_char c = std.is_alphanumeric c || (c == b'_')

  word_token : Option Token → List ℕ → Token
  word_token none s = ident s
  word_token (some t) s = t

  unfoldable pub lex_ident : List ℕ → Lexed
  unfolding take_while keyword is_ident_char word_token
  lex_ident s =
      let word = take_while is_ident_char s in ok (word_token (keyword word.0) word.0, word.1)

  -- The arms of the `match` on the first character, behind those of `symbol`.
  unfoldable pub lex_other : ℕ → List ℕ → Lexed
  unfolding lex_less lex_pair string_body quoted_body lex_number lex_ident
  lex_other c s =
      if c == b'<'
      then lex_less s
      else if c == b'>'
      then lex_pair b'=' gt_eq (ok (gt, s)) s
      else if c == b'!'
      then lex_pair b'=' not_eq (err (unexpected_character b'!')) s
      else if c == b'|'
      then lex_pair b'|' concat (err expected_concat) s
      else if c == b'\''
      then string_body [] s
      else if (c == b'`') || (c == b'"')
      then quoted_body (if c == b'`' then b'`' else b'"') [] s
      else if is_ascii_digit c
      then lex_number (c ∷ s)
      else if std.is_alphabetic c || (c == b'_')
      then lex_ident (c ∷ s)
      else err (unexpected_character c)

  unfoldable pub lex_char : ℕ → List ℕ → Lexed
  unfolding symbol symbol_or lex_other
  lex_char c s = symbol_or (symbol c) s (lex_other c s)

  lex_rest : List ℕ → Lexed
  unfolding lex_char
  lex_rest [] = ok (eof, [])
  lex_rest (c ∷ s) = lex_char c s

  unfoldable pub next_token : List ℕ → Lexed
  unfolding skip lex_rest
  next_token s = lex_rest (skip false s)

  -- `loop` of `tokenize` on fuel, whose end gives the outer `none`; `tokens` is what was pushed.
  unfoldable pub tokenize_loop : ℕ → List Token → List ℕ → Option (Result LexError (List Token))
  unfolding next_token push_token
  tokenize_loop zero tokens s = none
  tokenize_loop (suc fuel) tokens s = push_token (tokenize_loop fuel) tokens (next_token s)

  unfoldable pub tokenize : ℕ → List ℕ → Option (Result LexError (List Token))
  unfolding tokenize_loop
  tokenize fuel s = tokenize_loop fuel [] s
