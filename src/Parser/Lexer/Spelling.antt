-- ===== src/Parser/Lexer/Spelling.antt =====
-- How tokens are written, and what the lexer relies on in the standard library for ASCII.
use sql.Common.{
  ℕ, List, [], ◌∷◌, ◌++◌, Bool, true, false, ◌&&◌, ◌||◌, ◌==◌, leb, if◌then◌else◌, ◌≡◌, ◌≢◌, ◌^◌,
  ◌<◌, All, none, some, get_elem?,
}
use sql.Common.Bytes.{codes}
use sql.Common.Int.{pos}
use sql.Parser.Token.{
  Token, keywords, find_keyword, ident, lit_int, lit_str, l_paren, r_paren, comma, semicolon, dot,
  plus, minus, star, slash, percent, eq, lt, lt_eq, gt, gt_eq, not_eq, concat,
}
use sql.Parser.Lexer.{Std, is_ascii_digit, digits_value}

unfoldable pub is_letter : ℕ → Bool
is_letter c = (leb b'A' c && leb c b'Z') || (leb b'a' c && leb c b'z')

unfoldable pub is_visible : ℕ → Bool
is_visible c = leb 33 c && leb c 126

-- The blank is white space and no visible ASCII character is; letters are letters.
pub record IsAscii (std : Std) : Type 0 where
  pub blank_is_space : std.is_whitespace b' ' ≡ true
  pub blank_in_no_word : std.is_alphanumeric b' ' ≡ false
  pub visible_is_no_space : (c : ℕ) → is_visible c ≡ true → std.is_whitespace c ≡ false
  pub letter_starts_word : (c : ℕ) → is_letter c ≡ true → std.is_alphabetic c ≡ true
  pub letter_in_word : (c : ℕ) → is_letter c ≡ true → std.is_alphanumeric c ≡ true

abbrev pub symbols : List (List ℕ × Token)
symbols =
    (codes "(", l_paren)
    ∷ (codes ")", r_paren)
    ∷ (codes ",", comma)
    ∷ (codes ";", semicolon)
    ∷ (codes ".", dot)
    ∷ (codes "+", plus)
    ∷ (codes "-", minus)
    ∷ (codes "*", star)
    ∷ (codes "/", slash)
    ∷ (codes "%", percent)
    ∷ (codes "=", eq)
    ∷ (codes "<", lt)
    ∷ (codes "<=", lt_eq)
    ∷ (codes "<>", not_eq)
    ∷ (codes "!=", not_eq)
    ∷ (codes ">", gt)
    ∷ (codes ">=", gt_eq)
    ∷ (codes "||", concat)
    ∷ []

-- A text between quotes has its quotes doubled.
unfoldable pub escape : List ℕ → List ℕ
escape [] = []
escape (c ∷ s) = if c == b'\'' then b'\'' ∷ b'\'' ∷ escape s else c ∷ escape s

module _ (std : Std) where
  pub data Spells : List ℕ → Token → Type 0 where
    punctuation : (i : ℕ) {w : List ℕ} {t : Token} → get_elem? symbols i ≡ some (w, t) → Spells w t
    string_literal : (s : List ℕ) → Spells (b'\'' ∷ (escape s ++ (b'\'' ∷ []))) (lit_str s)
    quoted : (s : List ℕ) → All (λ c. c ≢ b'"') s → Spells (b'"' ∷ (s ++ (b'"' ∷ []))) (ident s)
    integer :
        (c : ℕ) (s : List ℕ)
        → All (λ d. is_ascii_digit d ≡ true) (c ∷ s)
        → digits_value 0 (c ∷ s) < 2 ^ 63
        → Spells (c ∷ s) (lit_int (pos (digits_value 0 (c ∷ s))))
    reserved :
        (i c : ℕ) (s : List ℕ) {t : Token}
        → All (λ d. is_letter d ≡ true) (c ∷ s)
        → get_elem? keywords i ≡ some (std.to_uppercase (c ∷ s), t)
        → Spells (c ∷ s) t
    plain :
        (c : ℕ) (s : List ℕ)
        → All (λ d. is_letter d ≡ true) (c ∷ s)
        → find_keyword (std.to_uppercase (c ∷ s)) keywords ≡ none
        → Spells (c ∷ s) (ident (c ∷ s))

-- The texts, each with a blank behind it.
unfoldable pub unwords : List (List ℕ × Token) → List ℕ
unwords [] = []
unwords ((w, t) ∷ ps) = w ++ (b' ' ∷ unwords ps)
