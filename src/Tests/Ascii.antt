-- ===== src/Tests/Ascii.antt =====
-- A standard library for ASCII texts.
use sql.Common.{ℕ, ◌-◌, none, leb, ◌==◌, ◌||◌, ◌&&◌, if◌then◌else◌, map, refl, arith}
use sql.Parser.Lexer.{Std, is_ascii_digit}
use sql.Parser.Lexer.Spelling.{is_letter, is_visible, IsAscii}
use sql.Parser.Sql.Debug.{KnowsSelect}

-- The standard library on ASCII texts of letters, digits and blanks.
abbrev to_upper : ℕ → ℕ
to_upper c = if leb b'a' c && leb c b'z' then c - 32 else c

abbrev pub ascii : Std
ascii = record {
  is_whitespace = λ c. c == b' ';
  is_alphabetic = is_letter;
  is_alphanumeric = λ c. is_letter c || is_ascii_digit c;
  to_uppercase = map to_upper;
  parse_float = λ s. none;
}

pub ascii-IsAscii : IsAscii ascii
unfolding is_letter is_ascii_digit is_visible
ascii-IsAscii = record {
  blank_is_space = refl;
  blank_in_no_word = refl;
  visible_is_no_space = λ c h. ground arith;
  letter_starts_word = λ c h. h;
  letter_in_word = λ c h. ground arith;
}

pub ascii-KnowsSelect : KnowsSelect ascii
unfolding is_letter
ascii-KnowsSelect = record { ascii = ascii-IsAscii; upper = refl; brace_is_no_letter = refl }
