-- ===== src/Tests/Sql.antt =====
-- Tokens, plans, patterns, constraints and the catalog at work on small inputs.
use sql.Common.{ℕ, List, [], ◌∷◌, ◌++◌, true, some, ◌≡◌, ◌↔◌, refl, arith, map, All}
use sql.Common.Bytes.{codes}
use sql.Common.Int.{pos}
use sql.Common.Result.{ok}
use sql.Tests.Ascii.{ascii, ascii-IsAscii}
use sql.Parser.Token.{Token, eof, kw_select, plus, lit_str, lit_int}
use sql.Parser.Lexer.{tokenize, is_ascii_digit, digits_value}
use sql.Parser.Lexer.Progress.{IsUnicode, EndsInEof, Tokens, tokenize-EndsInEof}
use sql.Parser.Lexer.Spelling.{
  is_letter, Spells, unwords, escape, punctuation, string_literal, integer, reserved,
}
use sql.Parser.Lexer.RoundTrip.{tokenize-unwords}
use sql.Fts.Tokenizer.Slices.{IsSlice, tokenize_text-slices}
use sql.Fts.Tokenizer.{FtsToken, nfkc_lower, tokenize_text}
use sql.Fts.Postings.{PostingList, encode_posting_list, decode_posting_list}
use sql.Fts.Postings.RoundTrip.{decode_posting_list-encode_posting_list}
use sql.Planner.Patterns.{glob_match, like_match}
use sql.Planner.Patterns.Glob.{Globs, glob_match-Globs}
use sql.Planner.Patterns.Like.{Likes, like_match-Likes}

ascii-IsUnicode : IsUnicode ascii
unfolding IsUnicode is_letter is_ascii_digit
ascii-IsUnicode c h = ground arith

abbrev select_text : List ℕ
select_text = codes "SELECT 'it''s' + 12 "

tokenize-EndsInEof_example :
    (r : Tokens) × (tokenize ascii 21 select_text ≡ some r) × EndsInEof [] r
tokenize-EndsInEof_example = tokenize-EndsInEof ascii select_text 21 ascii-IsUnicode (omega arith)

abbrev spelled : List (List ℕ × Token)
spelled =
    (codes "SELECT", kw_select)
    ∷ (codes "'it''s'", lit_str (codes "it's"))
    ∷ (codes "+", plus)
    ∷ (codes "12", lit_int (pos 12))
    ∷ []

spelled-Spells : All (λ p. Spells ascii p.0 p.1) spelled
unfolding is_letter escape digits_value is_ascii_digit
spelled-Spells = (
  reserved 0 b'S' (codes "ELECT") (refl, (refl, (refl, (refl, (refl, (refl, tt)))))) refl,
  (
    string_literal (codes "it's"),
    (punctuation 5 refl, (integer b'1' (codes "2") (refl, (refl, tt)) (omega arith), tt)),
  ),
)

tokenize-unwords_example :
    tokenize ascii 5 (unwords spelled) ≡ some (ok (map (λ p. p.1) spelled ++ (eof ∷ [])))
tokenize-unwords_example =
    tokenize-unwords ascii 5 spelled ascii-IsAscii (omega arith) spelled-Spells

glob_match-Globs_example :
    (glob_match (codes "main.rs") (codes "*.?s") ≡ true) ↔ Globs (codes "main.rs") (codes "*.?s")
glob_match-Globs_example = glob_match-Globs (codes "main.rs") (codes "*.?s")

like_match-Likes_example :
    (like_match (λ c. c ∷ []) (codes "Alice") (codes "A%_e") ≡ true)
    ↔ Likes (λ c. c ∷ []) (codes "Alice") (codes "A%_e")
like_match-Likes_example = like_match-Likes (λ c. c ∷ []) (codes "Alice") (codes "A%_e")

abbrev two_postings : PostingList
two_postings = record {
  df = 2;
  postings =
      record { doc_id = 1; tf = 2; positions = 0 ∷ (4 ∷ []) }
      ∷ (record { doc_id = 300; tf = 1; positions = 7 ∷ [] } ∷ []);
}

decode_posting_list-encode_posting_list_example :
    decode_posting_list (encode_posting_list two_postings ++ codes "x") ≡ some two_postings
decode_posting_list-encode_posting_list_example =
    decode_posting_list-encode_posting_list two_postings (codes "x") (omega arith) (omega arith) (
      record {
        doc = omega arith;
        frequency = omega arith;
        few = omega arith;
        places = (omega arith, (omega arith, tt));
      },
      (
        record {
          doc = omega arith;
          frequency = omega arith;
          few = omega arith;
          places = (omega arith, tt);
        },
        tt,
      ),
    )

-- An English word and two characters of Chinese, which make one bigram.
mixed_text_test :
    tokenize_text is_letter (λ c. c ∷ []) 8 (codes "sql " ++ (0x8cc7 ∷ (0x6599 ∷ [])))
    ≡ some (
        record { term = codes "sql"; offset = 0 }
        ∷ (record { term = 0x8cc7 ∷ (0x6599 ∷ []); offset = 4 } ∷ []))
unfolding tokenize_text is_letter
mixed_text_test = refl

abbrev mixed_text : List ℕ
mixed_text = codes "sql " ++ (0x8cc7 ∷ (0x6599 ∷ []))

tokenize_text-slices_example :
    (tokens : List FtsToken) × (tokenize_text is_letter (λ c. c ∷ []) 8 mixed_text ≡ some tokens)
    × All (IsSlice (nfkc_lower is_letter (λ c. c ∷ []) mixed_text)) tokens
tokenize_text-slices_example =
    tokenize_text-slices is_letter (λ c. c ∷ []) 8 mixed_text (omega arith)
