-- ===== src/Parser/Lexer/RoundTrip.antt =====
-- src/parser/lexer.rs: texts that spell tokens are read as those tokens.
use sql.Common.{
  take_while, ℕ, zero, suc, ◌≤◌, ◌<◌, ◌^◌, List, [], ◌∷◌, ◌++◌, Bool, true, false, ◌&&◌, none, some,
  ◌==◌, lt→ltb, if◌then◌else◌, ◌≡◌, ◌≢◌, refl, ap, ◌∙◌, inl, length, All, map, arith, append_assoc,
  append-nil, or_iff, ==_ne, ==_refl, ℕ_discrete,
}
use mathlib.Core.Option
use sql.Common.Int.{pos}
use sql.Common.Result.{ok}
use sql.Parser.Token.{Token, eof, ident, keywords, lit_int, lit_str, is_eof}
use sql.Parser.Lexer.{
  Std, Lexed, is_ascii_digit, string_body, quoted_body, symbol, symbol_or, skip, keyword,
  lex_number, lex_ident, lex_char, lex_other, next_token, tokenize_loop, tokenize, peek_is,
  digits_value, parse_int, number_end, lex_rest, is_ident_char, word_token, push_token, after,
  invalid_integer, lex_less, lex_pair,
}
use sql.Parser.Lexer.Tables.{
  All-get_elem?, keywords-distinct, find_keyword-get_elem?, eof_free, eof_free-get_elem?,
}
use sql.Parser.Lexer.Spelling.{
  is_letter, is_visible, IsAscii, symbols, escape, Spells, unwords, punctuation, string_literal,
  quoted, integer, reserved, plain,
}

take_while-append :
    (f : ℕ → Bool) (s : List ℕ) (c : ℕ) (rest : List ℕ)
    → All (λ d. f d ≡ true) s
    → f c ≡ false
    → take_while f (s ++ (c ∷ rest)) ≡ (s, c ∷ rest)
unfolding take_while
take_while-append f [] c rest a h = rw h refl
take_while-append f (d ∷ s) c rest a h = rw (a.0, take_while-append f s c rest a.1 h) refl

string_body-cons :
    (acc : List ℕ) (c : ℕ) (t : List ℕ)
    → c ≢ b'\''
    → string_body acc (c ∷ t) ≡ string_body (acc ++ (c ∷ [])) t
unfolding string_body
string_body-cons acc c [] h = rw (==_ne c b'\'' h) refl
string_body-cons acc c (d ∷ t) h = rw (==_ne c b'\'' h, string_body) refl

string_body-escape :
    (acc s : List ℕ) (d : ℕ) (rest : List ℕ)
    → d ≢ b'\''
    → string_body acc (escape s ++ (b'\'' ∷ d ∷ rest)) ≡ ok (lit_str (acc ++ s), d ∷ rest)
unfolding string_body escape
string_body-escape acc [] d rest h = rw (==_ne d b'\'' h, append-nil acc, string_body) refl
string_body-escape acc (c ∷ s) d rest h = elim (ℕ_discrete c b'\'') [
  | yes e ↦ rw e (string_body-escape (acc ++ (b'\'' ∷ [])) s d rest h ∙ again b'\'')
  | no ne ↦
      rw (==_ne c b'\'' ne)
        (string_body-cons acc c _ ne ∙ (string_body-escape (acc ++ (c ∷ [])) s d rest h ∙ again c))
]
  where
    again :
        (q : ℕ)
        → ◌≡◌ {A = Lexed}
            (ok (lit_str ((acc ++ (q ∷ [])) ++ s), d ∷ rest))
            (ok (lit_str (acc ++ (q ∷ s)), d ∷ rest))
    again q = ap (λ x. ok (lit_str x, d ∷ rest)) (append_assoc acc (q ∷ []) s)

quoted_body-append :
    (acc s rest : List ℕ) (close : ℕ)
    → All (λ c. c ≢ close) s
    → quoted_body close acc (s ++ (close ∷ rest)) ≡ ok (ident (acc ++ s), rest)
unfolding quoted_body
quoted_body-append acc [] rest close a = rw (==_refl close, append-nil acc, quoted_body) refl
quoted_body-append acc (c ∷ s) rest close a =
    rw (==_ne c close a.0, quoted_body)
      (quoted_body-append (acc ++ (c ∷ [])) s rest close a.1
        ∙ ap (λ x. ok (ident x, rest)) (append_assoc acc (c ∷ []) s))

digit_starts :
    (std : Std) (c : ℕ) (s : List ℕ)
    → is_ascii_digit c ≡ true
    → lex_char std c s ≡ lex_number std (c ∷ s)
unfolding lex_char lex_other symbol symbol_or is_ascii_digit
digit_starts std c s h = ground arith

pub symbol-none : (c : ℕ) → 62 ≤ c → symbol c ≡ none
unfolding symbol
symbol-none c h = ground arith

letter_bounds : (c : ℕ) → is_letter c ≡ true → (62 < c) × (c ≢ b'`') × (c < b'|')
unfolding is_letter
letter_bounds c h = ground arith

pub not_digit : (c : ℕ) → 62 < c → is_ascii_digit c ≡ false
unfolding is_ascii_digit
not_digit c h = ground arith

letter_starts :
    (std : Std) (c : ℕ) (s : List ℕ)
    → is_letter c ≡ true
    → std.is_alphabetic c ≡ true
    → lex_char std c s ≡ lex_ident std (c ∷ s)
unfolding lex_char lex_other symbol_or
letter_starts std c s h k =
    let (low, tick, high) : (62 < c) × (c ≢ b'`') × (c < b'|') = letter_bounds c h in
    rw
      (
        symbol-none c (omega arith),
        ==_ne c b'<' (omega arith),
        ==_ne c b'>' (omega arith),
        ==_ne c b'!' (omega arith),
        ==_ne c b'|' (omega arith),
        ==_ne c b'\'' (omega arith),
        ==_ne c b'`' tick,
        ==_ne c b'"' (omega arith),
        not_digit c low,
        k,
      )
      refl

pub skip_visible :
    (std : Std) (c : ℕ) (s : List ℕ)
    → IsAscii std
    → is_visible c ≡ true
    → ((c == b'-') && peek_is b'-' s) ≡ false
    → next_token std (c ∷ s) ≡ lex_char std c s
unfolding next_token skip lex_rest
skip_visible std c s a h k = rw (a.visible_is_no_space c h, k, skip, lex_rest) refl

letter_visible : (c : ℕ) → is_letter c ≡ true → (is_visible c ≡ true) × ((c == b'-') ≡ false)
unfolding is_letter is_visible
letter_visible c h = ground arith

digit_visible : (c : ℕ) → is_ascii_digit c ≡ true → (is_visible c ≡ true) × ((c == b'-') ≡ false)
unfolding is_ascii_digit is_visible
digit_visible c h = ground arith

symbols-lexed :
    (std : Std)
    → IsAscii std
    → All
        (λ p. (rest : List ℕ) → next_token std (p.0 ++ (b' ' ∷ rest)) ≡ ok (p.1, b' ' ∷ rest))
        symbols
unfolding lex_char symbol symbol_or lex_other lex_less lex_pair is_visible peek_is
symbols-lexed std a = (
  v b'(' [] refl (λ rest. refl),
  (
    v b')' [] refl (λ rest. refl),
    (
      v b',' [] refl (λ rest. refl),
      (
        v b';' [] refl (λ rest. refl),
        (
          v b'.' [] refl (λ rest. refl),
          (
            v b'+' [] refl (λ rest. refl),
            (
              v b'-' [] refl (λ rest. refl),
              (
                v b'*' [] refl (λ rest. refl),
                (
                  v b'/' [] refl (λ rest. refl),
                  (
                    v b'%' [] refl (λ rest. refl),
                    (
                      v b'=' [] refl (λ rest. refl),
                      (
                        v b'<' [] refl (λ rest. refl),
                        (
                          v b'<' (b'=' ∷ []) refl (λ rest. refl),
                          (
                            v b'<' (b'>' ∷ []) refl (λ rest. refl),
                            (
                              v b'!' (b'=' ∷ []) refl (λ rest. refl),
                              (
                                v b'>' [] refl (λ rest. refl),
                                (
                                  v b'>' (b'=' ∷ []) refl (λ rest. refl),
                                  (v b'|' (b'|' ∷ []) refl (λ rest. refl), tt),
                                ),
                              ),
                            ),
                          ),
                        ),
                      ),
                    ),
                  ),
                ),
              ),
            ),
          ),
        ),
      ),
    ),
  ),
)
  where
    v :
        (c : ℕ) (w : List ℕ)
        → is_visible c ≡ true
        → ((rest : List ℕ) → ((c == b'-') && peek_is b'-' (w ++ (b' ' ∷ rest))) ≡ false)
        → (rest : List ℕ)
        → next_token std (c ∷ (w ++ (b' ' ∷ rest))) ≡ lex_char std c (w ++ (b' ' ∷ rest))
    v c w h k rest = skip_visible std c _ a h (k rest)

All-imp : (P Q : ℕ → Type 0) (s : List ℕ) → ((c : ℕ) → P c → Q c) → All P s → All Q s
All-imp P Q [] f a = tt
All-imp P Q (c ∷ s) f a = (f c a.0, All-imp P Q s f a.1)

and_false : (b c : Bool) → b ≡ false → (b && c) ≡ false
and_false b c h = ground arith

letter_in_ident :
    (std : Std) (d : ℕ) → IsAscii std → is_letter d ≡ true → is_ident_char std d ≡ true
unfolding is_ident_char
letter_in_ident std d a h =
    (or_iff (std.is_alphanumeric d) (d == b'_')).1 (inl (a.letter_in_word d h))

blank_in_no_ident : (std : Std) → IsAscii std → is_ident_char std b' ' ≡ false
unfolding is_ident_char
blank_in_no_ident std a = rw a.blank_in_no_word refl

word_lexed :
    (std : Std) (c : ℕ) (s rest : List ℕ)
    → IsAscii std
    → All (λ d. is_letter d ≡ true) (c ∷ s)
    → next_token std (c ∷ (s ++ (b' ' ∷ rest)))
      ≡ ok (word_token std (keyword std (c ∷ s)) (c ∷ s), b' ' ∷ rest)
unfolding lex_ident
word_lexed std c s rest ascii a =
    let v : (is_visible c ≡ true) × ((c == b'-') ≡ false) = letter_visible c a.0 in
    skip_visible std c (s ++ (b' ' ∷ rest)) ascii v.0 (and_false _ _ v.1)
    ∙ letter_starts std c (s ++ (b' ' ∷ rest)) a.0 (ascii.letter_starts_word c a.0)
    ∙ ap (λ p. ok (word_token std (keyword std p.0) p.0, p.1))
        (take_while-append (is_ident_char std) (c ∷ s) b' ' rest
          (All-imp _ _ (c ∷ s) (λ d. letter_in_ident std d ascii) a) (blank_in_no_ident std ascii))

integer_lexed :
    (std : Std) (c : ℕ) (s rest : List ℕ)
    → IsAscii std
    → All (λ d. is_ascii_digit d ≡ true) (c ∷ s)
    → digits_value 0 (c ∷ s) < 2 ^ 63
    → next_token std (c ∷ (s ++ (b' ' ∷ rest)))
      ≡ ok (lit_int (pos (digits_value 0 (c ∷ s))), b' ' ∷ rest)
unfolding lex_number number_end parse_int
integer_lexed std c s rest ascii a h =
    let v : (is_visible c ≡ true) × ((c == b'-') ≡ false) = digit_visible c a.0 in
    skip_visible std c (s ++ (b' ' ∷ rest)) ascii v.0 (and_false _ _ v.1)
    ∙ digit_starts std c (s ++ (b' ' ∷ rest)) a.0
    ∙ ap (λ p. number_end std p.0 p.1) (take_while-append is_ascii_digit (c ∷ s) b' ' rest a refl)
    ∙ ap
        (λ b.
          after (Option.map lit_int (if b then some (pos (digits_value 0 (c ∷ s))) else none))
            (invalid_integer (c ∷ s)) (b' ' ∷ rest))
        (lt→ltb (digits_value 0 (c ∷ s)) (2 ^ 63) h)

pub Spells-lexed :
    (std : Std) (w : List ℕ) (t : Token) (rest : List ℕ)
    → IsAscii std
    → Spells std w t
    → next_token std (w ++ (b' ' ∷ rest)) ≡ ok (t, b' ' ∷ rest)
unfolding keyword word_token is_visible lex_char symbol symbol_or lex_other
Spells-lexed std w t rest a (punctuation i e) =
    All-get_elem? (λ p. (r : List ℕ) → next_token std (p.0 ++ (b' ' ∷ r)) ≡ ok (p.1, b' ' ∷ r))
      symbols i (w, t) (symbols-lexed std a) e rest
Spells-lexed std w t rest a (string_literal s) =
    skip_visible std b'\'' _ a refl refl
    ∙ (ap (λ x. string_body [] x) (append_assoc (escape s) (b'\'' ∷ []) (b' ' ∷ rest))
        ∙ string_body-escape [] s b' ' rest (omega arith))
Spells-lexed std w t rest a (quoted s h) =
    skip_visible std b'"' _ a refl refl
    ∙ (ap (λ x. quoted_body b'"' [] x) (append_assoc s (b'"' ∷ []) (b' ' ∷ rest))
        ∙ quoted_body-append [] s (b' ' ∷ rest) b'"' h)
Spells-lexed std w t rest a (integer c s h b) = integer_lexed std c s rest a h b
Spells-lexed std w t rest a (reserved i c s h e) =
    word_lexed std c s rest a h
    ∙ rw (find_keyword-get_elem? keywords i _ _ keywords-distinct e) refl
Spells-lexed std w t rest a (plain c s h e) = word_lexed std c s rest a h ∙ rw e refl

pub Spells-not_eof : (std : Std) (w : List ℕ) (t : Token) → Spells std w t → is_eof t ≡ false
unfolding is_eof eof_free
Spells-not_eof std w t (punctuation i e) = eof_free-get_elem? symbols i w t refl e
Spells-not_eof std w t (string_literal s) = refl
Spells-not_eof std w t (quoted s h) = refl
Spells-not_eof std w t (integer c s h b) = refl
Spells-not_eof std w t (reserved i c s h e) = eof_free-get_elem? keywords i _ t refl e
Spells-not_eof std w t (plain c s h e) = refl

blank_skipped :
    (std : Std) (s : List ℕ) → IsAscii std → next_token std (b' ' ∷ s) ≡ next_token std s
unfolding next_token skip
blank_skipped std s a = rw (a.blank_is_space, skip) refl

pub loop-blank :
    (std : Std) (fuel : ℕ) (tokens : List Token) (s : List ℕ)
    → IsAscii std
    → tokenize_loop std fuel tokens (b' ' ∷ s) ≡ tokenize_loop std fuel tokens s
unfolding tokenize_loop
loop-blank std zero tokens s a = refl
loop-blank std (suc fuel) tokens s a =
    ap (push_token (tokenize_loop std fuel) tokens) (blank_skipped std s a)

loop-unwords :
    (std : Std) (fuel : ℕ) (tokens : List Token) (ps : List (List ℕ × Token))
    → IsAscii std
    → length ps < fuel
    → All (λ p. Spells std p.0 p.1) ps
    → tokenize_loop std fuel tokens (unwords ps)
      ≡ some (ok (tokens ++ (map (λ p. p.1) ps ++ (eof ∷ []))))
unfolding tokenize_loop unwords push_token next_token skip lex_rest
loop-unwords std zero tokens ps a h k = absurd (omega arith)
loop-unwords std (suc fuel) tokens [] a h k = refl
loop-unwords std (suc fuel) tokens ((w, t) ∷ ps) a h k =
    ap (push_token (tokenize_loop std fuel) tokens) (Spells-lexed std w t (unwords ps) a k.0)
    ∙ rw (Spells-not_eof std w t k.0) (
        loop-blank std fuel (tokens ++ (t ∷ [])) (unwords ps) a
        ∙ loop-unwords std fuel (tokens ++ (t ∷ [])) ps a (omega arith) k.1
        ∙ ap (λ x. some (ok x)) (append_assoc tokens (t ∷ []) (map (λ p. p.1) ps ++ (eof ∷ []))))

-- Where the standard library knows the ASCII blank, visible characters and letters for what they
-- are: texts that spell tokens, each with a blank behind it, are read as those tokens and Eof, on
-- more fuel than there are texts. Punctuation, string literals with their quotes doubled, quoted
-- names, integers of 63 bits, and words of ASCII letters, of which those whose upper case is a
-- keyword spell it and the others a name, spell tokens.
pub tokenize-unwords :
    (std : Std) (fuel : ℕ) (ps : List (List ℕ × Token))
    → IsAscii std
    → length ps < fuel
    → All (λ p. Spells std p.0 p.1) ps
    → tokenize std fuel (unwords ps) ≡ some (ok (map (λ p. p.1) ps ++ (eof ∷ [])))
unfolding tokenize
tokenize-unwords std fuel ps = loop-unwords std fuel [] ps
