-- ===== src/Parser/Lexer/Progress.antt =====
-- src/parser/lexer.rs: every token but the last takes characters from the input, so `tokenize` ends.
use sql.Common.{
  take_while, take_while-length, ℕ, zero, suc, ◌≤◌, ◌<◌, List, [], ◌∷◌, ◌++◌, Bool, true, false,
  ◌&&◌, ◌||◌, Option, none, some, ◌==◌, if◌then◌else◌, ◌≡◌, refl, ap, ◌∙◌, ◌⊎◌, inl, inr, length,
  All, arith, append_assoc, or_iff,
}
use sql.Common.Result.{Result, ok, err}
use sql.Parser.Token.{Token, is_eof, eof, concat, gt_eq, not_eq}
use sql.Parser.Lexer.{
  Std, Lexed, LexError, is_ascii_digit, string_body, quoted_body, lex_less, lex_pair, symbol, skip,
  lex_number, number_end, float_token, lex_ident, lex_char, lex_other, symbol_or, next_token,
  push_token, tokenize_loop, tokenize, after, peek_digit, lex_rest, is_ident_char,
}

-- What is left is shorter than `n`.
IsShorter : ℕ → Lexed → Type 0
IsShorter n (err e) = Unit
IsShorter n (ok r) = length r.1 < n

IsShorter-trans : (m n : ℕ) (r : Lexed) → m ≤ n → IsShorter m r → IsShorter n r
unfolding IsShorter
IsShorter-trans m n (err e) h s = tt
IsShorter-trans m n (ok r) h s = omega arith

branch :
    (b : Bool) (n : ℕ) (x y : Lexed)
    → IsShorter n x
    → IsShorter n y
    → IsShorter n (elim b [ true ↦ x | false ↦ y ])
branch true n x y h k = h
branch false n x y h k = k

-- A first character that passes the test is taken.
take_while-IsShorter :
    (f : ℕ → Bool) (c : ℕ) (s : List ℕ)
    → f c ≡ true
    → length (take_while f (c ∷ s)).1 < suc (length s)
unfolding take_while
take_while-IsShorter f c s h = rw (h, length) (omega (arith, take_while-length f s))

string_body-IsShorter : (acc s : List ℕ) → IsShorter (suc (length s)) (string_body acc s)
unfolding string_body IsShorter
string_body-IsShorter acc [] = tt
string_body-IsShorter acc (c ∷ []) = ground arith
string_body-IsShorter acc (c ∷ d ∷ s) =
    branch (c == b'\'') _ _ _
      (branch (d == b'\'') _ _ _
        (IsShorter-trans _ _ _ (omega arith) (string_body-IsShorter (acc ++ (b'\'' ∷ [])) s))
        (omega arith))
      (IsShorter-trans _ _ _ (omega arith) (string_body-IsShorter (acc ++ (c ∷ [])) (d ∷ s)))

quoted_body-IsShorter :
    (close : ℕ) (acc s : List ℕ) → IsShorter (suc (length s)) (quoted_body close acc s)
unfolding quoted_body IsShorter
quoted_body-IsShorter close acc [] = tt
quoted_body-IsShorter close acc (c ∷ s) =
    ground (arith, quoted_body-IsShorter close (acc ++ (c ∷ [])) s)

after-IsShorter :
    (o : Option Token) (e : LexError) (s : List ℕ) (n : ℕ)
    → length s < n
    → IsShorter n (after o e s)
unfolding IsShorter
after-IsShorter none e s n h = tt
after-IsShorter (some t) e s n h = h

skip-length : (std : Std) (b : Bool) (s : List ℕ) → length (skip std b s) ≤ length s
unfolding skip
skip-length std b [] = omega arith
skip-length std true (c ∷ s) = ground (arith, skip-length std true s, skip-length std false s)
skip-length std false (c ∷ s) = ground (arith, skip-length std true s, skip-length std false s)

number_end-IsShorter :
    (std : Std) (text s : List ℕ) → IsShorter (suc (length s)) (number_end std text s)
unfolding number_end float_token
number_end-IsShorter std text [] = after-IsShorter _ _ [] 1 (omega arith)
number_end-IsShorter std text (c ∷ rest) =
    branch ((c == b'.') && peek_digit rest) _ _ _
      (after-IsShorter _ _ _ _ (omega (arith, take_while-length is_ascii_digit rest)))
      (after-IsShorter _ _ _ _ (omega arith))

lex_number-IsShorter :
    (std : Std) (c : ℕ) (s : List ℕ)
    → is_ascii_digit c ≡ true
    → IsShorter (suc (length s)) (lex_number std (c ∷ s))
unfolding lex_number
lex_number-IsShorter std c s h =
    IsShorter-trans _ _ _ (take_while-IsShorter is_ascii_digit c s h)
      (number_end-IsShorter std (take_while is_ascii_digit (c ∷ s)).0 _)

lex_ident-IsShorter :
    (std : Std) (c : ℕ) (s : List ℕ)
    → is_ident_char std c ≡ true
    → IsShorter (suc (length s)) (lex_ident std (c ∷ s))
unfolding lex_ident IsShorter
lex_ident-IsShorter std c s h = take_while-IsShorter (is_ident_char std) c s h

lex_less-IsShorter : (s : List ℕ) → IsShorter (suc (length s)) (lex_less s)
unfolding lex_less IsShorter
lex_less-IsShorter [] = omega arith
lex_less-IsShorter (c ∷ s) = ground arith

lex_pair-IsShorter :
    (q : ℕ) (t : Token) (r : Lexed) (s : List ℕ)
    → IsShorter (suc (length s)) r
    → IsShorter (suc (length s)) (lex_pair q t r s)
unfolding lex_pair IsShorter
lex_pair-IsShorter q t r [] h = h
lex_pair-IsShorter q t r (c ∷ s) h = ground arith

-- The characters that start a word are characters of words.
unfoldable pub IsUnicode : Std → Type 0
IsUnicode std = (c : ℕ) → std.is_alphabetic c ≡ true → std.is_alphanumeric c ≡ true

branch_if :
    (b : Bool) (n : ℕ) (x y : Lexed)
    → (b ≡ true → IsShorter n x)
    → IsShorter n y
    → IsShorter n (if b then x else y)
branch_if true n x y h k = h refl
branch_if false n x y h k = k

lex_char-IsShorter :
    (std : Std) (c : ℕ) (s : List ℕ) → IsUnicode std → IsShorter (suc (length s)) (lex_char std c s)
unfolding lex_char symbol_or IsUnicode IsShorter
lex_char-IsShorter std c s u =
    elim (symbol c) as (λ o. IsShorter (suc (length s)) (symbol_or o s (lex_other std c s))) [
      | some t ↦ below
      | none ↦ other
    ]
  where
    below : length s < suc (length s)
    below = omega arith

    word : (std.is_alphabetic c || (c == b'_')) ≡ true → is_ident_char std c ≡ true
    word h =
        (or_iff (std.is_alphanumeric c) (c == b'_')).1
          (elim ((or_iff (std.is_alphabetic c) (c == b'_')).0 h) [
            | inl x ↦ inl (u c x)
            | inr x ↦ inr x
          ])

    other : IsShorter (suc (length s)) (lex_other std c s)
    other =
        branch_if (c == b'<') _ _ _ (λ e. lex_less-IsShorter s)
          (branch_if (c == b'>') _ _ _ (λ e. lex_pair-IsShorter b'=' gt_eq _ s below)
            (branch_if (c == b'!') _ _ _ (λ e. lex_pair-IsShorter b'=' not_eq _ s tt)
              (branch_if (c == b'|') _ _ _ (λ e. lex_pair-IsShorter b'|' concat _ s tt)
                (branch_if (c == b'\'') _ _ _ (λ e. string_body-IsShorter [] s)
                  (branch_if ((c == b'`') || (c == b'"')) _ _ _ (λ e. quoted_body-IsShorter _ [] s)
                    (branch_if (is_ascii_digit c) _ _ _ (λ e. lex_number-IsShorter std c s e)
                      (branch_if (std.is_alphabetic c || (c == b'_')) _ _ _
                        (λ e. lex_ident-IsShorter std c s (word e)) tt)))))))

-- The token is `eof`, or what is left is shorter than `n`.
Progresses : ℕ → Lexed → Type 0
Progresses n (err e) = Unit
Progresses n (ok r) = (r.0 ≡ eof) ⊎ (length r.1 < n)

IsShorter-Progresses : (m n : ℕ) (r : Lexed) → m ≤ n → IsShorter m r → Progresses n r
unfolding Progresses IsShorter
IsShorter-Progresses m n (err e) h k = tt
IsShorter-Progresses m n (ok r) h k = inr (omega arith)

next_token-Progresses :
    (std : Std) (s : List ℕ) → IsUnicode std → Progresses (length s) (next_token std s)
unfolding next_token lex_rest Progresses
next_token-Progresses std s u = go (skip std false s) (skip-length std false s)
  where
    go : (r : List ℕ) → length r ≤ length s → Progresses (length s) (lex_rest std r)
    go [] h = inl refl
    go (c ∷ r) h = IsShorter-Progresses _ _ _ h (lex_char-IsShorter std c r u)

abbrev pub Tokens : Type 0
Tokens = Result LexError (List Token)

is_eof-true : (t : Token) → is_eof t ≡ true → t ≡ eof
unfolding is_eof
is_eof-true eof e = refl
is_eof-true _ e = absurd cc

-- An error, or what was pushed before, more tokens that are not `eof`, and one `eof`.
pub EndsInEof : List Token → Tokens → Type 0
EndsInEof tokens (err e) = Unit
EndsInEof tokens (ok ts) =
    (us : List Token) × (ts ≡ tokens ++ (us ++ (eof ∷ []))) × All (λ t. is_eof t ≡ false) us

EndsInEof-push :
    (tokens : List Token) (t : Token) (r : Tokens)
    → is_eof t ≡ false
    → EndsInEof (tokens ++ (t ∷ [])) r
    → EndsInEof tokens r
unfolding EndsInEof
EndsInEof-push tokens t (err e) h k = tt
EndsInEof-push tokens t (ok ts) h (us, e, a) =
    (t ∷ us, e ∙ append_assoc tokens (t ∷ []) (us ++ (eof ∷ [])), (h, a))

abbrev Returns : List Token → Option Tokens → Type 0
Returns tokens o = (r : Tokens) × (o ≡ some r) × EndsInEof tokens r

push_token-Returns :
    (more : List Token → List ℕ → Option Tokens) (tokens : List Token) (n : ℕ) (l : Lexed)
    → Progresses n l
    → ((t : Token) (rest : List ℕ)
        → length rest < n
        → Returns (tokens ++ (t ∷ [])) (more (tokens ++ (t ∷ [])) rest))
    → Returns tokens (push_token more tokens l)
unfolding push_token EndsInEof Progresses is_eof
push_token-Returns more tokens n (err e) p k = (err e, refl, tt)
push_token-Returns more tokens n (ok (t, rest)) (inl e) k =
    rw e (ok (tokens ++ (eof ∷ [])), refl, ([], refl, tt))
push_token-Returns more tokens n (ok (t, rest)) (inr h) k = go (is_eof t) refl (k t rest h)
  where
    go :
        (b : Bool)
        → is_eof t ≡ b
        → Returns (tokens ++ (t ∷ [])) (more (tokens ++ (t ∷ [])) rest)
        → Returns tokens
            (if b then some (ok (tokens ++ (t ∷ []))) else more (tokens ++ (t ∷ [])) rest)
    go true e x =
        (ok (tokens ++ (t ∷ [])), refl, ([], ap (λ v. tokens ++ (v ∷ [])) (is_eof-true t e), tt))
    go false e (r, x, y) = (r, x, EndsInEof-push tokens t r e y)

tokenize_loop-Returns :
    (std : Std) (fuel : ℕ) (tokens : List Token) (s : List ℕ)
    → IsUnicode std
    → length s < fuel
    → Returns tokens (tokenize_loop std fuel tokens s)
unfolding tokenize_loop
tokenize_loop-Returns std zero tokens s u h = absurd (omega arith)
tokenize_loop-Returns std (suc fuel) tokens s u h =
    push_token-Returns (tokenize_loop std fuel) tokens (length s) (next_token std s)
      (next_token-Progresses std s u)
      (λ t rest k. tokenize_loop-Returns std fuel (tokens ++ (t ∷ [])) rest u (omega arith))

-- Where every alphabetic character is alphanumeric, the loop of the lexer ends on every text: with
-- more fuel than characters it returns, and what it returns is an error, or tokens of which the
-- last is Eof and no other is.
pub tokenize-EndsInEof :
    (std : Std) (s : List ℕ) (fuel : ℕ)
    → IsUnicode std
    → length s < fuel
    → (r : Tokens) × (tokenize std fuel s ≡ some r) × EndsInEof [] r
unfolding tokenize
tokenize-EndsInEof std s fuel u h = tokenize_loop-Returns std fuel [] s u h
