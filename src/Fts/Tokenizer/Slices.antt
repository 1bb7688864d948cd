-- ===== src/Fts/Tokenizer/Slices.antt =====
-- src/fts/tokenizer.rs: the loop takes a character in each round, so `tokenize` ends, and each token
-- stands in the text where its offset says.
use sql.Common.{
  ℕ, zero, suc, ◌+◌, ◌≤◌, ◌<◌, List, [], ◌∷◌, ◌++◌, Bool, true, false, Option, some, ◌>>=◌, ◌≡◌,
  refl, ap, sym, ◌∙◌, length, length-append, arith, append_assoc, take_while, take_while-length,
  All, All-append,
}
use sql.Fts.Tokenizer.{
  FtsToken, is_cjk, is_word_char, cjk_tokens, word_tokens, bigrams, nfkc_lower, tokenize_from,
  tokenize_text,
}

-- The token has characters, and they stand in the text at its offset.
pub record IsSlice (text : List ℕ) (t : FtsToken) : Type 0 where
  pub before : List ℕ
  pub after : List ℕ
  pub layout : text ≡ before ++ (t.term ++ after)
  pub place : t.offset ≡ length before
  pub some_characters : 0 < length t.term

-- The result is there, and its tokens are slices of the text.
Sliced : List ℕ → Option (List FtsToken) → Type 0
Sliced text r = (tokens : List FtsToken) × (r ≡ some tokens) × All (IsSlice text) tokens

then-Sliced :
    (text : List ℕ) (first : List FtsToken) (r : Option (List FtsToken))
    → All (IsSlice text) first
    → Sliced text r
    → Sliced text (r >>= (λ rest. some (first ++ rest)))
unfolding Sliced
then-Sliced text first r a (tokens, e, h) =
    (first ++ tokens, rw e refl, All-append (IsSlice text) first tokens a h)

branch-Sliced :
    (text : List ℕ) (b : Bool) (x y : Option (List FtsToken))
    → (b ≡ true → Sliced text x)
    → Sliced text y
    → Sliced text (elim b [ true ↦ x | false ↦ y ])
branch-Sliced text true x y h k = h refl
branch-Sliced text false x y h k = k

-- A first character that passes the test is taken.
take_while-length_lt :
    (f : ℕ → Bool) (c : ℕ) (s : List ℕ) → f c ≡ true → length (take_while f (c ∷ s)).1 ≤ length s
unfolding take_while
take_while-length_lt f c s h = rw (h, length) (take_while-length f s)

take_while-append : (f : ℕ → Bool) (s : List ℕ) → (take_while f s).0 ++ (take_while f s).1 ≡ s
unfolding take_while
take_while-append f [] = refl
take_while-append f (c ∷ s) = ground (arith, take_while-append f s)

word_tokens-IsSlice :
    (text before run after : List ℕ)
    → text ≡ before ++ (run ++ after)
    → All (IsSlice text) (word_tokens (length before) run)
unfolding word_tokens
word_tokens-IsSlice text before [] after e = tt
word_tokens-IsSlice text before (c ∷ run) after e = (
  record {
    before = before;
    after = after;
    layout = e;
    place = refl;
    some_characters = omega arith;
  },
  tt,
)

bigrams-IsSlice :
    (text before run after : List ℕ) (i : ℕ)
    → i ≡ length before
    → text ≡ before ++ (run ++ after)
    → All (IsSlice text) (bigrams i run)
unfolding bigrams
bigrams-IsSlice text before [] after i p e = tt
bigrams-IsSlice text before (c ∷ []) after i p e = tt
bigrams-IsSlice text before (c ∷ d ∷ s) after i p e = (
  record {
    before = before;
    after = s ++ after;
    layout = e;
    place = p;
    some_characters = omega arith;
  },
  bigrams-IsSlice text (before ++ (c ∷ [])) (d ∷ s) after (i + 1)
      (omega (arith, length-append before (c ∷ [])))
      (e ∙ sym (append_assoc before (c ∷ []) (d ∷ (s ++ after)))),
)

cjk_tokens-IsSlice :
    (text before run after : List ℕ)
    → text ≡ before ++ (run ++ after)
    → All (IsSlice text) (cjk_tokens (length before) run)
unfolding cjk_tokens
cjk_tokens-IsSlice text before [] after e = tt
cjk_tokens-IsSlice text before (c ∷ []) after e = (
  record {
    before = before;
    after = after;
    layout = e;
    place = refl;
    some_characters = omega arith;
  },
  tt,
)
cjk_tokens-IsSlice text before (c ∷ d ∷ s) after e =
    bigrams-IsSlice text before (c ∷ d ∷ s) after _ refl e

module _ (is_alphanumeric : ℕ → Bool) (to_lowercase : ℕ → List ℕ) where
  -- What is left of the text is behind what was read.
  tokenize_from-Sliced :
      (text before : List ℕ) (fuel i : ℕ) (s : List ℕ)
      → i ≡ length before
      → text ≡ before ++ s
      → length s < fuel
      → Sliced text (tokenize_from is_alphanumeric to_lowercase fuel i s)
  unfolding tokenize_from Sliced
  tokenize_from-Sliced text before zero i s p e h = ground arith
  tokenize_from-Sliced text before (suc fuel) i [] p e h = ([], refl, tt)
  tokenize_from-Sliced text before (suc fuel) i (c ∷ s) p e h =
      let is_word = is_word_char is_alphanumeric to_lowercase in
      let shorter : (f : ℕ → Bool) → f c ≡ true → length (take_while f (c ∷ s)).1 < fuel =
        λ f a. omega (arith, take_while-length_lt f c s a) in
      let split : (f : ℕ → Bool)
          → text ≡ before ++ ((take_while f (c ∷ s)).0 ++ (take_while f (c ∷ s)).1) =
        λ f. e ∙ ap (λ t. before ++ t) (sym (take_while-append f (c ∷ s))) in
      let on : (f : ℕ → Bool)
          → f c ≡ true
          → Sliced text (
              tokenize_from is_alphanumeric to_lowercase fuel (i + length (take_while f (c ∷ s)).0)
                (take_while f (c ∷ s)).1) =
        λ f a.
          tokenize_from-Sliced text (before ++ (take_while f (c ∷ s)).0) fuel _ _
            (omega (arith, length-append before (take_while f (c ∷ s)).0))
            (split f ∙ sym (append_assoc before (take_while f (c ∷ s)).0 (take_while f (c ∷ s)).1))
            (shorter f a) in
      branch-Sliced text (is_cjk c) _ _
        (λ a.
          then-Sliced text _ _ (rw p (cjk_tokens-IsSlice text before _ _ (split is_cjk)))
            (on is_cjk a))
        (branch-Sliced text (is_word c) _ _
          (λ a.
            then-Sliced text _ _ (rw p (word_tokens-IsSlice text before _ _ (split is_word)))
              (on is_word a))
          (tokenize_from-Sliced text (before ++ (c ∷ [])) fuel (i + 1) s
            (omega (arith, length-append before (c ∷ [])))
            (e ∙ sym (append_assoc before (c ∷ []) s)) (omega arith)))

  length-nfkc_lower : (s : List ℕ) → length (nfkc_lower is_alphanumeric to_lowercase s) ≡ length s
  unfolding nfkc_lower
  length-nfkc_lower [] = refl
  length-nfkc_lower (c ∷ s) = ap suc (length-nfkc_lower s)

-- With a unit of fuel for each character of the text and one more, the tokenizer of the full-text
-- search ends, and each of its tokens is a text of at least one character that stands in the
-- normalised text at the token's offset.
pub tokenize_text-slices :
    (is_alphanumeric : ℕ → Bool) (to_lowercase : ℕ → List ℕ) (fuel : ℕ) (text : List ℕ)
    → length text < fuel
    → (tokens : List FtsToken) × (tokenize_text is_alphanumeric to_lowercase fuel text
        ≡ some tokens)
      × All (IsSlice (nfkc_lower is_alphanumeric to_lowercase text)) tokens
unfolding tokenize_text Sliced
tokenize_text-slices is_alphanumeric to_lowercase fuel text h =
    tokenize_from-Sliced is_alphanumeric to_lowercase _ [] fuel 0 _ refl refl
      (omega (arith, length-nfkc_lower is_alphanumeric to_lowercase text))
