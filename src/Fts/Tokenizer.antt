-- ===== src/Fts/Tokenizer.antt =====
-- src/fts/tokenizer.rs: texts, as lists of code points, to tokens. The loop over `i` is on the rest of
-- the characters from `i` on, and on fuel, whose end gives `none`.
pub mod Slices
use sql.Common.{
  take_while, ℕ, zero, suc, ◌+◌, ◌-◌, List, [], ◌∷◌, ◌++◌, Bool, true, false, ◌&&◌, ◌||◌, not,
  Option, none, some, ◌>>=◌, leb, ◌==◌, if◌then◌else◌, map, length,
}

pub record FtsToken : Type 0 where
  pub term : List ℕ
  pub offset : ℕ

within : ℕ → ℕ → ℕ → Bool
within lo hi c = leb lo c && leb c hi

unfoldable pub is_cjk : ℕ → Bool
unfolding within
is_cjk c =
    within 0x4e00 0x9fff c
    || (within 0x3400 0x4dbf c
        || (within 0x20000 0x2a6df c
            || (within 0xf900 0xfaff c
                || (within 0x2e80 0x2eff c
                    || (within 0x3040 0x309f c
                        || (within 0x30a0 0x30ff c || within 0xac00 0xd7af c))))))

first_or : List ℕ → ℕ → ℕ
first_or [] c = c
first_or (l ∷ ls) c = l

half_width : ℕ → ℕ
unfolding within
half_width c = if within 0xff01 0xff5e c then c - 0xff01 + 0x21 else if c == 0x3000 then b' ' else c

-- The bigrams of a run of CJK characters that starts at `j`.
unfoldable pub bigrams : ℕ → List ℕ → List FtsToken
bigrams j [] = []
bigrams j (c ∷ []) = []
bigrams j (c ∷ d ∷ s) = record { term = c ∷ d ∷ []; offset = j } ∷ bigrams (j + 1) (d ∷ s)

unfoldable pub cjk_tokens : ℕ → List ℕ → List FtsToken
unfolding bigrams
cjk_tokens start (c ∷ []) = record { term = c ∷ []; offset = start } ∷ []
cjk_tokens start run = bigrams start run

-- A word that was collected, unless it is empty.
unfoldable pub word_tokens : ℕ → List ℕ → List FtsToken
word_tokens start [] = []
word_tokens start term = record { term = term; offset = start } ∷ []

-- `is_alphanumeric` and `to_lowercase` stand for the methods of `char`.
module _ (is_alphanumeric : ℕ → Bool) (to_lowercase : ℕ → List ℕ) where
  unfoldable pub nfkc_lower : List ℕ → List ℕ
  unfolding half_width first_or
  nfkc_lower s = map (λ c. let half = half_width c in first_or (to_lowercase half) half) s

  unfoldable pub is_word_char : ℕ → Bool
  is_word_char c = is_alphanumeric c && not (is_cjk c)

  unfoldable pub tokenize_from : ℕ → ℕ → List ℕ → Option (List FtsToken)
  unfolding is_cjk is_word_char cjk_tokens word_tokens take_while
  tokenize_from zero i s = none
  tokenize_from (suc fuel) i [] = some []
  tokenize_from (suc fuel) i (c ∷ s) = elim (is_cjk c) [
    | true ↦
        let run = take_while is_cjk (c ∷ s) in
        do rest ← tokenize_from fuel (i + length run.0) run.1; some (cjk_tokens i run.0 ++ rest)
    | false ↦ elim (is_word_char c) [
      | true ↦
          let run = take_while is_word_char (c ∷ s) in
          do rest ← tokenize_from fuel (i + length run.0) run.1; some (word_tokens i run.0 ++ rest)
      | false ↦ tokenize_from fuel (i + 1) s
    ]
  ]

  unfoldable pub tokenize_text : ℕ → List ℕ → Option (List FtsToken)
  unfolding nfkc_lower tokenize_from
  tokenize_text fuel text = tokenize_from fuel 0 (nfkc_lower text)
