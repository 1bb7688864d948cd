-- ===== src/Fts/Postings.antt =====
-- src/fts/index.rs: posting lists and their bytes. A read past the end panics: `none`.
pub mod RoundTrip
use sql.Common.{ℕ, zero, suc, ◌+◌, ◌%◌, ◌^◌, List, [], ◌∷◌, ◌++◌, Option, none, some, ◌>>=◌, length}
use sql.Common.Bytes.{Bytes, le_bytes, read_u32, read_u64}

pub record Posting : Type 0 where
  pub doc_id : ℕ
  pub tf : ℕ
  pub positions : List ℕ

pub record PostingList : Type 0 where
  pub df : ℕ
  pub postings : List Posting

unfoldable pub encode_positions : List ℕ → Bytes
encode_positions [] = []
encode_positions (p ∷ ps) = le_bytes 4 p ++ encode_positions ps

unfoldable pub encode_posting : Posting → Bytes
unfolding encode_positions
encode_posting p =
    le_bytes 8 p.doc_id
    ++ (le_bytes 4 p.tf
        ++ (le_bytes 4 (length p.positions % 2 ^ 32) ++ encode_positions p.positions))

unfoldable pub encode_postings : List Posting → Bytes
unfolding encode_posting
encode_postings [] = []
encode_postings (p ∷ ps) = encode_posting p ++ encode_postings ps

unfoldable pub encode_posting_list : PostingList → Bytes
unfolding encode_postings
encode_posting_list pl =
    le_bytes 4 pl.df ++ (le_bytes 4 (length pl.postings % 2 ^ 32) ++ encode_postings pl.postings)

-- The loops of `decode_posting_list`, with the place behind what they read.
unfoldable pub decode_positions : ℕ → Bytes → ℕ → Option (List ℕ × ℕ)
decode_positions zero bytes cur = some ([], cur)
decode_positions (suc n) bytes cur = do
  p ← read_u32 bytes cur
  (ps, cur') ← decode_positions n bytes (cur + 4)
  some (p ∷ ps, cur')

unfoldable pub decode_postings : ℕ → Bytes → ℕ → Option (List Posting × ℕ)
unfolding decode_positions
decode_postings zero bytes cur = some ([], cur)
decode_postings (suc n) bytes cur = do
  doc_id ← read_u64 bytes cur
  tf ← read_u32 bytes (cur + 8)
  n_pos ← read_u32 bytes (cur + 8 + 4)
  (positions, cur') ← decode_positions n_pos bytes (cur + 8 + 4 + 4)
  (rest, end) ← decode_postings n bytes cur'
  some (record { doc_id = doc_id; tf = tf; positions = positions } ∷ rest, end)

unfoldable pub decode_posting_list : Bytes → Option PostingList
unfolding decode_postings
decode_posting_list bytes = do
  df ← read_u32 bytes 0
  n_docs ← read_u32 bytes 4
  (postings, end) ← decode_postings n_docs bytes 8
  some (record { df = df; postings = postings })
