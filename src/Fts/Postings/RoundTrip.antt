-- ===== src/Fts/Postings/RoundTrip.antt =====
-- src/fts/index.rs: posting lists read back from their bytes.
use sql.Common.{
  ℕ, ◌+◌, ◌%◌, ◌^◌, ◌<◌, List, [], ◌∷◌, ◌++◌, some, ◌≡◌, refl, ap, arith, length, length-append,
  All, append_assoc,
}
use sql.Common.Bytes.{Bytes, le_bytes, length-le_bytes}
use sql.Common.Cursor.{At, At-over, read_u32-At, read_u64-At}
use sql.Fts.Postings.{
  Posting, PostingList, encode_positions, encode_posting, encode_postings, encode_posting_list,
  decode_positions, decode_postings, decode_posting_list,
}

-- Numbers in the ranges of their types, and lists that a 32-bit number can count.
pub record IsPosting (p : Posting) : Type 0 where
  pub doc : p.doc_id < 2 ^ 64
  pub frequency : p.tf < 2 ^ 32
  pub few : length p.positions < 2 ^ 32
  pub places : All (λ n. n < 2 ^ 32) p.positions

decode_positions-encode_positions :
    (ps : List ℕ) {page : Bytes} {cur : ℕ} (rest : Bytes)
    → At page cur (encode_positions ps ++ rest)
    → All (λ n. n < 2 ^ 32) ps
    → decode_positions (length ps) page cur ≡ some (ps, cur + length (encode_positions ps))
unfolding decode_positions encode_positions
decode_positions-encode_positions [] rest a h = ground arith
decode_positions-encode_positions (p ∷ ps) {page} {cur} rest a h =
    let tail = encode_positions ps ++ rest in
    let here : At page cur (le_bytes 4 p ++ tail) = simp append_assoc at a in
    let next = At-over (le_bytes 4 p) tail here (cur + 4) (omega (arith, length-le_bytes 4 p)) in
    rw (read_u32-At p tail here h.0, decode_positions-encode_positions ps rest next h.1)
      (ap (λ (end : ℕ). some (p ∷ ps, end))
        (omega (arith, length-le_bytes 4 p, length-append (le_bytes 4 p) (encode_positions ps))))

length-encode_posting :
    (p : Posting) → length (encode_posting p) ≡ 8 + 4 + 4 + length (encode_positions p.positions)
unfolding encode_posting le_bytes
length-encode_posting p = omega arith

decode_postings-encode_postings :
    (ps : List Posting) {page : Bytes} {cur : ℕ} (rest : Bytes)
    → At page cur (encode_postings ps ++ rest)
    → All IsPosting ps
    → decode_postings (length ps) page cur ≡ some (ps, cur + length (encode_postings ps))
unfolding decode_postings encode_postings encode_posting le_bytes
decode_postings-encode_postings [] rest a h = ground arith
decode_postings-encode_postings (p ∷ ps) {page} {cur} rest a h =
    let tail = encode_postings ps ++ rest in
    let count = length p.positions % 2 ^ 32 in
    let count_fits : count ≡ length p.positions = omega (arith, h.0.few) in
    let body = encode_positions p.positions ++ tail in
    let at0 : At page cur (le_bytes 8 p.doc_id ++ (le_bytes 4 p.tf ++ (le_bytes 4 count ++ body))) =
      simp append_assoc at a in
    let at1 =
      At-over (le_bytes 8 p.doc_id) (le_bytes 4 p.tf ++ (le_bytes 4 count ++ body)) at0 (cur + 8)
        (omega (arith, length-le_bytes 8 p.doc_id)) in
    let at2 =
      At-over (le_bytes 4 p.tf) (le_bytes 4 count ++ body) at1 (cur + 8 + 4)
        (omega (arith, length-le_bytes 4 p.tf)) in
    let at3 =
      At-over (le_bytes 4 count) body at2 (cur + 8 + 4 + 4)
        (omega (arith, length-le_bytes 4 count)) in
    let at4 =
      At-over (encode_positions p.positions) tail at3
        (cur + 8 + 4 + 4 + length (encode_positions p.positions)) refl in
    rw
      (
        read_u64-At p.doc_id (le_bytes 4 p.tf ++ (le_bytes 4 count ++ body)) at0 h.0.doc,
        read_u32-At p.tf (le_bytes 4 count ++ body) at1 h.0.frequency,
        read_u32-At count body at2 (omega (arith, h.0.few)),
        count_fits,
        decode_positions-encode_positions p.positions tail at3 h.0.places,
        decode_postings-encode_postings ps rest at4 h.1,
      )
      (ap (λ (end : ℕ). some (p ∷ ps, end))
        (omega
          (arith, length-encode_posting p, length-append (encode_posting p) (encode_postings ps))))

decode_posting_list-layout :
    (pl : PostingList) (page rest : Bytes)
    → pl.df < 2 ^ 32
    → length pl.postings < 2 ^ 32
    → All IsPosting pl.postings
    → At page 0 (
        le_bytes 4 pl.df
        ++ (le_bytes 4 (length pl.postings % 2 ^ 32) ++ (encode_postings pl.postings ++ rest)))
    → decode_posting_list page ≡ some pl
unfolding decode_posting_list
decode_posting_list-layout pl page rest df few h at0 =
    let count = length pl.postings % 2 ^ 32 in
    let count_fits : count ≡ length pl.postings = omega (arith, few) in
    let body = encode_postings pl.postings ++ rest in
    let at1 =
      At-over (le_bytes 4 pl.df) (le_bytes 4 count ++ body) at0 4
        (omega (arith, length-le_bytes 4 pl.df)) in
    let at2 = At-over (le_bytes 4 count) body at1 8 (omega (arith, length-le_bytes 4 count)) in
    rw
      (
        read_u32-At pl.df (le_bytes 4 count ++ body) at0 df,
        read_u32-At count body at1 (omega (arith, few)),
        count_fits,
        decode_postings-encode_postings pl.postings rest at2 h,
      )
      refl

-- A posting list with numbers in the ranges of their types, and fewer than 2^32 postings with fewer
-- than 2^32 positions each, is read back from its bytes, whatever follows them.
pub decode_posting_list-encode_posting_list :
    (pl : PostingList) (rest : Bytes)
    → pl.df < 2 ^ 32
    → length pl.postings < 2 ^ 32
    → All IsPosting pl.postings
    → decode_posting_list (encode_posting_list pl ++ rest) ≡ some pl
unfolding encode_posting_list
decode_posting_list-encode_posting_list pl rest df few h =
    decode_posting_list-layout pl (encode_posting_list pl ++ rest) rest df few h
      (record { front = []; layout = simp append_assoc; size = refl })
