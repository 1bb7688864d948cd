-- ===== src/Pager/Wal/Frames.antt =====
-- Frames and their checksum (src/pager/wal.rs, `Frame` and `compute_checksum`).
use Prim.Native.Nat.{bit_xor}
use sql.Common.{
  ℕ, ◌<◌, ◌^◌, ◌≡◌, refl, arith, [], ◌∷◌, ◌++◌, append-nil, Option, some, none, length, replicate,
  ltb, ◌==◌, ==_refl, if◌then◌else◌, ◌>>=◌, All, length-append,
}
use sql.Common.Bits.{bit_xor-lt}
use sql.Common.Bytes.{Bytes, IsByte, le_bytes, length-le_bytes, from_le, slice, read_u32}
use sql.Common.Cursor.{At, At-over, read_u32-At, slice-At}
use sql.Pager.Codec.{page_size}

abbrev pub frame_header_size : ℕ
frame_header_size = 24

abbrev pub frame_size : ℕ
frame_size = 4120

abbrev pub frame_type_data : ℕ
frame_type_data = 1

abbrev pub frame_type_commit : ℕ
frame_type_commit = 2

pub record Frame : Type 0 where
  pub page_id : ℕ
  pub frame_type : ℕ
  pub txn_id : ℕ
  pub checksum : ℕ
  pub content : Bytes

-- The fold over the chunks of four bytes; a last chunk that is shorter is filled up with zeros.
unfoldable pub checksum_from : ℕ → Bytes → ℕ
checksum_from acc [] = acc
checksum_from acc (a ∷ []) = bit_xor acc (from_le (a ∷ 0 ∷ 0 ∷ 0 ∷ []))
checksum_from acc (a ∷ b ∷ []) = bit_xor acc (from_le (a ∷ b ∷ 0 ∷ 0 ∷ []))
checksum_from acc (a ∷ b ∷ c ∷ []) = bit_xor acc (from_le (a ∷ b ∷ c ∷ 0 ∷ []))
checksum_from acc (a ∷ b ∷ c ∷ d ∷ rest) =
    checksum_from (bit_xor acc (from_le (a ∷ b ∷ c ∷ d ∷ []))) rest

unfoldable pub compute_checksum : Bytes → ℕ
unfolding checksum_from
compute_checksum content = checksum_from 0 content

unfoldable pub encode : Frame → Bytes
encode f =
    le_bytes 4 f.page_id
    ++ (le_bytes 4 f.frame_type
        ++ (le_bytes 4 f.txn_id ++ (le_bytes 4 f.checksum ++ (replicate 8 0 ++ f.content))))

unfoldable pub decode : Bytes → Option Frame
decode buf = if ltb (length buf) frame_size then none else (do
  page_id ← read_u32 buf 0
  frame_type ← read_u32 buf 4
  txn_id ← read_u32 buf 8
  checksum ← read_u32 buf 12
  content ← slice buf frame_header_size frame_size
  if compute_checksum content == checksum
      then some (record {
        page_id = page_id;
        frame_type = frame_type;
        txn_id = txn_id;
        checksum = checksum;
        content = content;
      })
      else none)

word-lt :
    (a b c d : ℕ) → a < 256 → b < 256 → c < 256 → d < 256 → from_le (a ∷ b ∷ c ∷ d ∷ []) < 2 ^ 32
unfolding from_le
word-lt a b c d ha hb hc hd = omega arith

checksum_from-lt :
    (acc : ℕ) (content : Bytes)
    → acc < 2 ^ 32
    → All IsByte content
    → checksum_from acc content < 2 ^ 32
unfolding checksum_from
checksum_from-lt acc [] h k = h
checksum_from-lt acc (a ∷ []) h k =
    bit_xor-lt 32 acc _ h (word-lt a 0 0 0 k.0 (omega arith) (omega arith) (omega arith))
checksum_from-lt acc (a ∷ b ∷ []) h k =
    bit_xor-lt 32 acc _ h (word-lt a b 0 0 k.0 k.1.0 (omega arith) (omega arith))
checksum_from-lt acc (a ∷ b ∷ c ∷ []) h k =
    bit_xor-lt 32 acc _ h (word-lt a b c 0 k.0 k.1.0 k.1.1.0 (omega arith))
checksum_from-lt acc (a ∷ b ∷ c ∷ d ∷ rest) h k =
    checksum_from-lt (bit_xor acc (from_le (a ∷ b ∷ c ∷ d ∷ []))) rest
      (bit_xor-lt 32 acc _ h (word-lt a b c d k.0 k.1.0 k.1.1.0 k.1.1.1.0)) k.1.1.1.1

-- The checksum of bytes fits 32 bits.
pub compute_checksum-lt : (content : Bytes) → All IsByte content → compute_checksum content < 2 ^ 32
unfolding compute_checksum
compute_checksum-lt content h = checksum_from-lt 0 content (omega arith) h

-- A frame as `write_frame` makes it of a whole page.
pub record IsFrame (f : Frame) : Type 0 where
  pub page_id : f.page_id < 2 ^ 32
  pub frame_type : f.frame_type < 2 ^ 32
  pub txn_id : f.txn_id < 2 ^ 32
  pub sum : compute_checksum f.content ≡ f.checksum
  pub bytes : All IsByte f.content
  pub whole : length f.content ≡ page_size

pub length-encode : (f : Frame) → IsFrame f → length (encode f) ≡ frame_size
unfolding encode
length-encode f h = omega (
  arith,
  length-append (le_bytes 4 f.page_id) (
      le_bytes 4 f.frame_type
      ++ (le_bytes 4 f.txn_id ++ (le_bytes 4 f.checksum ++ (replicate 8 0 ++ f.content)))),
  length-append (le_bytes 4 f.frame_type)
      (le_bytes 4 f.txn_id ++ (le_bytes 4 f.checksum ++ (replicate 8 0 ++ f.content))),
  length-append (le_bytes 4 f.txn_id) (le_bytes 4 f.checksum ++ (replicate 8 0 ++ f.content)),
  length-append (le_bytes 4 f.checksum) (replicate 8 0 ++ f.content),
  length-le_bytes 4 f.page_id,
  length-le_bytes 4 f.frame_type,
  length-le_bytes 4 f.txn_id,
  length-le_bytes 4 f.checksum,
  h.whole,
)

decode-At :
    (f : Frame) (buf : Bytes)
    → IsFrame f
    → length buf ≡ frame_size
    → At buf 0 (
        le_bytes 4 f.page_id
        ++ (le_bytes 4 f.frame_type
            ++ (le_bytes 4 f.txn_id
                ++ (le_bytes 4 f.checksum ++ (replicate 8 0 ++ (f.content ++ []))))))
    → decode buf ≡ some f
unfolding decode
decode-At f buf h n a =
    let at5 = replicate 8 0 ++ (f.content ++ []) in
    let at4 = le_bytes 4 f.checksum ++ at5 in
    let at3 = le_bytes 4 f.txn_id ++ at4 in
    let at2 = le_bytes 4 f.frame_type ++ at3 in
    let on_type =
      At-over (le_bytes 4 f.page_id) at2 a 4 (omega (arith, length-le_bytes 4 f.page_id)) in
    let on_txn =
      At-over (le_bytes 4 f.frame_type) at3 on_type 8
        (omega (arith, length-le_bytes 4 f.frame_type)) in
    let on_sum =
      At-over (le_bytes 4 f.txn_id) at4 on_txn 12 (omega (arith, length-le_bytes 4 f.txn_id)) in
    let on_reserved =
      At-over (le_bytes 4 f.checksum) at5 on_sum 16 (omega (arith, length-le_bytes 4 f.checksum)) in
    let on_content = At-over (replicate 8 0) (f.content ++ []) on_reserved 24 refl in
    let sum_fits : f.checksum < 2 ^ 32 =
      omega (arith, compute_checksum-lt f.content h.bytes, h.sum) in
    rw (
      n,
      read_u32-At f.page_id at2 a h.page_id,
      read_u32-At f.frame_type at3 on_type h.frame_type,
      read_u32-At f.txn_id at4 on_txn h.txn_id,
      read_u32-At f.checksum at5 on_sum sum_fits,
      slice-At f.content [] frame_size on_content (omega (arith, h.whole)),
      h.sum,
      ==_refl f.checksum,
    )

-- A frame of a whole page, with 32-bit numbers and the page's checksum, is read back from its
-- bytes.
pub decode-encode : (f : Frame) → IsFrame f → decode (encode f) ≡ some f
decode-encode f h =
    decode-At f (encode f) h (length-encode f h)
      (record { front = []; layout = unfold encode in simp append-nil; size = refl })
