-- ===== src/Pager/Codec/Pieces.antt =====
-- Decoding what was encoded, piece by piece (src/pager/codec.rs): keys, values, and the loops over
-- them, each with whatever stands before and behind it on the page.
use sql.Common.{
  ℕ, suc, ◌+◌, ◌%◌, ◌<◌, ◌^◌, ◌≡◌, refl, arith, List, [], ◌∷◌, ◌++◌, append_assoc, some, length,
  length-append, All, map,
}
use sql.Common.Int.{IsI64, i64_bits, i64_bits-lt, i64_of_bits-i64_bits}
use sql.Common.Bytes.{
  Bytes, le_bytes, length-le_bytes, slice_from-append, read_u32-counted, slice-counted,
  length-counted, read_u32-append, read_u64-append, IsText, from_utf8_text,
}
use sql.Btree.Node.{Key, integer, text, Record}
use sql.Pager.Codec.{
  encode_key, encode_bytes, encode_keys, encode_records, encode_children, decode_key, decode_bytes,
  decode_keys, decode_records, decode_children,
}

-- A key as the types of the source have it, its text short enough for a 32-bit length.
abbrev pub IsKey : Key → Type 0
IsKey (integer v) = IsI64 v
IsKey (text s) = IsText s × (length s < 2 ^ 32)

pub decode_key-encode_key :
    (k : Key) (rest : Bytes)
    → IsKey k
    → decode_key (encode_key k ++ rest) ≡ some (k, length (encode_key k))
unfolding encode_key decode_key
decode_key-encode_key (integer v) rest h = rw (
  read_u64-append (0 ∷ []) rest 1 (i64_bits v) refl (i64_bits-lt v h),
  i64_of_bits-i64_bits v h,
  length-le_bytes 8 (i64_bits v),
)
decode_key-encode_key (text s) rest h = rw (
  read_u32-counted (1 ∷ []) s rest 1 refl h.1,
  slice-counted (1 ∷ []) s rest 5 (5 + length s) refl refl,
  from_utf8_text s h.0,
  length-counted s,
  five,
)
  where
    five : suc (4 + length s) ≡ 5 + length s
    five = omega arith

pub decode_bytes-encode_bytes :
    (value rest : Bytes)
    → length value < 2 ^ 32
    → decode_bytes (encode_bytes value ++ rest) ≡ some (value, length (encode_bytes value))
unfolding encode_bytes decode_bytes
decode_bytes-encode_bytes value rest h = rw (
  read_u32-counted [] value rest 0 refl h,
  slice-counted [] value rest 4 (4 + length value) refl refl,
  length-counted value,
)

-- The loop over the keys reads them back and leaves the cursor behind them.
pub decode_keys-encode_keys :
    (ks : List Key) (pre rest : Bytes) (cur : ℕ)
    → All IsKey ks
    → cur ≡ length pre
    → decode_keys (length ks) (pre ++ (encode_keys ks ++ rest)) cur
      ≡ some (ks, cur + length (encode_keys ks))
unfolding decode_keys encode_keys
decode_keys-encode_keys [] pre rest cur h e = ground arith
decode_keys-encode_keys (k ∷ ks) pre rest cur h e =
    rw
      (
        append_assoc (encode_key k) (encode_keys ks) rest,
        slice_from-append pre (encode_key k ++ (encode_keys ks ++ rest)) cur e,
        decode_key-encode_key k (encode_keys ks ++ rest) h.0,
        ← append_assoc pre (encode_key k) (encode_keys ks ++ rest),
        decode_keys-encode_keys ks (pre ++ encode_key k) rest (cur + length (encode_key k)) h.1
            (omega (arith, length-append pre (encode_key k))),
      )
      (ground (arith, length-append (encode_key k) (encode_keys ks)))

pub decode_children-encode_children :
    (cs : List ℕ) (pre rest : Bytes) (cur : ℕ)
    → All (λ c. c < 2 ^ 32) cs
    → cur ≡ length pre
    → decode_children (length cs) (pre ++ (encode_children cs ++ rest)) cur ≡ some cs
unfolding decode_children encode_children
decode_children-encode_children [] pre rest cur h e = refl
decode_children-encode_children (c ∷ cs) pre rest cur h e =
    let small : c % 2 ^ 32 ≡ c = omega arith in
    rw (
      small,
      append_assoc (le_bytes 4 c) (encode_children cs) rest,
      read_u32-append pre (encode_children cs ++ rest) cur c e h.0,
      ← append_assoc pre (le_bytes 4 c) (encode_children cs ++ rest),
      decode_children-encode_children cs (pre ++ le_bytes 4 c) rest (cur + 4) h.1
          (omega (arith, length-append pre (le_bytes 4 c), length-le_bytes 4 c)),
    )

-- The loop over the records pairs each value with its key.
pub decode_records-encode_records :
    (rs : List Record) (pre rest : Bytes) (cur : ℕ)
    → All (λ r. length r.value < 2 ^ 32) rs
    → cur ≡ length pre
    → decode_records (map (λ r. r.key) rs) (pre ++ (encode_records rs ++ rest)) cur ≡ some rs
unfolding decode_records encode_records
decode_records-encode_records [] pre rest cur h e = refl
decode_records-encode_records (r ∷ rs) pre rest cur h e = rw (
  append_assoc (encode_bytes r.value) (encode_records rs) rest,
  slice_from-append pre (encode_bytes r.value ++ (encode_records rs ++ rest)) cur e,
  decode_bytes-encode_bytes r.value (encode_records rs ++ rest) h.0,
  ← append_assoc pre (encode_bytes r.value) (encode_records rs ++ rest),
  decode_records-encode_records rs (pre ++ encode_bytes r.value) rest
      (cur + length (encode_bytes r.value)) h.1
      (omega (arith, length-append pre (encode_bytes r.value))),
)
