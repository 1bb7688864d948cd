-- ===== src/Table/Serialize/RoundTrip.antt =====
-- Rows written to bytes and read back (src/table/serialize.rs).
use sql.Common.{
  ℕ, suc, ◌+◌, ◌<◌, ◌^◌, ◌≡◌, refl, arith, List, [], ◌∷◌, ◌++◌, append_assoc, none, some, true,
  false, length, length-append, All, ==_refl, ==_ne, ◌≢◌,
}
use sql.Common.Int.{IsI64, i64_bits, i64_bits-lt, i64_of_bits-i64_bits}
use sql.Common.Bytes.{
  Bytes, length-le_bytes, slice_from-append, read_u32-counted, slice-counted, length-counted,
  read_u64-append, IsText, from_utf8_text,
}
use sql.Table.Schema.{Column, Schema}
use sql.Table.Row.{Value, integer, text, boolean, float, null, Row}
use sql.Table.Serialize.{
  encode_value, encode_values, serialize, decode_value, decode_values, deserialize,
}

-- A value as the types of the source have it, its text short enough for a 32-bit length.
abbrev pub IsValue : Value → Type 0
IsValue null = Unit
IsValue (integer v) = IsI64 v
IsValue (text s) = IsText s × (length s < 2 ^ 32)
IsValue (boolean b) = Unit
IsValue (float v) = v < 2 ^ 64

pub decode_value-encode_value :
    (v : Value) (rest : Bytes)
    → IsValue v
    → decode_value (encode_value v ++ rest) ≡ some (v, length (encode_value v))
unfolding decode_value encode_value
decode_value-encode_value null rest h = refl
decode_value-encode_value (integer v) rest h = rw (
  read_u64-append (1 ∷ []) rest 1 (i64_bits v) refl (i64_bits-lt v h),
  i64_of_bits-i64_bits v h,
  length-le_bytes 8 (i64_bits v),
)
decode_value-encode_value (text s) rest h =
    let five : suc (4 + length s) ≡ 5 + length s = omega arith in
    rw (
      read_u32-counted (2 ∷ []) s rest 1 refl h.1,
      slice-counted (2 ∷ []) s rest 5 (5 + length s) refl refl,
      from_utf8_text s h.0,
      length-counted s,
      five,
    )
decode_value-encode_value (boolean true) rest h = refl
decode_value-encode_value (boolean false) rest h = refl
decode_value-encode_value (float v) rest h =
    rw (read_u64-append (4 ∷ []) rest 1 v refl h, length-le_bytes 8 v)

module _ {Expr : Type 0} where
  decode_values-encode_values :
      (vs : List Value) (cs : List (Column Expr)) (pre rest : Bytes) (cur : ℕ)
      → length cs ≡ length vs
      → All IsValue vs
      → cur ≡ length pre
      → decode_values cs (pre ++ (encode_values vs ++ rest)) cur ≡ some vs
  unfolding decode_values encode_values
  decode_values-encode_values [] [] pre rest cur n h e = refl
  decode_values-encode_values [] (c ∷ cs) pre rest cur n h e = absurd (omega arith)
  decode_values-encode_values (v ∷ vs) [] pre rest cur n h e = absurd (omega arith)
  decode_values-encode_values (v ∷ vs) (c ∷ cs) pre rest cur n h e = rw (
    append_assoc (encode_value v) (encode_values vs) rest,
    slice_from-append pre (encode_value v ++ (encode_values vs ++ rest)) cur e,
    decode_value-encode_value v (encode_values vs ++ rest) h.0,
    ← append_assoc pre (encode_value v) (encode_values vs ++ rest),
    decode_values-encode_values vs cs (pre ++ encode_value v) rest (cur + length (encode_value v))
        (omega arith) h.1 (omega (arith, length-append pre (encode_value v))),
  )

  -- A row with as many values as the schema has columns, each an integer of 64 bits, a UTF-8 text
  -- shorter than 2^32 bytes, a boolean, a float of 64 bits or null, is serialized, and deserialize
  -- gives it back, also with other bytes behind it.
  pub deserialize-serialize :
      (schema : Schema Expr) (row : Row) (rest : Bytes)
      → length schema.columns ≡ length row.values
      → All IsValue row.values
      → (bytes : Bytes) × (serialize schema row ≡ some bytes)
        × (deserialize schema (bytes ++ rest) ≡ some row)
  unfolding serialize deserialize
  deserialize-serialize schema row rest n h = (
    encode_values row.values,
    rw (n, ==_refl (length row.values)),
    rw (decode_values-encode_values row.values schema.columns [] rest 0 n h refl),
  )

  -- A row of another length than the schema makes serialize panic.
  pub serialize_wrong_length :
      (schema : Schema Expr) (row : Row)
      → length schema.columns ≢ length row.values
      → serialize schema row ≡ none
  unfolding serialize
  serialize_wrong_length schema row h = rw (==_ne _ _ h)
