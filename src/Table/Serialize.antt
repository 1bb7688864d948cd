-- ===== src/Table/Serialize.antt =====
-- src/table/serialize.rs: a row as bytes, value by value. A step that panics in the source gives
-- `none`: a row of the wrong length, a slice out of range, text that is not UTF-8, an unknown tag.
pub mod RoundTrip
use sql.Common.{
  ℕ, ◌+◌, List, [], ◌∷◌, ◌++◌, Option, none, some, Bool, true, false, not, length, get_elem?, ◌==◌,
  if◌then◌else◌, ◌>>=◌, ◌>>◌, guard,
}
use sql.Common.Int.{i64_bits, i64_of_bits}
use sql.Common.Bytes.{Bytes, le_bytes, counted, slice_from, slice, read_u32, read_u64, from_utf8}
use sql.Table.Schema.{Column, Schema, schema_len}
use sql.Table.Row.{Value, integer, text, boolean, float, null, Row}

-- The bytes that `encode_value` appends to the buffer.
unfoldable pub encode_value : Value → Bytes
encode_value null = 0 ∷ []
encode_value (integer v) = 1 ∷ le_bytes 8 (i64_bits v)
encode_value (text s) = 2 ∷ counted s
encode_value (boolean b) = 3 ∷ (if b then 1 else 0) ∷ []
encode_value (float v) = 4 ∷ le_bytes 8 v

unfoldable pub encode_values : List Value → Bytes
encode_values [] = []
encode_values (v ∷ vs) = encode_value v ++ encode_values vs

unfoldable pub serialize : {Expr : Type 0} → Schema Expr → Row → Option Bytes
unfolding schema_len
serialize schema row = do
  guard (schema_len schema == length row.values)
  some (encode_values row.values)

-- One arm for each tag.
unfoldable pub decode_tagged : ℕ → Bytes → Option (Value × ℕ)
decode_tagged tag buf =
    if tag == 0
    then some (null, 1)
    else if tag == 1
    then (do v ← read_u64 buf 1; some (integer (i64_of_bits v), 9))
    else if tag == 2
    then (do
      len ← read_u32 buf 1
      bytes ← slice buf 5 (5 + len)
      s ← from_utf8 bytes
      some (text s, 5 + len))
    else if tag == 3
    then (do b ← get_elem? buf 1; some (boolean (not (b == 0)), 2))
    else if tag == 4
    then (do v ← read_u64 buf 1; some (float v, 9))
    else none

unfoldable pub decode_value : Bytes → Option (Value × ℕ)
unfolding decode_tagged
decode_value buf = do tag ← get_elem? buf 0; decode_tagged tag buf

-- The loop over the columns, which looks at how many there are and at nothing else of them.
unfoldable pub decode_values :
    {Expr : Type 0} → List (Column Expr) → Bytes → ℕ → Option (List Value)
decode_values [] bytes cur = some []
decode_values (c ∷ cs) bytes cur = do
  buf ← slice_from bytes cur
  (value, consumed) ← decode_value buf
  values ← decode_values cs bytes (cur + consumed)
  some (value ∷ values)

unfoldable pub deserialize : {Expr : Type 0} → Schema Expr → Bytes → Option Row
deserialize schema bytes = do
  values ← decode_values schema.columns bytes 0
  some (record { values = values })
