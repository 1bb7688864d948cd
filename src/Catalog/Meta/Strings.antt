-- ===== src/Catalog/Meta/Strings.antt =====
-- Counted texts and lists of them, written and read back (src/catalog/meta.rs, `encode_str` and
-- `decode_str`).
use sql.Common.{
  ℕ, ◌+◌, ◌<◌, ◌^◌, ◌≡◌, refl, arith, List, [], ◌∷◌, ◌++◌, append_assoc, some, length,
  length-append, All,
}
use sql.Common.Bytes.{
  Bytes, length-counted, read_u32-counted, slice-counted, IsText, from_utf8_text,
}
use sql.Common.Cursor.{At, At-over, slice_from-At}
use sql.Catalog.Meta.Encode.{encode_str, encode_strs}
use sql.Catalog.Meta.Decode.{decode_str, str_at, decode_strs}

-- A text that fits a 32-bit length.
pub record IsShort (s : Bytes) : Type 0 where
  pub text : IsText s
  pub short : length s < 2 ^ 32

pub decode_str-encode_str :
    (s rest : Bytes)
    → IsShort s
    → decode_str (encode_str s ++ rest) ≡ some (s, length (encode_str s))
unfolding decode_str encode_str
decode_str-encode_str s rest h = rw (
  read_u32-counted [] s rest 0 refl h.short,
  slice-counted [] s rest 4 (4 + length s) refl refl,
  from_utf8_text s h.text,
  length-counted s,
)

pub str_at-encode_str :
    {page : Bytes} {cur : ℕ} (s rest : Bytes)
    → At page cur (encode_str s ++ rest)
    → IsShort s
    → str_at page cur ≡ some (s, cur + length (encode_str s))
unfolding str_at
str_at-encode_str s rest a h = rw (slice_from-At a, decode_str-encode_str s rest h)

pub decode_strs-encode_strs :
    (ss : List Bytes) {page : Bytes} {cur : ℕ} (rest : Bytes)
    → At page cur (encode_strs ss ++ rest)
    → All IsShort ss
    → decode_strs (length ss) page cur ≡ some (ss, cur + length (encode_strs ss))
unfolding decode_strs encode_strs
decode_strs-encode_strs [] rest a h = ground arith
decode_strs-encode_strs (s ∷ ss) {page} {cur} rest a h =
    let here : At page cur (encode_str s ++ (encode_strs ss ++ rest)) = rw (← append_assoc) a in
    let there = At-over (encode_str s) (encode_strs ss ++ rest) here _ refl in
    rw
      (
        str_at-encode_str s (encode_strs ss ++ rest) here h.0,
        decode_strs-encode_strs ss rest there h.1,
      )
      (ground (arith, length-append (encode_str s) (encode_strs ss)))
