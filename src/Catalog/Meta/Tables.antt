-- ===== src/Catalog/Meta/Tables.antt =====
-- The description of a table, written and read back (src/catalog/meta.rs, `encode_meta` and
-- `decode_meta`).
use sql.Common.{
  ℕ, ◌+◌, ◌%◌, ◌<◌, ◌^◌, ◌≡◌, refl, ap, arith, List, [], ◌∷◌, ◌++◌, append_assoc, none, some, Bool,
  true, false, not, ◌==◌, length, length-append, map, All,
}
use sql.Common.Bytes.{Bytes, le_bytes, length-le_bytes}
use sql.Common.Cursor.{At, At-over, get_elem?-At, read_u32-At, read_u64-At}
use sql.Table.Schema.{DataType, integer, text, boolean, float, Column}
use sql.Catalog.Meta.{TableMeta}
use sql.Catalog.Meta.Encode.{
  encode_str, datatype_tag, flag, encode_column, encode_columns, encode_meta,
}
use sql.Catalog.Meta.Decode.{tag_datatype, decode_columns, decode_meta}
use sql.Catalog.Meta.Strings.{IsShort, str_at-encode_str}

pub tag_datatype-datatype_tag : (t : DataType) → tag_datatype (datatype_tag t) ≡ some t
unfolding tag_datatype datatype_tag
tag_datatype-datatype_tag integer = refl
tag_datatype-datatype_tag text = refl
tag_datatype-datatype_tag boolean = refl
tag_datatype-datatype_tag float = refl

pub flag_back : (b : Bool) → not (flag b == 0) ≡ b
unfolding flag
flag_back true = refl
flag_back false = refl

module _ {Expr : Type 0} where
  -- The stored form has no place for a default.
  abbrev pub without_default : Column Expr → Column Expr
  without_default c = record c { default = none }

  abbrev pub without_defaults : TableMeta Expr → TableMeta Expr
  without_defaults m = record m {
    schema = record m.schema { columns = map without_default m.schema.columns };
  }

  abbrev pub IsColumn : Column Expr → Type 0
  IsColumn c = IsShort c.name

  pub record IsMeta (m : TableMeta Expr) : Type 0 where
    pub name : IsShort m.name
    pub columns : All IsColumn m.schema.columns
    pub few : length m.schema.columns < 2 ^ 32
    pub root : m.root_page < 2 ^ 32
    pub rows : m.row_count < 2 ^ 32
    pub last : m.autoinc_last < 2 ^ 64

  length-encode_column :
      (c : Column Expr) → length (encode_column c) ≡ length (encode_str c.name) + 1 + 1 + 1
  unfolding encode_column
  length-encode_column c = omega (
    arith,
    length-append (encode_str c.name)
        (datatype_tag c.data_type ∷ flag c.nullable ∷ flag c.autoinc ∷ []),
  )

  decode_columns-encode_columns :
      (cs : List (Column Expr)) {page : Bytes} {cur : ℕ} (rest : Bytes)
      → At page cur (encode_columns cs ++ rest)
      → All IsColumn cs
      → decode_columns (length cs) page cur
        ≡ some (map without_default cs, cur + length (encode_columns cs))
  unfolding decode_columns encode_columns encode_column
  decode_columns-encode_columns [] rest a h = ground arith
  decode_columns-encode_columns (c ∷ cs) {page} {cur} rest a h =
      let tail = encode_columns cs ++ rest in
      let flags = flag c.nullable ∷ flag c.autoinc ∷ tail in
      let n = cur + length (encode_str c.name) in
      let at_name : At page cur (encode_str c.name ++ (datatype_tag c.data_type ∷ flags)) =
        simp append_assoc at a in
      let at_type = At-over (encode_str c.name) (datatype_tag c.data_type ∷ flags) at_name n refl in
      let at_nullable = At-over (datatype_tag c.data_type ∷ []) flags at_type (n + 1) refl in
      let at_autoinc =
        At-over (flag c.nullable ∷ []) (flag c.autoinc ∷ tail) at_nullable (n + 1 + 1) refl in
      let at_tail = At-over (flag c.autoinc ∷ []) tail at_autoinc (n + 1 + 1 + 1) refl in
      rw
        (
          str_at-encode_str c.name (datatype_tag c.data_type ∷ flags) at_name h.0,
          get_elem?-At at_type,
          tag_datatype-datatype_tag c.data_type,
          get_elem?-At at_nullable,
          get_elem?-At at_autoinc,
          decode_columns-encode_columns cs rest at_tail h.1,
          flag_back c.nullable,
          flag_back c.autoinc,
        )
        (ap (λ (end : ℕ). some (map without_default (c ∷ cs), end))
          (omega
            (arith, length-encode_column c, length-append (encode_column c) (encode_columns cs))))

  -- The description as it stands on the page, the first three numbers and the last apart.
  abbrev layout : TableMeta Expr → Bytes → Bytes
  layout m rest =
      encode_str m.name
      ++ (le_bytes 4 (length m.schema.columns % 2 ^ 32)
          ++ (encode_columns m.schema.columns
              ++ (le_bytes 4 (m.root_page % 2 ^ 32)
                  ++ (le_bytes 4 (m.row_count % 2 ^ 32) ++ (le_bytes 8 m.autoinc_last ++ rest)))))

  decode_meta-layout :
      (m : TableMeta Expr) (page rest : Bytes)
      → IsMeta m
      → At page 0 (layout m rest)
      → decode_meta page ≡ some (without_defaults m)
  unfolding decode_meta
  decode_meta-layout m page rest h start =
      let count = length m.schema.columns in
      let count_fits : count % 2 ^ 32 ≡ count = omega (arith, h.few) in
      let root_fits : m.root_page % 2 ^ 32 ≡ m.root_page = omega (arith, h.root) in
      let rows_fit : m.row_count % 2 ^ 32 ≡ m.row_count = omega (arith, h.rows) in
      let at5 = le_bytes 8 m.autoinc_last ++ rest in
      let at4 = le_bytes 4 (m.row_count % 2 ^ 32) ++ at5 in
      let at3 = le_bytes 4 (m.root_page % 2 ^ 32) ++ at4 in
      let at2 = encode_columns m.schema.columns ++ at3 in
      let at1 = le_bytes 4 (count % 2 ^ 32) ++ at2 in
      let n1 = length (encode_str m.name) in
      let n2 = n1 + 4 + length (encode_columns m.schema.columns) in
      let on_count = At-over (encode_str m.name) at1 start n1 (omega arith) in
      let on_columns =
        At-over (le_bytes 4 (count % 2 ^ 32)) at2 on_count (n1 + 4)
          (omega (arith, length-le_bytes 4 (count % 2 ^ 32))) in
      let on_root = At-over (encode_columns m.schema.columns) at3 on_columns n2 refl in
      let on_rows =
        At-over (le_bytes 4 (m.root_page % 2 ^ 32)) at4 on_root (n2 + 4)
          (omega (arith, length-le_bytes 4 (m.root_page % 2 ^ 32))) in
      let on_last =
        At-over (le_bytes 4 (m.row_count % 2 ^ 32)) at5 on_rows (n2 + 4 + 4)
          (omega (arith, length-le_bytes 4 (m.row_count % 2 ^ 32))) in
      let zero_add : 0 + n1 ≡ n1 = omega arith in
      rw (
        str_at-encode_str m.name at1 start h.name,
        zero_add,
        read_u32-At (count % 2 ^ 32) at2 on_count (omega arith),
        count_fits,
        decode_columns-encode_columns m.schema.columns at3 on_columns h.columns,
        read_u32-At (m.root_page % 2 ^ 32) at4 on_root (omega arith),
        read_u32-At (m.row_count % 2 ^ 32) at5 on_rows (omega arith),
        read_u64-At m.autoinc_last rest on_last h.last,
        root_fits,
        rows_fit,
      )

  -- A table's description with short UTF-8 names and numbers in their ranges is read back from its
  -- bytes, also with other bytes behind them, the same except that no column has a default any
  -- more.
  pub decode_meta-encode_meta :
      (m : TableMeta Expr) (rest : Bytes)
      → IsMeta m
      → decode_meta (encode_meta m ++ rest) ≡ some (without_defaults m)
  unfolding encode_meta
  decode_meta-encode_meta m rest h =
      decode_meta-layout m (encode_meta m ++ rest) rest h
        (record { front = []; layout = simp append_assoc; size = refl })
