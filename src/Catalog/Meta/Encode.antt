-- ===== src/Catalog/Meta/Encode.antt =====
-- The writers of src/catalog/meta.rs.
use sql.Common.{ℕ, ◌%◌, ◌^◌, List, [], ◌∷◌, ◌++◌, Option, none, some, Bool, length, if◌then◌else◌}
use sql.Common.Bytes.{Bytes, le_bytes, counted}
use sql.Table.Schema.{DataType, integer, text, boolean, float, Column}
use sql.Catalog.Meta.{
  TableMeta, TriggerTiming, before, after, instead_of, TriggerEvent, delete, insert, update,
  TriggerMeta,
}

abbrev pub u32_max : ℕ
u32_max = 0xffff_ffff

-- The bytes that `encode_str` appends to the buffer.
unfoldable pub encode_str : Bytes → Bytes
encode_str s = counted s

unfoldable pub datatype_tag : DataType → ℕ
datatype_tag integer = 0
datatype_tag text = 1
datatype_tag boolean = 2
datatype_tag float = 3

-- `b as u8`.
unfoldable pub flag : Bool → ℕ
flag b = if b then 1 else 0

module _ {Expr : Type 0} where
  unfoldable pub encode_column : Column Expr → Bytes
  encode_column col =
      encode_str col.name
      ++ (datatype_tag col.data_type ∷ flag col.nullable ∷ flag col.autoinc ∷ [])

  unfoldable pub encode_columns : List (Column Expr) → Bytes
  encode_columns [] = []
  encode_columns (c ∷ cs) = encode_column c ++ encode_columns cs

  unfoldable pub encode_meta : TableMeta Expr → Bytes
  encode_meta meta =
      encode_str meta.name
      ++ (le_bytes 4 (length meta.schema.columns % 2 ^ 32)
          ++ (encode_columns meta.schema.columns
              ++ (le_bytes 4 (meta.root_page % 2 ^ 32)
                  ++ (le_bytes 4 (meta.row_count % 2 ^ 32) ++ le_bytes 8 meta.autoinc_last))))

unfoldable pub timing_tag : TriggerTiming → ℕ
timing_tag before = 0
timing_tag after = 1
timing_tag instead_of = 2

unfoldable pub encode_strs : List Bytes → Bytes
encode_strs [] = []
encode_strs (s ∷ ss) = encode_str s ++ encode_strs ss

unfoldable pub encode_event : TriggerEvent → Bytes
encode_event delete = 0 ∷ []
encode_event insert = 1 ∷ []
encode_event (update (some cols)) = 2 ∷ (le_bytes 4 (length cols % 2 ^ 32) ++ encode_strs cols)
encode_event (update none) = 2 ∷ le_bytes 4 u32_max

unfoldable pub encode_when : Option Bytes → Bytes
encode_when (some w) = counted w
encode_when none = le_bytes 4 u32_max

unfoldable pub encode_trigger : TriggerMeta → Bytes
encode_trigger trigger =
    encode_str trigger.name
    ++ (encode_str trigger.table
        ++ (timing_tag trigger.timing
            ∷ (encode_event trigger.event
                ++ (flag trigger.for_each_row
                    ∷ (encode_when trigger.when ++ encode_str trigger.body)))))
