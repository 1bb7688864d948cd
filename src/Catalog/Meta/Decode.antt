-- ===== src/Catalog/Meta/Decode.antt =====
-- The readers of src/catalog/meta.rs.
use sql.Common.{
  ℕ, zero, suc, ◌+◌, List, [], ◌∷◌, Option, none, some, not, get_elem?, ◌==◌, if◌then◌else◌, ◌>>=◌,
}
use sql.Common.Bytes.{Bytes, slice_from, slice, read_u32, read_u64, from_utf8}
use sql.Table.Schema.{DataType, integer, text, boolean, float, Column}
use sql.Catalog.Meta.{
  TableMeta, TriggerTiming, before, after, instead_of, TriggerEvent, delete, insert, update,
  TriggerMeta,
}
use sql.Catalog.Meta.Encode.{u32_max}

unfoldable pub decode_str : Bytes → Option (Bytes × ℕ)
decode_str buf = do
  len ← read_u32 buf 0
  bytes ← slice buf 4 (4 + len)
  s ← from_utf8 bytes
  some (s, 4 + len)

-- `let (s, n) = decode_str(&bytes[cur..]); cur += n;`: the text, and the cursor behind it.
unfoldable pub str_at : Bytes → ℕ → Option (Bytes × ℕ)
unfolding decode_str
str_at bytes cur = do buf ← slice_from bytes cur; (s, n) ← decode_str buf; some (s, cur + n)

unfoldable pub tag_datatype : ℕ → Option DataType
tag_datatype tag =
    if tag == 0
    then some integer
    else if tag == 1
    then some text
    else if tag == 2
    then some boolean
    else if tag == 3
    then some float
    else none

module _ {Expr : Type 0} where
  unfoldable pub decode_columns : ℕ → Bytes → ℕ → Option (List (Column Expr) × ℕ)
  decode_columns zero bytes cur = some ([], cur)
  decode_columns (suc n) bytes cur = do
    (col_name, a) ← str_at bytes cur
    tag ← get_elem? bytes a
    dt ← tag_datatype tag
    nullable ← get_elem? bytes (a + 1)
    autoinc ← get_elem? bytes (a + 1 + 1)
    (columns, end) ← decode_columns n bytes (a + 1 + 1 + 1)
    some (
      record {
        name = col_name;
        data_type = dt;
        nullable = not (nullable == 0);
        autoinc = not (autoinc == 0);
        default = none;
      }
          ∷ columns,
      end,
    )

  unfoldable pub decode_meta : Bytes → Option (TableMeta Expr)
  decode_meta bytes = do
    (name, a) ← str_at bytes 0
    col_count ← read_u32 bytes a
    (columns, b) ← decode_columns col_count bytes (a + 4)
    root_page ← read_u32 bytes b
    row_count ← read_u32 bytes (b + 4)
    autoinc_last ← read_u64 bytes (b + 4 + 4)
    some (record {
      name = name;
      schema = record { columns = columns };
      root_page = root_page;
      row_count = row_count;
      autoinc_last = autoinc_last;
    })

unfoldable pub timing_of_tag : ℕ → TriggerTiming
timing_of_tag tag = if tag == 0 then before else if tag == 1 then after else instead_of

unfoldable pub decode_strs : ℕ → Bytes → ℕ → Option (List Bytes × ℕ)
decode_strs zero bytes cur = some ([], cur)
decode_strs (suc n) bytes cur = do
  (col, a) ← str_at bytes cur
  (cols, end) ← decode_strs n bytes a
  some (col ∷ cols, end)

-- The columns of an update trigger, from behind its tag.
unfoldable pub decode_update : Bytes → ℕ → Option (TriggerEvent × ℕ)
unfolding decode_strs
decode_update bytes cur = do
  cols_len ← read_u32 bytes cur
  if cols_len == u32_max
      then some (update none, cur + 4)
      else (do (cols, end) ← decode_strs cols_len bytes (cur + 4); some (update (some cols), end))

unfoldable pub decode_event : Bytes → ℕ → Option (TriggerEvent × ℕ)
unfolding decode_update
decode_event bytes cur = do
  tag ← get_elem? bytes cur
  if tag == 0
      then some (delete, cur + 1)
      else if tag == 1
      then some (insert, cur + 1)
      else decode_update bytes (cur + 1)

unfoldable pub decode_when : Bytes → ℕ → Option (Option Bytes × ℕ)
decode_when bytes cur = do
  when_len ← read_u32 bytes cur
  if when_len == u32_max then some (none, cur + 4) else (do
    w ← slice bytes (cur + 4) (cur + 4 + when_len)
    s ← from_utf8 w
    some (some s, cur + 4 + when_len))

unfoldable pub decode_trigger : Bytes → Option TriggerMeta
decode_trigger bytes = do
  (name, a) ← str_at bytes 0
  (table, b) ← str_at bytes a
  timing ← get_elem? bytes b
  (event, c) ← decode_event bytes (b + 1)
  for_each_row ← get_elem? bytes c
  (when, d) ← decode_when bytes (c + 1)
  (body, e) ← str_at bytes d
  some (record {
    name = name;
    table = table;
    timing = timing_of_tag timing;
    event = event;
    for_each_row = not (for_each_row == 0);
    when = when;
    body = body;
  })
