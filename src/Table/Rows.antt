-- ===== src/Table/Rows.antt =====
-- src/table/table.rs: a table is a schema and a B+tree of serialized rows, under the value of their
-- first column. The outer `none` is a panic, or fuel of the tree that has run out.
pub mod Get
use sql.Common.{ℕ, List, [], ◌∷◌, Option, none, some, Bool, ◌>>=◌}
use sql.Common.Bytes.{Bytes}
use sql.Btree.Node.{Key, Record}
use sql.Btree.Node
use sql.Btree.Tree.{BPlusTree, search, range_search, scan_all}
use sql.Btree.Tree
use sql.Btree.Tree.Insert
use sql.Btree.Tree.Delete
use sql.Pager.Storage.{Storage}
use sql.Table.Schema.{Schema}
use sql.Table.Row.{Value, Row, integer, text, null, boolean, float}
use sql.Table.Serialize.{serialize, deserialize}

pub record Table (Expr S : Type 0) : Type 0 where
  pub name : Bytes
  pub schema : Schema Expr
  pub tree : BPlusTree S

pub data KeyError : Type 0 where
  null_key no_values : KeyError
  unsupported : Value → KeyError

pub data KeyResult (A : Type 0) : Type 0 where
  ok : A → KeyResult A
  err : KeyError → KeyResult A

-- The key of a row is its first value.
unfoldable pub first_key : List Value → KeyResult Key
first_key [] = err no_values
first_key (integer v ∷ vs) = ok (Key.integer v)
first_key (text s ∷ vs) = ok (Key.text s)
first_key (null ∷ vs) = err null_key
first_key (boolean b ∷ vs) = err (unsupported (boolean b))
first_key (float f ∷ vs) = err (unsupported (float f))

unfoldable pub row_key : Row → KeyResult Key
unfolding first_key
row_key row = first_key row.values

module _ {Expr : Type 0} where
  -- The rows of the records that a walk of the tree returns.
  unfoldable pub rows_of : Schema Expr → List Record → Option (List Row)
  rows_of schema [] = some []
  rows_of schema (r ∷ records) = do
    row ← deserialize schema r.value
    rows ← rows_of schema records
    some (row ∷ rows)

  unfoldable pub found_row : Schema Expr → Option Bytes → Option (Option Row)
  found_row schema none = some none
  found_row schema (some bytes) = do row ← deserialize schema bytes; some (some row)

module _ {Expr S : Type 0} (st : Storage S) where
  unfoldable pub new_table : Bytes → Schema Expr → S → Option (Table Expr S)
  new_table name schema s = do
    tree ← Tree.new st 64 s
    some (record { name = name; schema = schema; tree = tree })

  unfoldable pub open_table : Bytes → Schema Expr → S → ℕ → ℕ → Table Expr S
  open_table name schema s root size = record {
    name = name;
    schema = schema;
    tree = record { order = 64; storage = s; root = root; size = size };
  }

  unfoldable pub insert_keyed :
      ℕ → KeyResult Key → Row → Table Expr S → Option (KeyResult (Unit {0}) × Table Expr S)
  insert_keyed fuel (err e) row t = some (err e, t)
  insert_keyed fuel (ok key) row t = do
    bytes ← serialize t.schema row
    tree ← Insert.insert st fuel key bytes t.tree
    some (ok tt, record t { tree = tree })

  unfoldable pub insert_row : ℕ → Row → Table Expr S → Option (KeyResult (Unit {0}) × Table Expr S)
  unfolding row_key insert_keyed
  insert_row fuel row t = insert_keyed fuel (row_key row) row t

  unfoldable pub get_row : ℕ → Key → Table Expr S → Option (Option Row × Table Expr S)
  unfolding found_row
  get_row fuel key t = do
    (bytes, tree) ← search st fuel key t.tree
    row ← found_row t.schema bytes
    some (row, record t { tree = tree })

  unfoldable pub range_rows : ℕ → Key → Key → Table Expr S → Option (List Row × Table Expr S)
  unfolding rows_of
  range_rows fuel start end t = do
    (records, tree) ← range_search st fuel start end t.tree
    rows ← rows_of t.schema records
    some (rows, record t { tree = tree })

  unfoldable pub delete_row : ℕ → Key → Table Expr S → Option (Bool × Table Expr S)
  delete_row fuel key t = do
    (removed, tree) ← Delete.delete st fuel key t.tree
    some (removed, record t { tree = tree })

  unfoldable pub scan_rows : ℕ → Table Expr S → Option (List Row × Table Expr S)
  unfolding rows_of
  scan_rows fuel t = do
    (records, tree) ← scan_all st fuel t.tree
    rows ← rows_of t.schema records
    some (rows, record t { tree = tree })
