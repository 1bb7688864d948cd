-- ===== src/Table/Row.antt =====
-- src/table/row.rs: values and rows. A float is its IEEE 754 bit pattern.
use sql.Common.{ℕ, List, Bool, Option, none, some, get_elem?}
use mathlib.Core.Option
use sql.Common.Int.{ℤ}
use sql.Common.Bytes.{Bytes}
use sql.Table.Schema.{Schema, index_of}

pub data Value : Type 0 where
  integer : ℤ → Value
  text : Bytes → Value
  boolean : Bool → Value
  float : ℕ → Value
  null : Value

pub record Row : Type 0 where
  pub values : List Value

unfoldable pub get : Row → ℕ → Option Value
get row idx = get_elem? row.values idx

-- The outer `none` is the panic of `self.values[i]`, the inner a name that the schema lacks.
unfoldable pub get_by_name : {Expr : Type 0} → Row → Schema Expr → Bytes → Option (Option Value)
unfolding index_of
get_by_name row schema name = elim (index_of schema name) [
  | none ↦ some none
  | some i ↦ Option.map some (get_elem? row.values i)
]
