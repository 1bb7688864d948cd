-- ===== src/Table/Schema.antt =====
-- src/table/schema.rs: column definitions. `Expr` stands for the expressions of the parser, which a
-- column keeps as its default and never looks into.
use sql.Common.{
  ℕ, suc, List, [], ◌∷◌, ◌++◌, Option, none, some, Bool, true, false, length, if◌then◌else◌, ite,
  map, ℕ_discrete,
}
use mathlib.Core.Option
use sql.Common.Bytes.{Bytes, codes}

pub data DataType : Type 0 where
  integer text boolean float : DataType

pub record Column (Expr : Type 0) : Type 0 where
  pub name : Bytes
  pub data_type : DataType
  pub nullable : Bool
  pub autoinc : Bool
  pub default : Option Expr

pub record Schema (Expr : Type 0) : Type 0 where
  pub columns : List (Column Expr)

unfoldable pub Bytes-discrete : Discrete Bytes
Bytes-discrete = hlevel ℕ_discrete

-- `DataType` as `to_sql` prints it.
unfoldable pub type_name : DataType → Bytes
type_name integer = codes "INTEGER"
type_name text = codes "TEXT"
type_name float = codes "FLOAT"
type_name boolean = codes "BOOLEAN"

-- `[String]::join`.
unfoldable pub join : Bytes → List Bytes → Bytes
join sep [] = []
join sep (s ∷ []) = s
join sep (s ∷ t ∷ ts) = s ++ (sep ++ join sep (t ∷ ts))

module _ {Expr : Type 0} where
  unfoldable pub column : Bytes → DataType → Column Expr
  column name data_type = record {
    name = name;
    data_type = data_type;
    nullable = true;
    autoinc = false;
    default = none;
  }

  unfoldable pub not_null : Column Expr → Column Expr
  not_null c = record c { nullable = false }

  unfoldable pub autoincrement : Column Expr → Column Expr
  autoincrement c = record c { autoinc = true }

  unfoldable pub with_default : Expr → Column Expr → Column Expr
  with_default e c = record c { default = some e }

  -- `position` of the first column with the name.
  unfoldable pub position : List (Column Expr) → Bytes → Option ℕ
  position [] name = none
  position (c ∷ cs) name =
      ite (Bytes-discrete c.name name) (some 0) (Option.map suc (position cs name))

  unfoldable pub index_of : Schema Expr → Bytes → Option ℕ
  unfolding position
  index_of schema name = position schema.columns name

  unfoldable pub schema_len : Schema Expr → ℕ
  schema_len schema = length schema.columns

  unfoldable pub column_sql : Column Expr → Bytes
  unfolding type_name
  column_sql c =
      c.name
      ++ (codes " " ++ (type_name c.data_type ++ (if c.nullable then [] else codes " NOT NULL")))

  unfoldable pub to_sql : Schema Expr → Bytes → Bytes
  unfolding column_sql join
  to_sql schema table_name =
      codes "CREATE TABLE "
      ++ (table_name
          ++ (codes "(" ++ (join (codes ", ") (map column_sql schema.columns) ++ codes ")")))
