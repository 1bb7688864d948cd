-- ===== src/Planner/Constraints.antt =====
-- src/planner/constraints.rs: the constraints of a table and the check of a row. What the executor
-- makes of a CHECK expression is a parameter, and so is the derived equality of values.
pub mod Checked
pub mod Meaning
use sql.Common.{
  ℕ, List, [], ◌∷◌, ◌++◌, Bool, true, false, not, ◌||◌, ◌&&◌, Option, none, some, if◌then◌else◌,
  map,
}
use sql.Common.Bytes.{Bytes, codes}
use sql.Common.Result.{Result, ok, err, ok_or, ◌>>=◌}
use sql.Table.Row.{Row, Value, null, get}
use sql.Table.Schema.{Schema, Column, index_of}
use sql.Parser.Ast
use sql.Parser.Ast.{Expr, ColumnDef, ColumnConstraint, TableConstraint, CreateTableStmt}

pub data Constraint : Type 0 where
  not_null : (column : Bytes) → Constraint
  unique : (columns : List Bytes) → Constraint
  check : (expr : Expr) → Constraint
  foreign_key : (columns : List Bytes) (ref_table : Bytes) (ref_columns : List Bytes) → Constraint

pub record TableConstraints : Type 0 where
  pub constraints : List Constraint

unfoldable pub add : TableConstraints → Constraint → TableConstraints
add tc c = record { constraints = tc.constraints ++ (c ∷ []) }

unfoldable pub from_columns : List (Column Expr) → TableConstraints → TableConstraints
unfolding add
from_columns [] tc = tc
from_columns (col ∷ cols) tc =
    from_columns cols (if col.nullable then tc else add tc (not_null col.name))

unfoldable pub from_schema : Schema Expr → TableConstraints
unfolding from_columns
from_schema schema = from_columns schema.columns (record { constraints = [] })

or_id : Option Bytes → Bytes
or_id none = codes "id"
or_id (some column) = column

unfoldable pub column_constraint : Bytes → ColumnConstraint → TableConstraints → TableConstraints
unfolding add or_id
column_constraint name Ast.not_null tc = add tc (not_null name)
column_constraint name Ast.unique tc = add tc (unique (name ∷ []))
column_constraint name (Ast.primary_key autoincrement) tc = add tc (not_null name)
column_constraint name (Ast.default e) tc = tc
column_constraint name (Ast.check e) tc = add tc (check e)
column_constraint name (Ast.references table column) tc =
    add tc (foreign_key (name ∷ []) table (or_id column ∷ []))

unfoldable pub column_constraints :
    Bytes → List ColumnConstraint → TableConstraints → TableConstraints
unfolding column_constraint
column_constraints name [] tc = tc
column_constraints name (c ∷ cs) tc = column_constraints name cs (column_constraint name c tc)

unfoldable pub columns_constraints : List ColumnDef → TableConstraints → TableConstraints
unfolding column_constraints
columns_constraints [] tc = tc
columns_constraints (col ∷ cols) tc =
    columns_constraints cols (column_constraints col.name col.constraints tc)

unfoldable pub key_columns : List Bytes → TableConstraints → TableConstraints
unfolding add
key_columns [] tc = tc
key_columns (col ∷ cols) tc = key_columns cols (add tc (not_null col))

unfoldable pub table_constraints : List TableConstraint → TableConstraints → TableConstraints
unfolding key_columns add
table_constraints [] tc = tc
table_constraints (Ast.primary_key cols ∷ cs) tc =
    table_constraints cs (add (key_columns cols tc) (unique cols))
table_constraints (Ast.unique cols ∷ cs) tc = table_constraints cs (add tc (unique cols))

unfoldable pub constraints_from_ast : CreateTableStmt → TableConstraints
unfolding columns_constraints table_constraints
constraints_from_ast stmt =
    table_constraints stmt.constraints
      (columns_constraints stmt.columns (record { constraints = [] }))

pub data ConstraintError : Type 0 where
  column_not_found not_null_failed : Bytes → ConstraintError
  unique_failed : List Bytes → ConstraintError
  check_failed : ConstraintError

unfoldable pub is_null : Value → Bool
is_null null = true
is_null _ = false

null_or_none : Option Value → Bool
unfolding is_null
null_or_none none = true
null_or_none (some v) = is_null v

value_or_null : Option Value → Value
value_or_null none = null
value_or_null (some v) = v

unfoldable pub values_at : List ℕ → Row → List Value
unfolding value_or_null
values_at [] row = []
values_at (i ∷ is) row = value_or_null (get row i) ∷ values_at is row

unfoldable pub any_null : List Value → Bool
unfolding is_null
any_null [] = false
any_null (v ∷ vs) = is_null v || any_null vs

unfoldable pub indexes_of : Schema Expr → List Bytes → Result ConstraintError (List ℕ)
indexes_of schema [] = ok []
indexes_of schema (c ∷ cs) = do
  i ← ok_or (index_of schema c) (column_not_found c)
  is ← indexes_of schema cs
  ok (i ∷ is)

abbrev pub Done : Type 0
Done = Result ConstraintError (Unit {0})

-- `None` of `eval_expr` stands for its errors.
module _ (eval_expr : Expr → Row → List Bytes → Option Value) (is_truthy : Value → Bool)
    (value_eq : Value → Value → Bool) where
  unfoldable pub values_eq : List Value → List Value → Bool
  values_eq [] [] = true
  values_eq (v ∷ vs) (w ∷ ws) = value_eq v w && values_eq vs ws
  values_eq _ _ = false

  -- The loop over the rows that exist.
  unfoldable pub no_duplicate : List Bytes → List ℕ → List Value → List Row → Done
  unfolding values_eq values_at
  no_duplicate columns idxs new_vals [] = ok tt
  no_duplicate columns idxs new_vals (r ∷ rs) =
      if values_eq (values_at idxs r) new_vals
      then err (unique_failed columns)
      else no_duplicate columns idxs new_vals rs

  check_value : Option Value → Done
  check_value none = ok tt
  check_value (some v) = if is_truthy v then ok tt else err check_failed

  unfoldable pub check_constraint : Row → Schema Expr → List Row → Constraint → Done
  unfolding null_or_none no_duplicate any_null indexes_of check_value values_at
  check_constraint row schema existing (not_null column) = do
    i ← ok_or (index_of schema column) (column_not_found column)
    if null_or_none (get row i) then err (not_null_failed column) else ok tt
  check_constraint row schema existing (unique columns) = do
    idxs ← indexes_of schema columns
    if any_null (values_at idxs row)
        then ok tt
        else no_duplicate columns idxs (values_at idxs row) existing
  check_constraint row schema existing (check e) =
      check_value (eval_expr e row (map (λ c. c.name) schema.columns))
  check_constraint row schema existing (foreign_key columns ref_table ref_columns) = ok tt

  unfoldable pub check_all : Row → Schema Expr → List Row → List Constraint → Done
  unfolding check_constraint
  check_all row schema existing [] = ok tt
  check_all row schema existing (c ∷ cs) = do
    _ ← check_constraint row schema existing c
    check_all row schema existing cs

  unfoldable pub check_row : Row → Schema Expr → TableConstraints → List Row → Done
  unfolding check_all
  check_row row schema tc existing = check_all row schema existing tc.constraints

unfoldable pub check_fk_on_delete : Value → List TableConstraints → Done
check_fk_on_delete deleted_key constraints = ok tt
