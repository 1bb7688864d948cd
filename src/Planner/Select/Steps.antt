-- ===== src/Planner/Select/Steps.antt =====
-- src/planner/planner.rs: what a plan reads, joins and tests, in the order of its work.
use sql.Common.{List, [], ◌∷◌, ◌++◌, Bool, false, Option, none, some, ◌≡◌, ◌⊎◌}
use sql.Common.Bytes.{Bytes}
use sql.Table.Schema.{Column}
use sql.Catalog.Meta.{TableMeta}
use sql.Catalog.State.{Catalog, view_exists, get_table}
use sql.Parser.Ast
use sql.Parser.Ast.{
  Expr, SelectStmt, SelectFields, fields, MaybeExpr, MaybeFrom, Joins, Statement, no_expr,
  some_expr, no_joins, cons_join, no_from, some_from, from_table, from_subquery, MaybeUnion,
  no_union, some_union, bin_op, TableRef,
}
use sql.Planner.Plan.{Plan, PlanJoinKind}
use sql.Planner.Select.{is_primary_key, join_kind, join_condition, extract_eq_condition}

-- A step of the work on rows: where they come from, a join, or a test of a condition.
pub data Step : Type 0 where
  scan : Bytes → Option Bytes → MaybeExpr → Step
  lookup : Bytes → Option Bytes → Bytes → Expr → Step
  inner_query : Plan → Bytes → Step
  join_with : Plan → MaybeExpr → PlanJoinKind → Step
  test : Expr → Step

-- The steps of a plan from its first source up. What changes the rows' columns, order or number
-- only, and the right of a union, are no steps.
unfoldable pub steps : Plan → List Step
steps (Plan.seq_scan table alias filter) = scan table alias filter ∷ []
steps (Plan.index_scan table alias column value) = lookup table alias column value ∷ []
steps (Plan.subquery_scan query alias) = inner_query query alias ∷ []
steps (Plan.join left right condition kind) = steps left ++ (join_with right condition kind ∷ [])
steps (Plan.filter p e) = steps p ++ (test e ∷ [])
steps (Plan.projection p columns) = steps p
steps (Plan.sort p keys) = steps p
steps (Plan.limit p n offset) = steps p
steps (Plan.aggregate p group_by having outputs) = steps p
steps (Plan.distinct p) = steps p
steps (Plan.cte definitions p) = steps p
steps (Plan.set_operation left right op) = steps left
steps _ = []

-- Each joined table is read as a whole.
unfoldable pub join_steps : Joins → List Step
join_steps no_joins = []
join_steps (cons_join kind t condition js) =
    join_with (Plan.seq_scan t.name t.alias no_expr) (join_condition condition) (join_kind kind)
    ∷ join_steps js

unfoldable pub where_steps : MaybeExpr → List Step
where_steps no_expr = []
where_steps (some_expr e) = test e ∷ []

-- The WHERE above the joins: left out where the scan of a table has it and nothing is joined.
unfoldable pub late_where : MaybeFrom → Joins → MaybeExpr → List Step
late_where (some_from (from_table tref)) no_joins w = []
late_where _ js w = where_steps w

-- The first column of the table has this name.
unfoldable pub HasKey : {S : Type 0} → Catalog Expr S → Bytes → Bytes → Type 0
HasKey catalog table name =
    (meta : TableMeta Expr) × (c : Column Expr) × (cs : List (Column Expr)) × (get_table table
        catalog
      ≡ some meta)
    × (meta.schema.columns ≡ c ∷ cs)
    × (c.name ≡ name)

-- The condition equates an unqualified column with a value.
pub data Equates (name : Bytes) (value : Expr) : Expr → Type 0 where
  on_left : Equates name value (bin_op (Ast.column none name) Ast.eq value)
  on_right : Equates name value (bin_op value Ast.eq (Ast.column none name))

unfoldable pub gives_key : {S : Type 0} → Catalog Expr S → Bytes → Option (Bytes × Expr) → Bool
gives_key catalog t none = false
gives_key catalog t (some (name, value)) = is_primary_key catalog t name

-- How a table is read for a WHERE: by its key where the WHERE gives a value for it, and else as a
-- whole with the WHERE as filter.
unfoldable pub IsTableStep :
    {S : Type 0} → Catalog Expr S → Bytes → Option Bytes → MaybeExpr → Step → Type 0
IsTableStep catalog t alias no_expr s = s ≡ scan t alias no_expr
IsTableStep catalog t alias (some_expr e) s =
    ((s ≡ scan t alias (some_expr e)) × (gives_key catalog t (extract_eq_condition e) ≡ false))
    ⊎ ((name : Bytes) × (value : Expr) × (s ≡ lookup t alias name value)
        × Equates name value e
        × HasKey catalog t name)

unfoldable pub is_view : {S : Type 0} → Catalog Expr S → MaybeFrom → Bool
is_view catalog (some_from (from_table tref)) = view_exists tref.name catalog
is_view catalog _ = false
