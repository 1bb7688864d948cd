-- ===== src/Planner/Select.antt =====
-- src/planner/planner.rs: statements to plans. The planner calls the parser for the text of a view;
-- that is a parameter, and so is the derived equality of expressions. The recursion into CTEs,
-- subqueries, views and unions is on fuel.
pub mod Ending
pub mod Spine
pub mod Steps
pub mod Views
use sql.Common.{
  ℕ, zero, suc, List, [], ◌∷◌, Bool, true, false, ◌&&◌, ◌||◌, not, Option, none, some, ◌-◌, ◌^◌,
  ◌%◌, ltb, if◌then◌else◌, chars_eq,
}
use mathlib.Core.Option
use sql.Common.Bytes.{Bytes, codes}
use sql.Common.Int.{ℤ, pos, negsuc}
use sql.Common.Result.{Result, ok, err}
use sql.Table.Schema.{Bytes-discrete, Schema, Column}
use sql.Catalog.Meta.{TableMeta, ViewMeta}
use sql.Catalog.State.{Catalog, get_table, get_view, view_exists, table_exists}
use sql.Parser.Ast
use sql.Parser.Ast.{
  Expr, Exprs, MaybeExpr, SelectItem, SelectItems, SelectStmt, SelectFields, fields, FromItem,
  MaybeFrom, Ctes, Joins, JoinKind, JoinCondition, OrderItems, MaybeUnion, Statement, TableRef,
  InsertStmt, UpdateStmt, DeleteStmt, no_expr, some_expr, no_exprs, no_keys, no_items, cons_item,
  no_ctes, cons_cte, no_joins, cons_join, no_from, some_from, from_table, from_subquery, no_union,
  some_union, lit_int, bin_op, on,
}
use sql.Planner.Plan
use sql.Planner.Plan.{Plan, CtePlans, PlanJoinKind, SetOp, no_plans, cons_plan}

pub data PlanError (E : Type 0) : Type 0 where
  table_does_not_exist : Bytes → PlanError E
  invalid_view_query : E → PlanError E
  view_is_not_a_select : Bytes → PlanError E

-- What planning comes to: a result, an error, a panic, or fuel that has run out.
pub data Outcome (E A : Type 0) : Type 0 where
  done : A → Outcome E A
  failed : PlanError E → Outcome E A
  panicked exhausted : Outcome E A

infixl 5 ◌>>=◌
abbrev pub ◌>>=◌ : {E A B : Type 0} → Outcome E A → (A → Outcome E B) → Outcome E B
done a >>= f = f a
failed e >>= f = failed e
panicked >>= f = panicked
exhausted >>= f = exhausted

-- An integer literal `as u64`, which wraps a negative one.
unfoldable pub as_u64 : ℤ → ℕ
as_u64 (pos n) = n
as_u64 (negsuc n) = 2 ^ 64 - suc n

unfoldable pub expr_to_u64 : MaybeExpr → Option ℕ
unfolding as_u64
expr_to_u64 (some_expr (lit_int v)) = some (as_u64 v)
expr_to_u64 _ = none

unfoldable pub extract_eq_condition : Expr → Option (Bytes × Expr)
extract_eq_condition (bin_op (Ast.column none name) Ast.eq right) = some (name, right)
extract_eq_condition (bin_op left Ast.eq (Ast.column none name)) = some (name, left)
extract_eq_condition _ = none

is_aggregate_name : Bytes → Bool
is_aggregate_name name =
    chars_eq name (codes "COUNT")
    || (chars_eq name (codes "SUM")
        || (chars_eq name (codes "AVG")
            || (chars_eq name (codes "MAX") || chars_eq name (codes "MIN"))))

unfoldable pub expr_has_agg : Expr → Bool
unfolding is_aggregate_name
expr_has_agg (Ast.function name args distinct) = is_aggregate_name name
expr_has_agg (bin_op left op right) = expr_has_agg left || expr_has_agg right
expr_has_agg _ = false

unfoldable pub contains_aggregate : SelectItem → Bool
unfolding expr_has_agg
contains_aggregate (Ast.expr e alias) = expr_has_agg e
contains_aggregate _ = false

unfoldable pub any_aggregate : SelectItems → Bool
unfolding contains_aggregate
any_aggregate no_items = false
any_aggregate (cons_item c cs) = contains_aggregate c || any_aggregate cs

unfoldable pub join_kind : JoinKind → PlanJoinKind
join_kind Ast.left = Plan.left
join_kind Ast.cross = Plan.cross
join_kind _ = Plan.inner

unfoldable pub join_condition : JoinCondition → MaybeExpr
join_condition (on e) = some_expr e
join_condition _ = no_expr

unfoldable pub has_groups : Exprs → Bool
has_groups no_exprs = false
has_groups _ = true

unfoldable pub has_keys : OrderItems → Bool
has_keys no_keys = false
has_keys _ = true

unfoldable pub or_name : Option Bytes → Bytes → Bytes
or_name none name = name
or_name (some alias) name = alias

abbrev pub dual : Plan
dual = Plan.seq_scan (codes "__dual__") none no_expr

unfoldable pub add_aggregate : SelectFields → Plan → Plan
unfolding has_groups any_aggregate
add_aggregate f p =
    if has_groups f.group_by || any_aggregate f.columns
    then Plan.aggregate p f.group_by f.having f.columns
    else p

unfoldable pub add_distinct : SelectFields → Plan → Plan
add_distinct f p = if f.distinct then Plan.distinct p else p

unfoldable pub add_sort : SelectFields → Plan → Plan
unfolding has_keys
add_sort f p = if has_keys f.order_by then Plan.sort p f.order_by else p

unfoldable pub or_zero : Option ℕ → ℕ
or_zero none = 0
or_zero (some n) = n

limited : Option ℕ → ℕ → Plan → Plan
limited (some n) offset p = Plan.limit p (some n) offset
limited none offset p = if ltb 0 offset then Plan.limit p none offset else p

unfoldable pub add_limit : SelectFields → Plan → Plan
unfolding expr_to_u64 or_zero limited
add_limit f p = limited (expr_to_u64 f.limit) (or_zero (expr_to_u64 f.offset)) p

unfoldable pub add_projection : SelectFields → Plan → Plan
unfolding any_aggregate
add_projection f p = if any_aggregate f.columns then p else Plan.projection p f.columns

unfoldable pub add_ctes : CtePlans → Plan → Plan
add_ctes no_plans p = p
add_ctes (cons_plan name q qs) p = Plan.cte (cons_plan name q qs) p

unfoldable pub set_op : Bool → SetOp
set_op true = Plan.union_all
set_op false = Plan.union

unfoldable pub plan_ctes : {E : Type 0} → (SelectStmt → Outcome E Plan) → Ctes → Outcome E CtePlans
plan_ctes again no_ctes = done no_plans
plan_ctes again (cons_cte name query cs) = do
  p ← again query
  ps ← plan_ctes again cs
  done (cons_plan name p ps)

unfoldable pub add_union :
    {E : Type 0} → (SelectStmt → Outcome E Plan) → MaybeUnion → Plan → Outcome E Plan
unfolding set_op
add_union again no_union p = done p
add_union again (some_union query all) p = do
  right ← again query
  done (Plan.set_operation p right (set_op all))

module _ {S : Type 0} (catalog : Catalog Expr S) where
  first_named : Bytes → List (Column Expr) → Bool
  first_named column [] = false
  first_named column (c ∷ cs) = chars_eq c.name column

  unfoldable pub is_primary_key : Bytes → Bytes → Bool
  unfolding first_named
  is_primary_key table column = elim (get_table table catalog) [
    | none ↦ false
    | some meta ↦ first_named column meta.schema.columns
  ]

  unfoldable pub scan_for : Bytes → Option Bytes → Expr → Option (Bytes × Expr) → Plan
  unfolding is_primary_key
  scan_for table alias e none = Plan.seq_scan table alias (some_expr e)
  scan_for table alias e (some (col, val)) =
      if is_primary_key table col
      then Plan.index_scan table alias col val
      else Plan.seq_scan table alias (some_expr e)

  -- The source's `Result` is always `Ok`.
  unfoldable pub plan_table_scan : Bytes → Option Bytes → MaybeExpr → Plan
  unfolding scan_for extract_eq_condition
  plan_table_scan table alias no_expr = Plan.seq_scan table alias no_expr
  plan_table_scan table alias (some_expr e) = scan_for table alias e (extract_eq_condition e)

  unfoldable pub add_joins : Joins → Plan → Plan
  unfolding plan_table_scan join_condition join_kind
  add_joins no_joins p = p
  add_joins (cons_join kind table condition js) p = add_joins js (
      Plan.join p (plan_table_scan table.name table.alias no_expr) (join_condition condition)
        (join_kind kind))

unfoldable pub is_pushed_down : (Expr → Expr → Bool) → Plan → Expr → Bool
is_pushed_down expr_eq (Plan.seq_scan table alias (some_expr g)) e = expr_eq g e
is_pushed_down expr_eq (Plan.index_scan table alias column value) e = true
is_pushed_down expr_eq _ e = false

unfoldable pub add_where : (Expr → Expr → Bool) → MaybeExpr → Plan → Plan
unfolding is_pushed_down
add_where expr_eq no_expr p = p
add_where expr_eq (some_expr e) p = if is_pushed_down expr_eq p e then p else Plan.filter p e

module _ {E S : Type 0} (catalog : Catalog Expr S) (parse : Bytes → Result E (List Statement))
    (expr_eq : Expr → Expr → Bool) where
  -- Steps 2 to 8 and the rest of `plan_select`, from the scan of the source on.
  unfoldable pub plan_rest :
      (SelectStmt → Outcome E Plan) → CtePlans → SelectFields → Plan → Outcome E Plan
  unfolding add_joins add_where add_aggregate add_distinct add_sort add_limit add_projection
      add_ctes add_union
  plan_rest again ctes f source =
      let joined = add_joins catalog f.joins source in
      let rows = add_aggregate f (add_where expr_eq f.where_ joined) in
      let page = add_limit f (add_sort f (add_distinct f rows)) in
      add_union again f.union_with (add_ctes ctes (add_projection f page))

  unfoldable pub view_query : Bytes → Result E (List Statement) → Outcome E SelectStmt
  view_query name (err e) = failed (invalid_view_query e)
  view_query name (ok []) = panicked
  view_query name (ok (Ast.select q ∷ rest)) = done q
  view_query name (ok (_ ∷ rest)) = failed (view_is_not_a_select name)

  -- `get_view(..).unwrap()`.
  unfoldable pub view_text : Option ViewMeta → Outcome E Bytes
  view_text none = panicked
  view_text (some view) = done view.query

  unfoldable pub plan_view : (SelectStmt → Outcome E Plan) → TableRef → Outcome E Plan
  unfolding view_query view_text or_name
  plan_view again tref = do
    text ← view_text (get_view tref.name catalog)
    query ← view_query tref.name (parse text)
    inner ← again query
    done (Plan.subquery_scan inner (or_name tref.alias tref.name))

  -- Step 1, which returns at once where the table is a view.
  unfoldable pub plan_from :
      (SelectStmt → Outcome E Plan) → CtePlans → SelectFields → MaybeFrom → Outcome E Plan
  unfolding plan_rest plan_view plan_table_scan
  plan_from again ctes f no_from = plan_rest again ctes f dual
  plan_from again ctes f (some_from (from_subquery query alias)) = do
    inner ← again query
    plan_rest again ctes f (Plan.subquery_scan inner alias)
  plan_from again ctes f (some_from (from_table tref)) =
      if view_exists tref.name catalog
      then plan_view again tref
      else plan_rest again ctes f (plan_table_scan catalog tref.name tref.alias f.where_)

  unfoldable pub plan_select : ℕ → SelectStmt → Outcome E Plan
  unfolding plan_from plan_ctes fields
  plan_select zero s = exhausted
  plan_select (suc fuel) s = do
    ctes ← plan_ctes (plan_select fuel) (fields s).with_
    plan_from (plan_select fuel) ctes (fields s) (fields s).from

  unfoldable pub plan_insert : InsertStmt → Outcome E Plan
  plan_insert s =
      if table_exists s.table catalog
      then done (Plan.insert s.table s.columns (Plan.values s.values) s.default_values)
      else failed (table_does_not_exist s.table)

  unfoldable pub plan_update : UpdateStmt → Outcome E Plan
  unfolding plan_table_scan
  plan_update s =
      if table_exists s.table catalog
      then done (Plan.update s.table (plan_table_scan catalog s.table none s.where_) s.sets)
      else failed (table_does_not_exist s.table)

  unfoldable pub plan_delete : DeleteStmt → Outcome E Plan
  unfolding plan_table_scan
  plan_delete s =
      if table_exists s.table catalog
      then done (Plan.delete s.table (plan_table_scan catalog s.table none s.where_))
      else failed (table_does_not_exist s.table)

  unfoldable pub plan : ℕ → Statement → Outcome E Plan
  unfolding plan_select plan_insert plan_update plan_delete
  plan fuel (Ast.select s) = plan_select fuel s
  plan fuel (Ast.insert s) = plan_insert s
  plan fuel (Ast.update s) = plan_update s
  plan fuel (Ast.delete s) = plan_delete s
  plan fuel (Ast.create_table s) = done (Plan.create_table s)
  plan fuel (Ast.drop_table s) = done (Plan.drop_table s.name s.if_exists)
  plan fuel (Ast.create_index s) = done (Plan.create_index s)
  plan fuel (Ast.drop_index s) = done (Plan.drop_index s.name s.if_exists)
  plan fuel (Ast.alter_table s) = done (Plan.alter_table s)
  plan fuel (Ast.pragma s) = done (Plan.pragma s.name s.value)
  plan fuel (Ast.explain inner) = do p ← plan fuel inner; done (Plan.explain p)
  plan fuel (Ast.create_view s) = done (Plan.create_view s)
  plan fuel (Ast.drop_view s) = done (Plan.drop_view s.name s.if_exists)
  plan fuel (Ast.create_trigger s) = done (Plan.create_trigger s)
  plan fuel (Ast.drop_trigger s) = done (Plan.drop_trigger s.name s.if_exists)
  plan fuel (Ast.reindex s) = done (Plan.reindex s.name)
  plan fuel (Ast.analyze s) = done (Plan.analyze s.name)
  plan fuel (Ast.attach path alias) = done (Plan.attach path alias)
  plan fuel (Ast.detach alias) = done (Plan.detach alias)
  plan fuel Ast.vacuum = done Plan.vacuum
  plan fuel Ast.begin = done (Plan.transaction Plan.begin)
  plan fuel Ast.commit = done (Plan.transaction Plan.commit)
  plan fuel Ast.rollback = done (Plan.transaction Plan.rollback)
