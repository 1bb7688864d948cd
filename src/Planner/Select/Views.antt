-- ===== src/Planner/Select/Views.antt =====
-- src/planner/planner.rs: SELECTs from a view, and from one that `exec_create_view` (src/planner/executor.rs)
-- has stored.
use sql.Common.{ℕ, zero, suc, List, Bool, true, ◌≡◌, refl, if◌then◌else◌}
use sql.Common.Bytes.{Bytes, codes}
use sql.Common.Result.{Result}
use sql.Catalog.State.{Catalog, view_exists}
use sql.Parser.Ast.{
  Expr, SelectStmt, SelectFields, fields, MaybeFrom, Statement, no_from, some_from, from_table,
  from_subquery,
}
use sql.Planner.Plan.{Plan, CtePlans}
use sql.Planner.Select.{
  Outcome, done, failed, panicked, exhausted, ◌>>=◌, plan_ctes, plan_select, plan_from,
}
use sql.Common.Assoc
use sql.Catalog.State.{CatalogError, already_exists, create_view}
use sql.Common.Result.{ok, err}
use sql.Parser.Token.{Token}
use sql.Parser.Ast.{CreateViewStmt}
use sql.Parser.Sql.{parse}
use sql.Planner.Select.Steps.{is_view}

bind-ext :
    {E A B : Type 0} (o : Outcome E A) {f g : A → Outcome E B}
    → ((a : A) → f a ≡ g a)
    → (o >>= f) ≡ (o >>= g)
bind-ext (done a) h = h a
bind-ext (failed e) h = refl
bind-ext panicked h = refl
bind-ext exhausted h = refl

module _ {E S : Type 0} (catalog : Catalog Expr S) (parse : Bytes → Result E (List Statement))
    (expr_eq : Expr → Expr → Bool) where
  plan_from-view :
      (again : SelectStmt → Outcome E Plan) (cs : CtePlans) (f g : SelectFields) (from : MaybeFrom)
      → is_view catalog from ≡ true
      → plan_from catalog parse expr_eq again cs f from
        ≡ plan_from catalog parse expr_eq again cs g from
  unfolding plan_from is_view
  plan_from-view again cs f g no_from view = absurd cc
  plan_from-view again cs f g (some_from (from_subquery query alias)) view = absurd cc
  plan_from-view again cs f g (some_from (from_table t)) view = rw view refl

  -- Two SELECTs from the same view with the same CTEs have the same plan, or fail alike, whatever
  -- else they say: columns, joins, WHERE, groups, order, limit and union.
  pub plan_select-view_ignores :
      (fuel : ℕ) (s r : SelectStmt)
      → is_view catalog (fields s).from ≡ true
      → (fields r).with_ ≡ (fields s).with_
      → (fields r).from ≡ (fields s).from
      → plan_select catalog parse expr_eq fuel r ≡ plan_select catalog parse expr_eq fuel s
  unfolding plan_select
  plan_select-view_ignores zero s r view same_with same_from = refl
  plan_select-view_ignores (suc fuel) s r view same_with same_from =
      rw (same_with, same_from)
        (bind-ext (plan_ctes (plan_select catalog parse expr_eq fuel) (fields s).with_) λ cs.
          plan_from-view (plan_select catalog parse expr_eq fuel) cs (fields r) (fields s)
            (fields s).from view)

-- `debug` stands for the derived Debug of a SELECT. The text beside the catalog is the answer.
unfoldable pub exec_create_view :
    {S : Type 0}
    → (SelectStmt → Bytes)
    → CreateViewStmt
    → Catalog Expr S
    → Result CatalogError (Bytes × Catalog Expr S)
exec_create_view debug stmt c =
    if view_exists stmt.name c
    then (if stmt.if_not_exists
        then ok (codes "view already exists", c)
        else err (already_exists stmt.name))
    else (elim (create_view stmt.name (debug stmt.query) c) [
      | ok c' ↦ ok (codes "view created", c')
      | err e ↦ err e
    ])
