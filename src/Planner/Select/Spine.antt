-- ===== src/Planner/Select/Spine.antt =====
-- src/planner/planner.rs: the steps of the plan of a SELECT.
use sql.Common.{ℕ, List, Bool, none, ◌≡◌, refl}
use sql.Common.Bytes.{Bytes, codes}
use sql.Common.Result.{Result}
use sql.Catalog.State.{Catalog}
use sql.Parser.Ast
use sql.Parser.Ast.{
  Expr, MaybeExpr, MaybeFrom, Statement, no_expr, no_from, some_from, from_table, from_subquery,
}
use sql.Planner.Plan.{Plan}
use sql.Planner.Select.{Outcome, done, failed, panicked, exhausted, ◌>>=◌, plan_select}
use sql.Planner.Select.Steps.{Step, scan, inner_query, steps, IsTableStep}

IsSpine : Plan → Plan → Type 0
IsSpine p q = steps p ≡ steps q

pub bind-done :
    {E A B : Type 0} (o : Outcome E A) (f : A → Outcome E B) (b : B)
    → (o >>= f) ≡ done b
    → (a : A) × (o ≡ done a) × (f a ≡ done b)
bind-done (done a) f b h = (a, refl, h)
bind-done (failed e) f b h = absurd cc
bind-done panicked f b h = absurd cc
bind-done exhausted f b h = absurd cc

module _ {E S : Type 0} (catalog : Catalog Expr S) (parse : Bytes → Result E (List Statement))
    (expr_eq : Expr → Expr → Bool) where
  -- The step that a SELECT begins with.
  unfoldable pub IsSourceStep : MaybeFrom → MaybeExpr → Step → Type 0
  unfolding IsTableStep
  IsSourceStep no_from w s = s ≡ scan (codes "__dual__") none no_expr
  IsSourceStep (some_from (from_subquery query alias)) w s =
      (fuel : ℕ) × (q : Plan) × (plan_select catalog parse expr_eq fuel query ≡ done q)
      × (s ≡ inner_query q alias)
  IsSourceStep (some_from (from_table tref)) w s = IsTableStep catalog tref.name tref.alias w s
