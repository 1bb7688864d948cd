-- ===== src/Planner/Select/Ending.antt =====
-- src/planner/planner.rs: how deep `plan_select` goes.
use sql.Common.{
  ℕ, zero, suc, ◌≤◌, List, [], ◌∷◌, Bool, true, false, Option, none, some, ◌≡◌, ◌≢◌, refl, arith,
  if◌then◌else◌,
}
use Prim.Native.Nat.{max}
use sql.Common.Bytes.{Bytes}
use sql.Common.Result.{Result, ok, err}
use sql.Catalog.Meta.{ViewMeta}
use sql.Catalog.State.{Catalog, get_view, view_exists}
use sql.Parser.Ast
use sql.Parser.Ast.{
  Expr, SelectStmt, SelectFields, fields, MaybeFrom, Ctes, MaybeUnion, Statement, TableRef,
  select_stmt, no_ctes, cons_cte, no_from, some_from, from_table, from_subquery, no_union,
  some_union,
}
use sql.Planner.Plan.{Plan, CtePlans}
use sql.Planner.Select.{
  Outcome, done, failed, panicked, exhausted, ◌>>=◌, plan_ctes, add_union, plan_rest, view_query,
  view_text, plan_view, or_name, plan_from, plan_select,
}

-- The levels of statements inside one another, where a view counts with its rank.
unfoldable mutual
  pub select_depth : (Bytes → ℕ) → SelectStmt → ℕ
  select_depth rank
        (select_stmt with_ distinct columns from joins where_ group_by having order_by limit offset
          union_with) =
      suc (max (ctes_depth rank with_) (max (from_depth rank from) (union_depth rank union_with)))

  pub ctes_depth : (Bytes → ℕ) → Ctes → ℕ
  ctes_depth rank no_ctes = 0
  ctes_depth rank (cons_cte name query cs) = max (select_depth rank query) (ctes_depth rank cs)

  pub from_depth : (Bytes → ℕ) → MaybeFrom → ℕ
  from_depth rank no_from = 0
  from_depth rank (some_from (from_table tref)) = rank tref.name
  from_depth rank (some_from (from_subquery query alias)) = select_depth rank query

  pub union_depth : (Bytes → ℕ) → MaybeUnion → ℕ
  union_depth rank no_union = 0
  union_depth rank (some_union query all) = select_depth rank query

-- Each view is ranked at least as high as its statement is deep.
unfoldable pub IsRanked :
    {E S : Type 0} → Catalog Expr S → (Bytes → Result E (List Statement)) → (Bytes → ℕ) → Type 0
IsRanked catalog parse rank =
    (name : Bytes) (view : ViewMeta) (q : SelectStmt) (rest : List Statement)
    → get_view name catalog ≡ some view
    → parse view.query ≡ ok (Ast.select q ∷ rest)
    → select_depth rank q ≤ rank name

le_trans : {a b c : ℕ} → a ≤ b → b ≤ c → a ≤ c
le_trans h k = omega arith

Ends : {E A : Type 0} → Outcome E A → Type 0
Ends exhausted = ⊥
Ends _ = Unit

bind-Ends :
    {E A B : Type 0} (o : Outcome E A) (f : A → Outcome E B)
    → Ends o
    → ((a : A) → Ends (f a))
    → Ends (o >>= f)
unfolding Ends
bind-Ends (done a) f h k = k a
bind-Ends (failed e) f h k = tt
bind-Ends panicked f h k = tt
bind-Ends exhausted f h k = elim h [ ]

if-Ends :
    {E A : Type 0} (b : Bool) (x y : Outcome E A) → Ends x → Ends y → Ends (if b then x else y)
if-Ends true x y h k = h
if-Ends false x y h k = k

Ends-ne : {E A : Type 0} (o : Outcome E A) → Ends o → o ≢ exhausted
unfolding Ends
Ends-ne (done a) h e = cc
Ends-ne (failed a) h e = cc
Ends-ne panicked h e = cc
Ends-ne exhausted h e = elim h [ ]

abbrev Again : Type 0 → Type 0
Again E = SelectStmt → Outcome E Plan

module _ {E S : Type 0} (catalog : Catalog Expr S) (parse : Bytes → Result E (List Statement))
    (expr_eq : Expr → Expr → Bool) (rank : Bytes → ℕ) where
  plan_ctes-Ends :
      (again : Again E) (n : ℕ) (cs : Ctes)
      → ((q : SelectStmt) → select_depth rank q ≤ n → Ends (again q))
      → ctes_depth rank cs ≤ n
      → Ends (plan_ctes again cs)
  unfolding plan_ctes Ends ctes_depth
  plan_ctes-Ends again n no_ctes k h = tt
  plan_ctes-Ends again n (cons_cte name query cs) k h =
      bind-Ends (again query) _ (k query (omega arith))
        λ p. bind-Ends (plan_ctes again cs) _ (plan_ctes-Ends again n cs k (omega arith)) λ ps. tt

  plan_rest-Ends :
      (again : Again E) (n : ℕ) (ctes : CtePlans) (f : SelectFields) (p : Plan)
      → ((q : SelectStmt) → select_depth rank q ≤ n → Ends (again q))
      → union_depth rank f.union_with ≤ n
      → Ends (plan_rest catalog parse expr_eq again ctes f p)
  unfolding plan_rest Ends select_depth union_depth
  plan_rest-Ends again n ctes f p k h = go f.union_with _ h
    where
      go : (u : MaybeUnion) (q : Plan) → union_depth rank u ≤ n → Ends (add_union again u q)
      go no_union q h = tt
      go (some_union query all) q h = bind-Ends (again query) _ (k query h) λ right. tt

  query-Ends :
      (again : Again E) (tref : TableRef) (r : Result E (List Statement))
      → ((q : SelectStmt) (rest : List Statement) → r ≡ ok (Ast.select q ∷ rest) → Ends (again q))
      → Ends (
          view_query catalog parse expr_eq tref.name r >>= λ query.
          again query >>= λ inner. done (Plan.subquery_scan inner (or_name tref.alias tref.name)))
  unfolding Ends view_query
  query-Ends again tref (err e) k = tt
  query-Ends again tref (ok []) k = tt
  query-Ends again tref (ok (Ast.select q ∷ rest)) k =
      bind-Ends (again q) _ (k q rest refl) λ inner. tt
  query-Ends again tref (ok (_ ∷ rest)) k = tt

  plan_view-Ends :
      (again : Again E) (n : ℕ) (tref : TableRef)
      → IsRanked catalog parse rank
      → ((q : SelectStmt) → select_depth rank q ≤ n → Ends (again q))
      → rank tref.name ≤ n
      → Ends (plan_view catalog parse expr_eq again tref)
  unfolding plan_view IsRanked Ends view_text
  plan_view-Ends again n tref ranked k h = go (get_view tref.name catalog) refl
    where
      go :
          (o : Option ViewMeta)
          → get_view tref.name catalog ≡ o
          → Ends (
              view_text catalog parse expr_eq o >>= λ text.
              view_query catalog parse expr_eq tref.name (parse text) >>= λ query.
              again query >>= λ inner.
              done (Plan.subquery_scan inner (or_name tref.alias tref.name)))
      go none e = tt
      go (some view) e =
          query-Ends again tref (parse view.query)
            λ q rest e'. k q (le_trans (ranked tref.name view q rest e e') h)

  plan_from-Ends :
      (again : Again E) (n : ℕ) (ctes : CtePlans) (f : SelectFields) (from : MaybeFrom)
      → IsRanked catalog parse rank
      → ((q : SelectStmt) → select_depth rank q ≤ n → Ends (again q))
      → from_depth rank from ≤ n
      → union_depth rank f.union_with ≤ n
      → Ends (plan_from catalog parse expr_eq again ctes f from)
  unfolding plan_from from_depth
  plan_from-Ends again n ctes f no_from ranked k h u = plan_rest-Ends again n ctes f _ k u
  plan_from-Ends again n ctes f (some_from (from_subquery query alias)) ranked k h u =
      bind-Ends (again query) _ (k query h) λ inner. plan_rest-Ends again n ctes f _ k u
  plan_from-Ends again n ctes f (some_from (from_table tref)) ranked k h u =
      if-Ends (view_exists tref.name catalog) _ _ (plan_view-Ends again n tref ranked k h)
        (plan_rest-Ends again n ctes f _ k u)

  plan_select-Ends :
      (fuel : ℕ) (s : SelectStmt)
      → IsRanked catalog parse rank
      → select_depth rank s ≤ fuel
      → Ends (plan_select catalog parse expr_eq fuel s)
  unfolding plan_select select_depth fields
  plan_select-Ends zero (select_stmt w d c f j e g h o l off u) ranked k = absurd (omega arith)
  plan_select-Ends (suc fuel) (select_stmt w d c f j e g h o l off u) ranked k =
      let again : (q : SelectStmt)
          → select_depth rank q ≤ fuel
          → Ends (plan_select catalog parse expr_eq fuel q) =
        λ q h'. plan_select-Ends fuel q ranked h' in
      bind-Ends (plan_ctes (plan_select catalog parse expr_eq fuel) w) _
        (plan_ctes-Ends (plan_select catalog parse expr_eq fuel) fuel w again (omega arith))
        λ ctes.
          plan_from-Ends (plan_select catalog parse expr_eq fuel) fuel ctes
            (fields (select_stmt w d c f j e g h o l off u)) f ranked again (omega arith)
            (omega arith)

  -- Where every view of the catalog whose text parses to a SELECT is ranked at least as high as
  -- that SELECT is deep, counting a view with its rank: plan_select with fuel for the depth of a
  -- statement, with its CTEs, subqueries, views and unions, does not run out of it.
  pub plan_select-ends :
      (fuel : ℕ) (s : SelectStmt)
      → IsRanked catalog parse rank
      → select_depth rank s ≤ fuel
      → plan_select catalog parse expr_eq fuel s ≢ exhausted
  plan_select-ends fuel s ranked h = Ends-ne _ (plan_select-Ends fuel s ranked h)
