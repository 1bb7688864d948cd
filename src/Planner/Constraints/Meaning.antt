-- ===== src/Planner/Constraints/Meaning.antt =====
-- src/planner/constraints.rs: what it means that a row satisfies a constraint.
use sql.Common.{
  ℕ, List, [], ◌∷◌, Bool, true, false, Option, some, map, ◌≡◌, ◌≢◌, refl, ◌↔◌, ◌⊎◌, inl, inr, All,
  or_iff, and_iff,
}
use sql.Common.Bytes.{Bytes}
use sql.Common.Result.{ok}
use sql.Table.Row.{Row, Value, null, integer, text, boolean, float, get}
use sql.Table.Schema.{Schema, index_of}
use sql.Parser.Ast.{Expr}
use sql.Planner.Constraints.{
  Constraint, TableConstraints, not_null, unique, check, foreign_key, is_null, values_at, any_null,
  indexes_of, values_eq, check_row,
}
use sql.Planner.Constraints.Checked.{Passes, check_row-Passes}

HasNull : List Value → Type 0
HasNull [] = ⊥
HasNull (v ∷ vs) = (v ≡ null) ⊎ HasNull vs

is_null_iff : (v : Value) → (is_null v ≡ true) ↔ (v ≡ null)
unfolding is_null
is_null_iff null = (λ h. refl, λ h. refl)
is_null_iff (integer i) = (λ h. absurd cc, λ h. absurd cc)
is_null_iff (text t) = (λ h. absurd cc, λ h. absurd cc)
is_null_iff (boolean b) = (λ h. absurd cc, λ h. absurd cc)
is_null_iff (float x) = (λ h. absurd cc, λ h. absurd cc)

false_iff : (b : Bool) {P : Type 0} → (b ≡ true) ↔ P → (b ≡ false) ↔ (¬ P)
false_iff true h = (λ e. absurd cc, λ n. absurd (n (h.0 refl)))
false_iff false h = (λ e p. let x : false ≡ true = h.1 p in cc, λ n. refl)

any_null_iff : (vs : List Value) → (any_null vs ≡ true) ↔ HasNull vs
unfolding any_null HasNull
any_null_iff [] = (λ e. absurd cc, λ n. absurd n)
any_null_iff (v ∷ vs) =
    let o = or_iff (is_null v) (any_null vs) in
    let i = is_null_iff v in
    let r = any_null_iff vs in
    (
      λ e. elim (o.0 e) [ inl x ↦ inl (i.0 x) | inr x ↦ inr (r.0 x) ],
      λ h. o.1 (elim h [ inl x ↦ inl (i.1 x) | inr x ↦ inr (r.1 x) ]),
    )

All_iff :
    {A : Type 0} {P Q : A → Type 0} (xs : List A) → ((x : A) → P x ↔ Q x) → All P xs ↔ All Q xs
All_iff [] h = (λ a. tt, λ a. tt)
All_iff (x ∷ xs) h =
    let r = All_iff xs h in (λ a. ((h x).0 a.0, r.0 a.1), λ a. ((h x).1 a.0, r.1 a.1))

module _ (eval_expr : Expr → Row → List Bytes → Option Value) (is_truthy : Value → Bool)
    (value_eq : Value → Value → Bool) where
  -- As many values, equal one by one.
  Same : List Value → List Value → Type 0
  Same [] [] = Unit
  Same (v ∷ vs) (w ∷ ws) = (value_eq v w ≡ true) × Same vs ws
  Same _ _ = ⊥

  values_eq_iff :
      (vs ws : List Value) → (values_eq eval_expr is_truthy value_eq vs ws ≡ true) ↔ Same vs ws
  unfolding values_eq Same
  values_eq_iff [] [] = (λ e. tt, λ h. refl)
  values_eq_iff [] (w ∷ ws) = (λ e. absurd cc, λ h. absurd h)
  values_eq_iff (v ∷ vs) [] = (λ e. absurd cc, λ h. absurd h)
  values_eq_iff (v ∷ vs) (w ∷ ws) =
      let n = and_iff (value_eq v w) (values_eq eval_expr is_truthy value_eq vs ws) in
      let r = values_eq_iff vs ws in (λ e. ((n.0 e).0, r.0 (n.0 e).1), λ h. n.1 (h.0, r.1 h.1))

module _ (eval_expr : Expr → Row → List Bytes → Option Value) (is_truthy : Value → Bool)
    (value_eq : Value → Value → Bool) (row : Row) (schema : Schema Expr) (existing : List Row) where
  -- NOT NULL: the column is there with a value that is not null. UNIQUE: the columns are there, and
  -- one value is null or no row that exists has equal values. CHECK: the condition is true, if it has
  -- a value. A foreign key asks for nothing.
  pub Holds : Constraint → Type 0
  Holds (not_null column) =
      (i : ℕ) × (v : Value) × (index_of schema column ≡ some i) × (get row i ≡ some v) × (v ≢ null)
  Holds (unique columns) =
      (idxs : List ℕ) × (indexes_of schema columns ≡ ok idxs)
      × (HasNull (values_at idxs row)
          ⊎ All (λ r. ¬ Same eval_expr is_truthy value_eq (values_at idxs r) (values_at idxs row))
              existing)
  Holds (check e) =
      (v : Value) → eval_expr e row (map (λ c. c.name) schema.columns) ≡ some v → is_truthy v ≡ true
  Holds (foreign_key columns ref_table ref_columns) = Unit

  Passes-Holds :
      (c : Constraint) → Passes eval_expr is_truthy value_eq row schema existing c ↔ Holds c
  unfolding Passes Holds
  Passes-Holds (not_null column) = (
    λ (i, v, e, g, n). (i, v, e, g, (false_iff (is_null v) (is_null_iff v)).0 n),
    λ (i, v, e, g, n). (i, v, e, g, (false_iff (is_null v) (is_null_iff v)).1 n),
  )
  Passes-Holds (unique columns) = (
    λ (idxs, e, s). (
      idxs,
      e,
      elim s [
        | inl h ↦ inl ((any_null_iff (values_at idxs row)).0 h)
        | inr a ↦ inr ((differ idxs).0 a)
      ],
    ),
    λ (idxs, e, s). (
      idxs,
      e,
      elim s [
        | inl h ↦ inl ((any_null_iff (values_at idxs row)).1 h)
        | inr a ↦ inr ((differ idxs).1 a)
      ],
    ),
  )
    where
      differ :
          (idxs : List ℕ)
          → All
              (λ r.
                values_eq eval_expr is_truthy value_eq (values_at idxs r) (values_at idxs row)
                ≡ false)
              existing
            ↔ All
                (λ r. ¬ Same eval_expr is_truthy value_eq (values_at idxs r) (values_at idxs row))
                existing
      differ idxs = All_iff existing λ r.
          false_iff _
            (values_eq_iff eval_expr is_truthy value_eq (values_at idxs r) (values_at idxs row))
  Passes-Holds (check e) = (λ h. h, λ h. h)
  Passes-Holds (foreign_key columns ref_table ref_columns) = (λ h. h, λ h. h)

  -- Whatever evaluates a CHECK and compares values, check_row accepts a row exactly if every
  -- constraint holds: a NOT NULL column is there with a value that is not null; the columns of a
  -- UNIQUE are there, and one of the row's values is null or no row that exists has equal ones; a
  -- CHECK that has a value is true; a foreign key asks for nothing.
  pub check_row-Holds :
      (tc : TableConstraints)
      → (check_row eval_expr is_truthy value_eq row schema tc existing ≡ ok tt)
        ↔ All Holds tc.constraints
  check_row-Holds tc =
      let p = check_row-Passes eval_expr is_truthy value_eq row schema existing tc in
      let q = All_iff tc.constraints Passes-Holds in (λ e. q.0 (p.0 e), λ a. p.1 (q.1 a))
