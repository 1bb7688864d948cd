-- ===== src/Planner/Constraints/Checked.antt =====
-- src/planner/constraints.rs: the arms of `check_row`, one by one.
use sql.Common.{
  ℕ, List, [], ◌∷◌, Bool, true, false, Option, none, some, if◌then◌else◌, map, ◌≡◌, refl, ◌↔◌, ◌⊎◌,
  inl, inr, All, subst,
}
use sql.Common.Bytes.{Bytes}
use sql.Common.Result.{Result, ok, err, ok_or, ◌>>=◌}
use sql.Table.Row.{Row, Value, get}
use sql.Table.Schema.{Schema, index_of}
use sql.Parser.Ast.{Expr}
use sql.Planner.Constraints.{
  Constraint, ConstraintError, TableConstraints, Done, not_null, unique, check, foreign_key,
  is_null, null_or_none, values_at, any_null, indexes_of, values_eq, no_duplicate, check_value,
  check_constraint, check_all, check_row, column_not_found, not_null_failed, unique_failed,
  check_failed,
}

abbrev Accepts : Done → Type 0
Accepts d = d ≡ ok tt

refuse_iff : (b : Bool) (e : ConstraintError) → Accepts (if b then err e else ok tt) ↔ (b ≡ false)
refuse_iff true e = (λ h. absurd cc, λ h. absurd cc)
refuse_iff false e = (λ h. refl, λ h. refl)

accept_iff : (b : Bool) (e : ConstraintError) → Accepts (if b then ok tt else err e) ↔ (b ≡ true)
accept_iff true e = (λ h. refl, λ h. refl)
accept_iff false e = (λ h. absurd cc, λ h. absurd cc)

and_then :
    (d : Done) (k : Done) {P Q : Type 0}
    → Accepts d ↔ P
    → Accepts k ↔ Q
    → Accepts (d >>= λ _. k) ↔ (P × Q)
and_then (ok tt) k p q = (λ h. (p.0 refl, q.0 h), λ h. q.1 h.1)
and_then (err e) k p q = (λ h. absurd cc, λ h. absurd (no_error e (p.1 h.0)))
  where
    no_error : (e' : ConstraintError) → Accepts (err e') → ⊥
    no_error e' h = cc

module _ (eval_expr : Expr → Row → List Bytes → Option Value) (is_truthy : Value → Bool)
    (value_eq : Value → Value → Bool) (row : Row) (schema : Schema Expr) (existing : List Row) where
  -- What each arm of the check asks for, in the words of the code's own tests.
  unfoldable pub Passes : Constraint → Type 0
  Passes (not_null column) =
      (i : ℕ) × (v : Value) × (index_of schema column ≡ some i)
      × (get row i ≡ some v)
      × (is_null v ≡ false)
  Passes (unique columns) =
      (idxs : List ℕ) × (indexes_of schema columns ≡ ok idxs)
      × ((any_null (values_at idxs row) ≡ true)
          ⊎ All
              (λ r.
                values_eq eval_expr is_truthy value_eq (values_at idxs r) (values_at idxs row)
                ≡ false)
              existing)
  Passes (check e) =
      (v : Value) → eval_expr e row (map (λ c. c.name) schema.columns) ≡ some v → is_truthy v ≡ true
  Passes (foreign_key columns ref_table ref_columns) = Unit

  no_duplicate_iff :
      (columns : List Bytes) (idxs : List ℕ) (new_vals : List Value) (rows : List Row)
      → Accepts (no_duplicate eval_expr is_truthy value_eq columns idxs new_vals rows)
        ↔ All (λ r. values_eq eval_expr is_truthy value_eq (values_at idxs r) new_vals ≡ false) rows
  unfolding no_duplicate
  no_duplicate_iff columns idxs new_vals [] = (λ e. tt, λ a. refl)
  no_duplicate_iff columns idxs new_vals (r ∷ rs) =
      go (values_eq eval_expr is_truthy value_eq (values_at idxs r) new_vals)
        (no_duplicate_iff columns idxs new_vals rs)
    where
      go :
          {P : Type 0} (b : Bool) {d : Done}
          → Accepts d ↔ P
          → Accepts (if b then err (unique_failed columns) else d) ↔ ((b ≡ false) × P)
      go true h = (λ e. absurd cc, λ a. absurd cc)
      go false h = (λ e. (refl, h.0 e), λ a. h.1 a.1)

  not_null_iff :
      (column : Bytes)
      → Accepts
          (check_constraint eval_expr is_truthy value_eq row schema existing (not_null column))
        ↔ Passes (not_null column)
  unfolding check_constraint Passes ok_or
  not_null_iff column = go (index_of schema column)
    where
      at :
          (o : Option Value)
          → Accepts (if null_or_none o then err (not_null_failed column) else ok tt)
            ↔ ((v : Value) × (o ≡ some v) × (is_null v ≡ false))
      at none = (λ h. absurd cc, λ (v, e, n). absurd cc)
      at (some w) =
          let g = refuse_iff (is_null w) (not_null_failed column) in
          (
            λ h. (w, refl, g.0 h),
            λ (v, e, n). g.1 (let z : v ≡ w = cc in subst (λ x. is_null x ≡ false) z n),
          )

      go :
          (o : Option ℕ)
          → Accepts (
              ok_or o (column_not_found column) >>= λ i.
              if null_or_none (get row i) then err (not_null_failed column) else ok tt)
            ↔ ((i : ℕ) × (v : Value) × (o ≡ some i) × (get row i ≡ some v) × (is_null v ≡ false))
      go none = (λ h. absurd cc, λ (i, v, e, g, n). absurd cc)
      go (some j) = (
        λ h. let (v, e, n) = (at (get row j)).0 h in (j, v, refl, e, n),
        λ (i, v, e, g, n).
            (at (get row j)).1 (v, (let z : i ≡ j = cc in subst (λ k. get row k ≡ some v) z g), n),
      )

  unique_iff :
      (columns : List Bytes)
      → Accepts (check_constraint eval_expr is_truthy value_eq row schema existing (unique columns))
        ↔ Passes (unique columns)
  unfolding check_constraint Passes
  unique_iff columns = go (indexes_of schema columns)
    where
      IsNew : List ℕ → Type 0
      IsNew idxs =
          (any_null (values_at idxs row) ≡ true)
          ⊎ All
              (λ r.
                values_eq eval_expr is_truthy value_eq (values_at idxs r) (values_at idxs row)
                ≡ false)
              existing

      at :
          (idxs : List ℕ) (b : Bool)
          → Accepts (
              if b
              then ok tt
              else no_duplicate eval_expr is_truthy value_eq columns idxs
                  (values_at idxs row)
                  existing)
            ↔ ((b ≡ true)
                ⊎ All
                    (λ r.
                      values_eq eval_expr is_truthy value_eq (values_at idxs r) (values_at idxs row)
                      ≡ false)
                    existing)
      at idxs true = (λ h. inl refl, λ h. refl)
      at idxs false =
          let d = no_duplicate_iff columns idxs (values_at idxs row) existing in
          (λ h. inr (d.0 h), λ s. elim s [ inl e ↦ absurd cc | inr a ↦ d.1 a ])

      go :
          (o : Result ConstraintError (List ℕ))
          → Accepts (
              o >>= λ idxs.
              if any_null (values_at idxs row)
              then ok tt
              else no_duplicate eval_expr is_truthy value_eq columns idxs
                  (values_at idxs row)
                  existing)
            ↔ ((idxs : List ℕ) × (o ≡ ok idxs) × IsNew idxs)
      go (err x) = (λ h. absurd cc, λ (i, e, n). absurd cc)
      go (ok js) = (
        λ h. (js, refl, (at js (any_null (values_at js row))).0 h),
        λ (is, e, n).
            (at js (any_null (values_at js row))).1 (let z : is ≡ js = cc in subst IsNew z n),
      )

  check_iff :
      (e : Expr)
      → Accepts (check_constraint eval_expr is_truthy value_eq row schema existing (check e))
        ↔ Passes (check e)
  unfolding check_constraint Passes check_value
  check_iff e = go (eval_expr e row (map (λ c. c.name) schema.columns))
    where
      go :
          (o : Option Value)
          → Accepts (check_value eval_expr is_truthy value_eq o)
            ↔ ((v : Value) → o ≡ some v → is_truthy v ≡ true)
      go none = (λ h v e'. absurd cc, λ h. refl)
      go (some w) =
          let a = accept_iff (is_truthy w) check_failed in
          (
            λ h v e'. (let z : w ≡ v = cc in subst (λ x. is_truthy x ≡ true) z (a.0 h)),
            λ h. a.1 (h w refl),
          )

  check_constraint_iff :
      (c : Constraint)
      → Accepts (check_constraint eval_expr is_truthy value_eq row schema existing c) ↔ Passes c
  unfolding check_constraint Passes
  check_constraint_iff (not_null column) = not_null_iff column
  check_constraint_iff (unique columns) = unique_iff columns
  check_constraint_iff (check e) = check_iff e
  check_constraint_iff (foreign_key columns ref_table ref_columns) = (λ h. tt, λ h. refl)

  check_all_iff :
      (cs : List Constraint)
      → Accepts (check_all eval_expr is_truthy value_eq row schema existing cs) ↔ All Passes cs
  unfolding check_all
  check_all_iff [] = (λ h. tt, λ h. refl)
  check_all_iff (c ∷ cs) = and_then _ _ (check_constraint_iff c) (check_all_iff cs)

  pub check_row-Passes :
      (tc : TableConstraints)
      → (check_row eval_expr is_truthy value_eq row schema tc existing ≡ ok tt)
        ↔ All Passes tc.constraints
  unfolding check_row
  check_row-Passes tc = check_all_iff tc.constraints
