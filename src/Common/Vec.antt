-- ===== src/Common/Vec.antt =====
-- The methods of `Vec` that panic: `none` is the panic.
use Prim.Native.Nat.{ℕ, zero, suc, ◌≤◌, ◌<◌}
use mathlib.Core.Bool.{Bool, true, false}
use mathlib.Core.List.{List, [], ◌∷◌, ◌++◌}
use mathlib.Core.Path.{◌≡◌, refl, sym, ap}
use native.Mathlib.Omega.{arith}
use sql.Common.Lists.{length, set}
use mathlib.Core.Option.{Option, none, some}
use sql.Common.Tests.{◌>>=◌}

module _ {ℓ} {A : Type ℓ} where
  unfoldable pub insert_at : ℕ → A → List A → Option (List A)
  insert_at zero v xs = some (v ∷ xs)
  insert_at (suc i) v [] = none
  insert_at (suc i) v (x ∷ xs) = do ys ← insert_at i v xs; some (x ∷ ys)

  unfoldable pub remove_at : ℕ → List A → Option (A × List A)
  remove_at i [] = none
  remove_at zero (x ∷ xs) = some (x, xs)
  remove_at (suc i) (x ∷ xs) = do (y, ys) ← remove_at i xs; some (y, x ∷ ys)

  unfoldable pub set_at : ℕ → A → List A → Option (List A)
  set_at i v [] = none
  set_at zero v (x ∷ xs) = some (v ∷ xs)
  set_at (suc i) v (x ∷ xs) = do ys ← set_at i v xs; some (x ∷ ys)

  -- `pop().unwrap()`.
  unfoldable pub pop : List A → Option (A × List A)
  pop [] = none
  pop (x ∷ []) = some (x, [])
  pop (x ∷ (y ∷ xs)) = do (z, ys) ← pop (y ∷ xs); some (z, x ∷ ys)

  -- What stays, and what is split off.
  unfoldable pub split_off : ℕ → List A → Option (List A × List A)
  split_off zero xs = some ([], xs)
  split_off (suc i) [] = none
  split_off (suc i) (x ∷ xs) = do (left, right) ← split_off i xs; some (x ∷ left, right)

  -- `partition_point` of a list that the test splits in two.
  unfoldable pub partition_point : (A → Bool) → List A → ℕ
  partition_point p [] = 0
  partition_point p (x ∷ xs) = elim (p x) [ true ↦ suc (partition_point p xs) | false ↦ 0 ]

  -- `iter().position`.
  unfoldable pub position : (A → Bool) → List A → Option ℕ
  position p [] = none
  position p (x ∷ xs) = elim (p x) [ true ↦ some 0 | false ↦ (position p xs >>= λ i. some (suc i)) ]

  -- Splitting a list within its bounds, and taking an element out of it.
  pub split_off-append :
      (i : ℕ) (xs : List A)
      → i ≤ length xs
      → (l : List A) × ((r : List A) × ((split_off i xs ≡ some (l, r))
            × (l ++ r ≡ xs)
            × (length l ≡ i)))
  unfolding split_off
  split_off-append zero xs h = ([], (xs, (refl, refl, refl)))
  split_off-append (suc i) [] h = elim h [ ]
  split_off-append (suc i) (x ∷ xs) h =
      let (l, (r, (e, whole, len))) = split_off-append i xs (omega arith) in
      (x ∷ l, (r, (rw e refl, ap (◌∷◌ x) whole, ap suc len)))

  pub remove_at-append :
      (i : ℕ) (xs : List A)
      → i < length xs
      → (l : List A) × ((y : A) × ((r : List A) × ((remove_at i xs ≡ some (y, l ++ r))
              × (l ++ (y ∷ r) ≡ xs)
              × (length l ≡ i))))
  unfolding remove_at
  remove_at-append i [] h = elim h [ ]
  remove_at-append zero (x ∷ xs) h = ([], (x, (xs, (refl, refl, refl))))
  remove_at-append (suc i) (x ∷ xs) h =
      let (l, (y, (r, (e, whole, len)))) = remove_at-append i xs (omega arith) in
      (x ∷ l, (y, (r, (rw e refl, ap (◌∷◌ x) whole, ap suc len))))

  pub split_off_at : (l r : List A) (i : ℕ) → length l ≡ i → split_off i (l ++ r) ≡ some (l, r)
  unfolding split_off
  split_off_at [] r i h = rw (sym h) refl
  split_off_at (x ∷ l) r zero h = absurd (omega arith)
  split_off_at (x ∷ l) r (suc i) h = rw (split_off_at l r i (omega arith)) refl

  pub set_at-set : (i : ℕ) (v : A) (xs : List A) → i < length xs → set_at i v xs ≡ some (set xs i v)
  unfolding set_at
  set_at-set i v [] h = elim h [ ]
  set_at-set zero v (x ∷ xs) h = refl
  set_at-set (suc i) v (x ∷ xs) h = rw (set_at-set i v xs (omega arith)) refl
