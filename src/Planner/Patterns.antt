-- ===== src/Planner/Patterns.antt =====
-- src/planner/executor.rs: LIKE and GLOB. A text is the list of its characters' code points.
pub mod Pieces
pub mod Glob
pub mod Like
use sql.Common.{
  chars_eq, ℕ, List, [], ◌∷◌, Bool, true, false, ◌&&◌, ◌||◌, ◌==◌, if◌then◌else◌, replicate, length,
}

-- The loop over `dp[0][j]`, where `left` is `dp[0][j-1]`.
unfoldable pub first_cells : Bool → List ℕ → List Bool
first_cells left [] = []
first_cells left (q ∷ p) = let v : Bool = if q == b'*' then left else false in v ∷ first_cells v p

-- The loop over `dp[i][j]`: `left` is `dp[i][j-1]`, and the list holds `dp[i-1]` from `j-1` on.
unfoldable pub next_cells : ℕ → Bool → List Bool → List ℕ → List Bool
next_cells c left (diagonal ∷ up ∷ above) (q ∷ p) =
    let v : Bool =
      if q == b'*' then up || left else if (q == b'?') || (c == q) then diagonal else false in
    v ∷ next_cells c v (up ∷ above) p
next_cells c left _ _ = []

-- The loop over the rows, of which only the last is read again.
unfoldable pub glob_rows : List ℕ → List ℕ → List Bool → List Bool
unfolding next_cells
glob_rows [] p row = row
glob_rows (c ∷ s) p row = glob_rows s p (false ∷ next_cells c false row p)

unfoldable pub last_cell : List Bool → Bool
last_cell [] = false
last_cell (b ∷ []) = b
last_cell (b ∷ d ∷ bs) = last_cell (d ∷ bs)

unfoldable pub glob_match : List ℕ → List ℕ → Bool
unfolding first_cells glob_rows last_cell
glob_match s p = last_cell (glob_rows s p (true ∷ first_cells true p))

-- `(0..=s.len()).any(|i| f(&s[i..]))`.
unfoldable pub any_suffix : (List ℕ → Bool) → List ℕ → Bool
any_suffix f [] = f []
any_suffix f (c ∷ s) = f (c ∷ s) || any_suffix f s

unfoldable pub is_empty : List ℕ → Bool
is_empty [] = true
is_empty (c ∷ s) = false

-- `upper` stands for `char::to_uppercase`.
module _ (upper : ℕ → List ℕ) where
  unfoldable pub like_match : List ℕ → List ℕ → Bool
  unfolding any_suffix is_empty
  like_match s [] = is_empty s
  like_match [] (q ∷ rest) =
      if q == b'%'
      then (if is_empty rest then true else any_suffix (λ t. like_match t rest) [])
      else false
  like_match (c ∷ s) (q ∷ rest) =
      if q == b'%'
      then (if is_empty rest then true else any_suffix (λ t. like_match t rest) (c ∷ s))
      else ((q == b'_') || chars_eq (upper q) (upper c)) && like_match s rest
