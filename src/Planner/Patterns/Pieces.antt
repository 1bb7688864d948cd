-- ===== src/Planner/Patterns/Pieces.antt =====
-- What it means for a text to match a pattern: the text splits into one piece for each character of
-- the pattern, and `Fits q u` says which pieces `u` a character `q` allows.
use sql.Common.{ℕ, List, [], ◌∷◌, ◌++◌, ◌≡◌, refl, sym, ap, ◌∙◌, append-nil, append_assoc}

module _ (Fits : ℕ → List ℕ → Type 0) where
  unfoldable pub Matches : List ℕ → List ℕ → Type 0
  Matches s [] = s ≡ []
  Matches s (q ∷ p) = (u : List ℕ) × (t : List ℕ) × (s ≡ u ++ t) × Fits q u × Matches t p

  -- The same, with the pattern's last character split off.
  unfoldable pub Ends : List ℕ → List ℕ → ℕ → Type 0
  Ends s p q = (t : List ℕ) × (u : List ℕ) × (s ≡ t ++ u) × Fits q u × Matches t p

  pub Matches-snoc : (s p : List ℕ) (q : ℕ) → Ends s p q → Matches s (p ++ (q ∷ []))
  unfolding Matches Ends
  Matches-snoc s [] q (t, u, e, f, m) =
      (u, [], e ∙ (ap (λ x. x ++ u) m ∙ sym (append-nil u)), f, refl)
  Matches-snoc s (r ∷ p) q (t, u, e, f, (v, w, e', g, m)) = (
    v,
    w ++ u,
    e ∙ (ap (λ x. x ++ u) e' ∙ append_assoc v w u),
    g,
    Matches-snoc (w ++ u) p q (w, u, refl, f, m),
  )

  pub snoc-Matches : (s p : List ℕ) (q : ℕ) → Matches s (p ++ (q ∷ [])) → Ends s p q
  unfolding Matches Ends
  snoc-Matches s [] q (u, t, e, f, m) = ([], u, e ∙ (ap (λ x. u ++ x) m ∙ append-nil u), f, refl)
  snoc-Matches s (r ∷ p) q (v, w, e, g, m) =
      let (t, u, e', f, n) : Ends w p q = snoc-Matches w p q m in
      (v ++ t, u, e ∙ (ap (λ x. v ++ x) e' ∙ sym (append_assoc v t u)), f, (v, t, refl, g, n))
