-- ===== src/Planner/Patterns/Like.antt =====
-- src/planner/executor.rs, `like_match`, against the meaning of a pattern.
use sql.Common.{
  chars_eq, chars_eq_iff, ℕ, List, [], ◌∷◌, ◌++◌, ◌≡◌, ◌≢◌, refl, sym, ap, append-nil, ◌↔◌, ◌⊎◌,
  inl, inr, Bool, true, ◌||◌, ◌&&◌, and_iff, or_iff, ◌==◌, if◌then◌else◌, ==_iff, ==_refl, ==_ne,
  ℕ_discrete, subst,
}
use sql.Planner.Patterns.{any_suffix, is_empty, like_match}
use sql.Planner.Patterns.Pieces.{Matches}

-- Some way to split the text leaves a suffix that the test accepts.
any_suffix_iff :
    (f : List ℕ → Bool) (s : List ℕ)
    → (any_suffix f s ≡ true) ↔ ((u : List ℕ) × (t : List ℕ) × (s ≡ u ++ t) × (f t ≡ true))
unfolding any_suffix
any_suffix_iff f [] = (λ e. ([], [], refl, e), last)
  where
    last : ((u : List ℕ) × (t : List ℕ) × ([] ≡ u ++ t) × (f t ≡ true)) → f [] ≡ true
    last ([], t, e, h) = subst (λ x. f x ≡ true) (sym e) h
    last (c ∷ u, t, e, h) = absurd cc
any_suffix_iff f (c ∷ s) = (
  λ e. elim ((or_iff (f (c ∷ s)) (any_suffix f s)).0 e) [
    | inl h ↦ ([], c ∷ s, refl, h)
    | inr h ↦
        let (u, t, e', k) : (u : List ℕ) × (t : List ℕ) × (s ≡ u ++ t) × (f t ≡ true) =
          (any_suffix_iff f s).0 h in
        (c ∷ u, t, ap (λ x. c ∷ x) e', k)
  ],
  λ x. (or_iff (f (c ∷ s)) (any_suffix f s)).1 (found (any_suffix_iff f s).1 x),
)
  where
    found :
        (((u : List ℕ) × (t : List ℕ) × (s ≡ u ++ t) × (f t ≡ true)) → any_suffix f s ≡ true)
        → ((u : List ℕ) × (t : List ℕ) × (c ∷ s ≡ u ++ t) × (f t ≡ true))
        → (f (c ∷ s) ≡ true) ⊎ (any_suffix f s ≡ true)
    found rest ([], t, e, h) = inl (subst (λ x. f x ≡ true) (sym e) h)
    found rest (d ∷ u, t, e, h) = inr (rest (u, t, cc, h))

module _ (upper : ℕ → List ℕ) where
  -- A percent sign allows any piece, an underscore any character, and any other character those
  -- that have its upper case.
  pub LikeFits : ℕ → List ℕ → Type 0
  LikeFits q u =
      (q ≡ b'%') ⊎ ((c : ℕ) × (u ≡ c ∷ []) × (q ≢ b'%') × ((q ≡ b'_') ⊎ (upper q ≡ upper c)))

  abbrev pub Likes : List ℕ → List ℕ → Type 0
  Likes = Matches LikeFits

  percent_case :
      (s rest : List ℕ)
      → ((t : List ℕ) → (like_match upper t rest ≡ true) ↔ Likes t rest)
      → ((if is_empty rest then true else any_suffix (λ t. like_match upper t rest) s) ≡ true)
        ↔ Likes s (b'%' ∷ rest)
  unfolding is_empty Matches LikeFits
  percent_case s [] h = (λ e. (s, [], sym (append-nil s), inl refl, refl), λ m. refl)
  percent_case s (r ∷ rest) h =
      let a = any_suffix_iff (λ t. like_match upper t (r ∷ rest)) s in
      (
        λ e.
            let (u, t, e', k) : (u : List ℕ) × (t : List ℕ) × (s ≡ u ++ t)
                × (like_match upper t (r ∷ rest) ≡ true) =
              a.0 e in
            (u, t, e', inl refl, (h t).0 k),
        λ (u, t, e, f, m). a.1 (u, t, e, (h t).1 m),
      )

  -- A first character that is no percent sign.
  first_case :
      (c q : ℕ) (s rest : List ℕ)
      → q ≢ b'%'
      → ((like_match upper s rest ≡ true) ↔ Likes s rest)
      → ((((q == b'_') || chars_eq (upper q) (upper c)) && like_match upper s rest) ≡ true)
        ↔ Likes (c ∷ s) (q ∷ rest)
  unfolding Matches LikeFits
  first_case c q s rest ne h =
      let n = and_iff ((q == b'_') || chars_eq (upper q) (upper c)) (like_match upper s rest) in
      let o = or_iff (q == b'_') (chars_eq (upper q) (upper c)) in
      let i = ==_iff q b'_' in
      let k = chars_eq_iff (upper q) (upper c) in
      (
        λ e. (
          c ∷ [],
          s,
          refl,
          inr (c, refl, ne, elim (o.0 (n.0 e).0) [ inl x ↦ inl (i.0 x) | inr x ↦ inr (k.0 x) ]),
          h.0 (n.0 e).1,
        ),
        λ (u, t, e, f, m). elim f [
          | inl x ↦ absurd (ne x)
          | inr (d, e', _, fits) ↦
              let (x, y) : (c ≡ d) × (s ≡ t) = (cc, cc) in
              n.1 (
                o.1 (elim fits [
                  | inl z ↦ inl (i.1 z)
                  | inr z ↦ inr (k.1 (subst (λ v. upper q ≡ upper v) (sym x) z))
                ]),
                h.1 (subst (λ v. Likes v rest) (sym y) m),
              )
        ],
      )

  no_text : (q : ℕ) (rest : List ℕ) → q ≢ b'%' → ¬ Likes [] (q ∷ rest)
  unfolding Matches LikeFits
  no_text q rest ne ([], t, e, inl x, m) = ne x
  no_text q rest ne (d ∷ u, t, e, f, m) = cc
  no_text q rest ne ([], t, e, inr (d, e', _, _), m) = cc

  -- Whatever the upper case of a character is, like_match answers true exactly if the text splits
  -- into one piece for each character of the pattern, where a percent sign takes any piece, an
  -- underscore any one character and every other character one with the same upper case.
  pub like_match-Likes : (s p : List ℕ) → (like_match upper s p ≡ true) ↔ Likes s p
  unfolding like_match Matches is_empty
  like_match-Likes [] [] = (λ e. refl, λ e. refl)
  like_match-Likes (c ∷ s) [] = (λ e. absurd cc, λ e. absurd cc)
  like_match-Likes [] (q ∷ rest) = elim (ℕ_discrete q b'%') [
    | yes e ↦ rw (e, ==_refl b'%') (percent_case [] rest (λ t. like_match-Likes t rest))
    | no ne ↦ rw (==_ne q b'%' ne) (λ x. absurd cc, λ m. absurd (no_text q rest ne m))
  ]
  like_match-Likes (c ∷ s) (q ∷ rest) = elim (ℕ_discrete q b'%') [
    | yes e ↦ rw (e, ==_refl b'%') (percent_case (c ∷ s) rest (λ t. like_match-Likes t rest))
    | no ne ↦ rw (==_ne q b'%' ne) (first_case c q s rest ne (like_match-Likes s rest))
  ]
