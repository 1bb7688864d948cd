-- ===== src/Planner/Patterns/Glob.antt =====
-- src/planner/executor.rs, `glob_match`: the table against the meaning of a pattern.
use sql.Common.{
  ℕ, List, [], ◌∷◌, ◌++◌, ◌≡◌, ◌≢◌, refl, sym, ap, ◌∙◌, ◌↔◌, ◌⊎◌, inl, inr, append-nil,
  append_assoc, Bool, true, false, ◌||◌, ◌==◌, if◌then◌else◌, arith, or_iff, ==_refl, ==_ne,
  ℕ_discrete, subst,
}
use sql.Planner.Patterns.{first_cells, next_cells, glob_rows, last_cell, glob_match}
use sql.Planner.Patterns.Pieces.{Matches, Ends, Matches-snoc, snoc-Matches}

-- A star allows any piece, a question mark any character, and any other character itself.
pub GlobFits : ℕ → List ℕ → Type 0
GlobFits q u = (q ≡ b'*') ⊎ ((c : ℕ) × (u ≡ c ∷ []) × (q ≢ b'*') × ((q ≡ b'?') ⊎ (c ≡ q)))

abbrev pub Globs : List ℕ → List ℕ → Type 0
Globs = Matches GlobFits

-- A text that ends in `c`, split in two.
split_snoc :
    (t v u : List ℕ) (c : ℕ)
    → t ++ (c ∷ []) ≡ v ++ u
    → ((u ≡ []) × (v ≡ t ++ (c ∷ []))) ⊎ ((w : List ℕ) × (u ≡ w ++ (c ∷ [])) × (t ≡ v ++ w))
split_snoc t [] u c e = inr (t, sym e, refl)
split_snoc [] (x ∷ []) [] c e = inl (refl, sym e)
split_snoc [] (x ∷ []) (y ∷ u) c e = absurd cc
split_snoc [] (x ∷ y ∷ v) u c e = absurd cc
split_snoc (x ∷ t) (y ∷ v) u c e = elim (split_snoc t v u c (cc)) [
  | inl (a, b) ↦ inl (a, cc)
  | inr (w, a, b) ↦ inr (w, a, cc)
]

snoc_injective : (t v : List ℕ) (c d : ℕ) → t ++ (c ∷ []) ≡ v ++ (d ∷ []) → (t ≡ v) × (c ≡ d)
snoc_injective [] [] c d e = (refl, cc)
snoc_injective [] (y ∷ []) c d e = absurd cc
snoc_injective [] (y ∷ z ∷ v) c d e = absurd cc
snoc_injective (x ∷ []) [] c d e = absurd cc
snoc_injective (x ∷ z ∷ t) [] c d e = absurd cc
snoc_injective (x ∷ t) (y ∷ v) c d e =
    let (a, b) : (t ≡ v) × (c ≡ d) = snoc_injective t v c d cc in (cc, b)

snoc_not_nil : (v : List ℕ) (c : ℕ) → [] ≢ v ++ (c ∷ [])
snoc_not_nil [] c e = absurd cc
snoc_not_nil (x ∷ v) c e = absurd cc

append_is_nil : (v u : List ℕ) → [] ≡ v ++ u → (v ≡ []) × (u ≡ [])
append_is_nil [] u e = (refl, sym e)
append_is_nil (x ∷ v) u e = absurd cc

-- The last character of the pattern, by what it is.
star_nil : (d : List ℕ) → Globs [] (d ++ (b'*' ∷ [])) ↔ Globs [] d
unfolding GlobFits Ends
star_nil d = (
  (λ m.
      let (t, u, e, f, n) : Ends GlobFits [] d b'*' = snoc-Matches GlobFits [] d b'*' m in
      subst (λ x. Globs x d) (append_is_nil t u e).0 n),
  (λ n. Matches-snoc GlobFits [] d b'*' ([], [], refl, inl refl, n)),
)

other_nil : (d : List ℕ) (q : ℕ) → q ≢ b'*' → ¬ Globs [] (d ++ (q ∷ []))
unfolding GlobFits Ends
other_nil d q ne m =
    let (t, u, e, f, n) : Ends GlobFits [] d q = snoc-Matches GlobFits [] d q m in
    elim f [ inl s ↦ ne s | inr (c, e', _, _) ↦ snoc_not_nil t c (e ∙ ap (λ x. t ++ x) e') ]

star_snoc :
    (t d : List ℕ) (c : ℕ)
    → Globs (t ++ (c ∷ [])) (d ++ (b'*' ∷ []))
      ↔ (Globs t (d ++ (b'*' ∷ [])) ⊎ Globs (t ++ (c ∷ [])) d)
unfolding GlobFits Ends
star_snoc t d c = (
  (λ m.
      let (v, u, e, f, n) : Ends GlobFits (t ++ (c ∷ [])) d b'*' =
        snoc-Matches GlobFits (t ++ (c ∷ [])) d b'*' m in
      elim (split_snoc t v u c e) [
        | inl (a, b) ↦ inr (subst (λ x. Globs x d) b n)
        | inr (w, a, b) ↦ inl (Matches-snoc GlobFits t d b'*' (v, w, b, inl refl, n))
      ]),
  (λ s. elim s [
    | inl m ↦ more (snoc-Matches GlobFits t d b'*' m)
    | inr n ↦
        Matches-snoc GlobFits (t ++ (c ∷ [])) d b'*'
          (t ++ (c ∷ []), [], sym (append-nil (t ++ (c ∷ []))), inl refl, n)
  ]),
)
  where
    more : Ends GlobFits t d b'*' → Globs (t ++ (c ∷ [])) (d ++ (b'*' ∷ []))
    more (v, u, e, f, n) =
        Matches-snoc GlobFits (t ++ (c ∷ [])) d b'*'
          (v, u ++ (c ∷ []), ap (λ x. x ++ (c ∷ [])) e ∙ append_assoc v u (c ∷ []), inl refl, n)

other_snoc :
    (t d : List ℕ) (c q : ℕ)
    → q ≢ b'*'
    → Globs (t ++ (c ∷ [])) (d ++ (q ∷ [])) ↔ (Globs t d × ((q ≡ b'?') ⊎ (c ≡ q)))
unfolding GlobFits Ends
other_snoc t d c q ne = (
  (λ m.
      let (v, u, e, f, n) : Ends GlobFits (t ++ (c ∷ [])) d q =
        snoc-Matches GlobFits (t ++ (c ∷ [])) d q m in
      elim f [
        | inl s ↦ absurd (ne s)
        | inr (c', e', _, fits) ↦
            let (a, b) : (t ≡ v) × (c ≡ c') = snoc_injective t v c c' (e ∙ ap (λ x. v ++ x) e') in
            (subst (λ x. Globs x d) (sym a) n, subst (λ x. (q ≡ b'?') ⊎ (x ≡ q)) (sym b) fits)
      ]),
  (λ s. Matches-snoc GlobFits (t ++ (c ∷ [])) d q (t, c ∷ [], refl, inr (c, refl, ne, s.1), s.0)),
)

abbrev Decides : Bool → Type 0 → Type 0
Decides b P = (b ≡ true) ↔ P

-- A row of the table from the pattern's prefix `d` on, for the text's prefix `t`.
Row : List ℕ → List ℕ → List Bool → List ℕ → Type 0
Row t d (b ∷ []) [] = Decides b (Globs t d)
Row t d (b ∷ bs) (q ∷ p) = Decides b (Globs t d) × Row t (d ++ (q ∷ [])) bs p
Row t d _ _ = ⊥

Row-head : (t d p : List ℕ) (b : Bool) (bs : List Bool) → Row t d (b ∷ bs) p → Decides b (Globs t d)
unfolding Row
Row-head t d [] b [] r = r
Row-head t d [] b (b' ∷ bs) r = elim r [ ]
Row-head t d (q ∷ p) b [] r = r.0
Row-head t d (q ∷ p) b (b' ∷ bs) r = r.0

if_Decides :
    (a b : Bool) (P A : Type 0)
    → Decides a A
    → Decides b P
    → Decides (if a then b else false) (P × A)
if_Decides true b P A ha hb = (λ e. (hb.0 e, ha.0 refl), λ x. hb.1 x.0)
if_Decides false b P A ha hb = (λ e. absurd cc, λ x. ha.1 x.1)

-- What `next_cells` puts in a cell.
cell_lem :
    (t d : List ℕ) (c q : ℕ) (diagonal up left : Bool)
    → Decides diagonal (Globs t d)
    → Decides up (Globs t (d ++ (q ∷ [])))
    → Decides left (Globs (t ++ (c ∷ [])) d)
    → Decides
        (if q == b'*' then up || left else if (q == b'?') || (c == q) then diagonal else false)
        (Globs (t ++ (c ∷ [])) (d ++ (q ∷ [])))
cell_lem t d c q diagonal up left hd hu hl = elim (ℕ_discrete q b'*') [
  | yes e ↦ rw (e, ==_refl b'*') (star (subst (λ x. Decides up (Globs t (d ++ (x ∷ [])))) e hu))
  | no ne ↦ rw (==_ne q b'*' ne) (other ne)
]
  where
    star :
        Decides up (Globs t (d ++ (b'*' ∷ [])))
        → Decides (up || left) (Globs (t ++ (c ∷ [])) (d ++ (b'*' ∷ [])))
    star h =
        let s = star_snoc t d c in
        let o = or_iff up left in
        (
          λ e. s.1 (elim (o.0 e) [ inl a ↦ inl (h.0 a) | inr b ↦ inr (hl.0 b) ]),
          λ m. o.1 (elim (s.0 m) [ inl a ↦ inl (h.1 a) | inr b ↦ inr (hl.1 b) ]),
        )

    same : Decides ((q == b'?') || (c == q)) ((q ≡ b'?') ⊎ (c ≡ q))
    same = ground arith

    other :
        q ≢ b'*'
        → Decides
            (if (q == b'?') || (c == q) then diagonal else false)
            (Globs (t ++ (c ∷ [])) (d ++ (q ∷ [])))
    other ne =
        let s = other_snoc t d c q ne in
        let i = if_Decides _ diagonal _ _ same hd in (λ e. s.1 (i.0 e), λ m. i.1 (s.0 m))

first_cells-Row :
    (d p : List ℕ) (left : Bool)
    → Decides left (Globs [] d)
    → Row [] d (left ∷ first_cells left p) p
unfolding first_cells Row
first_cells-Row d [] left h = h
first_cells-Row d (q ∷ p) left h = (
  h,
  first_cells-Row (d ++ (q ∷ [])) p _ (elim (ℕ_discrete q b'*') [
    | yes e ↦ rw (e, ==_refl b'*') (λ x. (star_nil d).1 (h.0 x), λ m. h.1 ((star_nil d).0 m))
    | no ne ↦ rw (==_ne q b'*' ne) (λ x. absurd cc, λ m. absurd (other_nil d q ne m))
  ]),
)

next_cells-Row :
    (t d : List ℕ) (c : ℕ) (left : Bool) (row : List Bool) (p : List ℕ)
    → Row t d row p
    → Decides left (Globs (t ++ (c ∷ [])) d)
    → Row (t ++ (c ∷ [])) d (left ∷ next_cells c left row p) p
unfolding next_cells Row
next_cells-Row t d c left [] p r h = elim r [ ]
next_cells-Row t d c left (b ∷ []) (q ∷ p) r h = elim r.1 [ ]
next_cells-Row t d c left (b ∷ b' ∷ bs) [] r h = elim r [ ]
next_cells-Row t d c left (b ∷ []) [] r h = h
next_cells-Row t d c left (diagonal ∷ up ∷ above) (q ∷ p) r h = (
  h,
  next_cells-Row t (d ++ (q ∷ [])) c _ (up ∷ above) p r.1
      (cell_lem t d c q diagonal up left r.0 (Row-head t (d ++ (q ∷ [])) p up above r.1) h),
)

glob_rows-Row :
    (t s p : List ℕ) (row : List Bool) → Row t [] row p → Row (t ++ s) [] (glob_rows s p row) p
unfolding glob_rows Matches
glob_rows-Row t [] p row r = subst (λ x. Row x [] row p) (sym (append-nil t)) r
glob_rows-Row t (c ∷ s) p row r =
    subst (λ x. Row x [] (glob_rows (c ∷ s) p row) p) (append_assoc t (c ∷ []) s)
      (glob_rows-Row (t ++ (c ∷ [])) s p _ (
        next_cells-Row t [] c false row p r
          (λ e. absurd cc, λ m. absurd (snoc_not_nil t c (sym m)))))

last_cell-Row :
    (t d : List ℕ) (row : List Bool) (p : List ℕ)
    → Row t d row p
    → Decides (last_cell row) (Globs t (d ++ p))
unfolding last_cell Row
last_cell-Row t d [] p r = elim r [ ]
last_cell-Row t d (b ∷ []) (q ∷ p) r = elim r.1 [ ]
last_cell-Row t d (b ∷ b' ∷ bs) [] r = elim r [ ]
last_cell-Row t d (b ∷ []) [] r = rw (append-nil d) r
last_cell-Row t d (b ∷ b' ∷ bs) (q ∷ p) r =
    subst (λ x. Decides (last_cell (b' ∷ bs)) (Globs t x)) (append_assoc d (q ∷ []) p)
      (last_cell-Row t (d ++ (q ∷ [])) (b' ∷ bs) p r.1)

-- The table of glob_match answers true exactly if the text splits into one piece for each character
-- of the pattern, where a star takes any piece, a question mark any one character and every other
-- character itself.
pub glob_match-Globs : (s p : List ℕ) → (glob_match s p ≡ true) ↔ Globs s p
unfolding glob_match Matches
glob_match-Globs s p = last_cell-Row s [] (glob_rows s p (true ∷ first_cells true p)) p (
    glob_rows-Row [] s p (true ∷ first_cells true p)
      (first_cells-Row [] p true (λ e. refl, λ m. refl)))
