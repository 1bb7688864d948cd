-- ===== src/Common/Chars.antt =====
-- Texts as lists of code points: compared, and cut where a test fails.
use Prim.Native.Nat.{ℕ, ◌≤◌}
use native.Mathlib.Omega.{arith}
use mathlib.Core.Path.{◌≡◌, refl}
use mathlib.Core.Logic.{◌↔◌}
use mathlib.Core.Bool.{Bool, true, false, ◌&&◌}
use mathlib.Core.List.{List, [], ◌∷◌}
use sql.Common.Lists.{length}
use sql.Common.Tests.{◌==◌, and_iff, ==_iff}

unfoldable pub chars_eq : List ℕ → List ℕ → Bool
chars_eq [] [] = true
chars_eq (a ∷ s) (b ∷ t) = (a == b) && chars_eq s t
chars_eq _ _ = false

pub chars_eq_iff : (s t : List ℕ) → (chars_eq s t ≡ true) ↔ (s ≡ t)
unfolding chars_eq
chars_eq_iff [] [] = (λ e. refl, λ e. refl)
chars_eq_iff [] (b ∷ t) = (λ e. absurd cc, λ e. absurd cc)
chars_eq_iff (a ∷ s) [] = (λ e. absurd cc, λ e. absurd cc)
chars_eq_iff (a ∷ s) (b ∷ t) =
    let n = and_iff (a == b) (chars_eq s t) in
    let i = ==_iff a b in
    let r = chars_eq_iff s t in
    (
      λ e. let x : a ≡ b = i.0 (n.0 e).0 in let y : s ≡ t = r.0 (n.0 e).1 in cc,
      λ e. n.1 (i.1 cc, r.1 cc),
    )

-- The loop that pushes characters while a test holds.
unfoldable pub take_while : (ℕ → Bool) → List ℕ → List ℕ × List ℕ
take_while f [] = ([], [])
take_while f (c ∷ s) = elim (f c) [
  | true ↦ let rest = take_while f s in (c ∷ rest.0, rest.1)
  | false ↦ ([], c ∷ s)
]

pub take_while-length : (f : ℕ → Bool) (s : List ℕ) → length (take_while f s).1 ≤ length s
unfolding take_while
take_while-length f [] = omega arith
take_while-length f (c ∷ s) = ground (arith, take_while-length f s)
