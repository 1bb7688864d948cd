-- ===== src/Parser/Lexer/Tables.antt =====
-- src/parser/lexer.rs: lookups in the tables of keywords and symbols.
use sql.Common.{
  ℕ, zero, suc, List, [], ◌∷◌, Bool, true, false, ◌&&◌, some, if◌then◌else◌, ◌≡◌, refl, All, arith,
  subst, and_iff, get_elem?, chars_eq, chars_eq_iff,
}
use sql.Parser.Token.{Token, keywords, find_keyword, is_eof}

pub All-get_elem? :
    {A : Type 0} (P : A → Type 0) (xs : List A) (i : ℕ) (x : A)
    → All P xs
    → get_elem? xs i ≡ some x
    → P x
All-get_elem? P [] i x a e = absurd cc
All-get_elem? P (y ∷ ys) zero x a e = let z : y ≡ x = cc in subst P z a.0
All-get_elem? P (y ∷ ys) (suc i) x a e = All-get_elem? P ys i x a.1 e

unfoldable pub absent : List ℕ → List (List ℕ × Token) → Bool
absent w [] = true
absent w ((v, t) ∷ m) = if chars_eq w v then false else absent w m

unfoldable pub distinct : List (List ℕ × Token) → Bool
distinct [] = true
distinct ((w, t) ∷ m) = absent w m && distinct m

pub keywords-distinct : distinct keywords ≡ true
unfolding distinct absent chars_eq
keywords-distinct = refl

pub unless : (b c : Bool) → (if b then false else c) ≡ true → (b ≡ false) × (c ≡ true)
unless b c h = ground arith

pub absent-get_elem? :
    (v : List ℕ) (m : List (List ℕ × Token)) (i : ℕ) (w : List ℕ) (t : Token)
    → absent v m ≡ true
    → get_elem? m i ≡ some (w, t)
    → chars_eq v w ≡ false
unfolding absent
absent-get_elem? v [] i w t h e = absurd cc
absent-get_elem? v ((x, u) ∷ m) zero w t h e =
    let z : x ≡ w = cc in subst (λ q. chars_eq v q ≡ false) z (unless _ (absent v m) h).0
absent-get_elem? v ((x, u) ∷ m) (suc i) w t h e =
    absent-get_elem? v m i w t (unless (chars_eq v x) _ h).1 e

pub find_keyword-get_elem? :
    (m : List (List ℕ × Token)) (i : ℕ) (w : List ℕ) (t : Token)
    → distinct m ≡ true
    → get_elem? m i ≡ some (w, t)
    → find_keyword w m ≡ some t
unfolding find_keyword distinct
find_keyword-get_elem? [] i w t d e = absurd cc
find_keyword-get_elem? ((v, u) ∷ m) zero w t d e =
    let z : v ≡ w = cc in rw ((chars_eq_iff v w).1 z) cc
find_keyword-get_elem? ((v, u) ∷ m) (suc i) w t d e =
    let n : (absent v m ≡ true) × (distinct m ≡ true) = (and_iff (absent v m) (distinct m)).0 d in
    rw (absent-get_elem? v m i w t n.0 e) (find_keyword-get_elem? m i w t n.1 e)

unfoldable pub eof_free : List (List ℕ × Token) → Bool
unfolding is_eof
eof_free [] = true
eof_free ((w, t) ∷ m) = if is_eof t then false else eof_free m

pub eof_free-get_elem? :
    (m : List (List ℕ × Token)) (i : ℕ) (w : List ℕ) (t : Token)
    → eof_free m ≡ true
    → get_elem? m i ≡ some (w, t)
    → is_eof t ≡ false
unfolding eof_free
eof_free-get_elem? [] i w t h e = absurd cc
eof_free-get_elem? ((v, u) ∷ m) zero w t h e =
    let z : u ≡ t = cc in subst (λ x. is_eof x ≡ false) z (unless _ (eof_free m) h).0
eof_free-get_elem? ((v, u) ∷ m) (suc i) w t h e =
    eof_free-get_elem? m i w t (unless (is_eof u) _ h).1 e
