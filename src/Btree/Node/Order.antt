-- ===== src/Btree/Node/Order.antt =====
-- The order of keys (src/btree/node.rs, `Key`).
use Prim.Native.Nat.{compare, Ordering}
use sql.Common.{◌≢◌, ℕ, [], ◌∷◌, ◌≡◌, refl, ap, subst, ◌↔◌, arith, if◌then◌else◌, Bool, true, false}
use sql.Common.Int.{pos, negsuc}
use sql.Common.Bytes.{Bytes}
use sql.Btree.Node.{Key, integer, text, bytes_compare, key_compare, key_eq}

-- `Ordering::reverse`.
abbrev pub reverse : Ordering → Ordering
reverse Ordering.lt = Ordering.gt
reverse Ordering.eq = Ordering.eq
reverse Ordering.gt = Ordering.lt

compare_flip : (a b : ℕ) → compare b a ≡ reverse (compare a b)
compare_flip a b = ground arith

compare_refl : (a : ℕ) → compare a a ≡ Ordering.eq
compare_refl a = ground arith

bytes_compare_flip : (s t : Bytes) → bytes_compare t s ≡ reverse (bytes_compare s t)
unfolding bytes_compare
bytes_compare_flip [] [] = refl
bytes_compare_flip [] (b ∷ t) = refl
bytes_compare_flip (a ∷ s) [] = refl
bytes_compare_flip (a ∷ s) (b ∷ t) = ground (arith, compare_flip a b, bytes_compare_flip s t)

bytes_compare_refl : (s : Bytes) → bytes_compare s s ≡ Ordering.eq
unfolding bytes_compare
bytes_compare_refl [] = refl
bytes_compare_refl (a ∷ s) = ground (arith, compare_refl a, bytes_compare_refl s)

bytes_compare-eq : (s t : Bytes) → bytes_compare s t ≡ Ordering.eq → s ≡ t
unfolding bytes_compare
bytes_compare-eq [] [] e = refl
bytes_compare-eq [] (b ∷ t) e = cc
bytes_compare-eq (a ∷ s) [] e = cc
bytes_compare-eq (a ∷ s) (b ∷ t) e = ground (arith, bytes_compare-eq s t)

bytes_compare_trans :
    (s t u : Bytes)
    → bytes_compare s t ≡ Ordering.lt
    → bytes_compare t u ≡ Ordering.lt
    → bytes_compare s u ≡ Ordering.lt
unfolding bytes_compare
bytes_compare_trans [] [] u p q = cc
bytes_compare_trans [] (b ∷ t) [] p q = cc
bytes_compare_trans [] (b ∷ t) (c ∷ u) p q = refl
bytes_compare_trans (a ∷ s) [] u p q = cc
bytes_compare_trans (a ∷ s) (b ∷ t) [] p q = cc
bytes_compare_trans (a ∷ s) (b ∷ t) (c ∷ u) p q = ground (arith, bytes_compare_trans s t u)

-- Comparing the other way round gives the reverse answer.
pub key_compare_flip : (a b : Key) → key_compare b a ≡ reverse (key_compare a b)
unfolding key_compare
key_compare_flip (integer (pos a)) (integer (pos b)) = ground (arith, compare_flip a b)
key_compare_flip (integer (pos a)) (integer (negsuc b)) = refl
key_compare_flip (integer (negsuc a)) (integer (pos b)) = refl
key_compare_flip (integer (negsuc a)) (integer (negsuc b)) = ground (arith, compare_flip b a)
key_compare_flip (integer a) (text b) = refl
key_compare_flip (text a) (integer b) = refl
key_compare_flip (text a) (text b) = bytes_compare_flip a b

pub key_compare_refl : (a : Key) → key_compare a a ≡ Ordering.eq
unfolding key_compare
key_compare_refl (integer (pos a)) = compare_refl a
key_compare_refl (integer (negsuc a)) = compare_refl a
key_compare_refl (text a) = bytes_compare_refl a

pub key_compare-eq : (a b : Key) → key_compare a b ≡ Ordering.eq → a ≡ b
unfolding key_compare
key_compare-eq (integer (pos a)) (integer (pos b)) e = ground arith
key_compare-eq (integer (pos a)) (integer (negsuc b)) e = cc
key_compare-eq (integer (negsuc a)) (integer (pos b)) e = cc
key_compare-eq (integer (negsuc a)) (integer (negsuc b)) e = ground arith
key_compare-eq (integer a) (text b) e = cc
key_compare-eq (text a) (integer b) e = cc
key_compare-eq (text a) (text b) e = ap text (bytes_compare-eq a b e)

-- The strict order of keys, integers before texts, is transitive.
pub key_compare_trans :
    (a b c : Key)
    → key_compare a b ≡ Ordering.lt
    → key_compare b c ≡ Ordering.lt
    → key_compare a c ≡ Ordering.lt
unfolding key_compare
key_compare_trans (text a) (text b) (text c) p q = bytes_compare_trans a b c p q
key_compare_trans (integer (pos a)) (integer (pos b)) (integer (pos c)) p q = ground arith
key_compare_trans (integer (pos a)) (integer (negsuc b)) c p q = cc
key_compare_trans (integer a) (integer (pos b)) (integer (negsuc c)) p q = cc
key_compare_trans (integer (negsuc a)) (integer (pos b)) (integer (pos c)) p q = refl
key_compare_trans (integer (negsuc a)) (integer (negsuc b)) (integer (pos c)) p q = refl
key_compare_trans (integer (negsuc a)) (integer (negsuc b)) (integer (negsuc c)) p q = ground arith
key_compare_trans (integer a) (integer b) (text c) p q = refl
key_compare_trans (integer a) (text b) (text c) p q = refl
key_compare_trans (integer a) (text b) (integer c) p q = cc
key_compare_trans (text a) (integer b) c p q = cc
key_compare_trans (text a) (text b) (integer c) p q = cc

-- Comparing two keys the other way round gives the reverse answer, and the answer eq means that
-- they are the same key.
pub key_compare-flip_eq :
    (a b : Key)
    → (key_compare b a ≡ reverse (key_compare a b)) × ((key_compare a b ≡ Ordering.eq) ↔ (a ≡ b))
key_compare-flip_eq a b = (
  key_compare_flip a b,
  (key_compare-eq a b, λ e. subst (λ k. key_compare a k ≡ Ordering.eq) e (key_compare_refl a)),
)

same_key : (k : Key) → key_eq k k ≡ true
same_key k = ap (λ o. elim o as (λ _. Bool) [ Ordering.eq ↦ true | _ ↦ false ]) (key_compare_refl k)

pub key_eq_refl : (k : Key) {A : Type 0} (x y : A) → (if key_eq k k then x else y) ≡ x
key_eq_refl k x y = ap (λ b. if b then x else y) (same_key k)

pub key_eq-false : (a b : Key) → a ≢ b → key_eq a b ≡ false
key_eq-false a b ne = go (key_compare a b) refl
  where
    go :
        (o : Ordering)
        → key_compare a b ≡ o
        → elim o as (λ _. Bool) [ Ordering.eq ↦ true | _ ↦ false ] ≡ false
    go Ordering.eq e = absurd (ne (key_compare-eq a b e))
    go Ordering.lt e = refl
    go Ordering.gt e = refl
