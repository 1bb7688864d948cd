-- ===== src/Btree/Tree/Split.antt =====
-- The halves of a full node (src/btree/tree.rs, `split_leaf` and `split_internal`).
use sql.Common.{
  ℕ, ◌+◌, ◌/◌, ◌≡◌, ◌<◌, refl, sym, ap, ◌∙◌, arith, List, [], ◌∷◌, ◌++◌, some, length, get_elem?,
  length-append,
}
use sql.Common.Vec.{split_off-append, remove_at-append, split_off_at}
use sql.Btree.Node.{Key, Node, new_leaf, new_internal}
use sql.Btree.Tree.Insert.{halve_leaf, halve_internal}

first_of :
    (l r keys : List Key) (i : ℕ)
    → l ++ r ≡ keys
    → length l ≡ i
    → i < length keys
    → (k : Key) × (get_elem? r 0 ≡ some k)
first_of l (k ∷ r) keys i e len lt = (k, refl)
first_of l [] keys i e len lt = absurd (omega (arith, length-append l [], ap length e))

-- A leaf with at least one key and as many records as keys is halved: the keys of the two halves in
-- a row are its keys and their records its records, the left half has half of the keys, rounded
-- down, and as many records, and the key that goes up is the first of the right half.
pub halve_leaf-append :
    (node : Node)
    → 0 < length node.keys
    → length node.records ≡ length node.keys
    → (k : Key) × ((l : Node) × ((r : Node) × ((halve_leaf node ≡ some (k, (l, r)))
            × (l.keys ++ r.keys ≡ node.keys)
            × (l.records ++ r.records ≡ node.records)
            × (length l.keys ≡ length node.keys / 2)
            × (length l.records ≡ length l.keys)
            × (get_elem? r.keys 0 ≡ some k))))
unfolding halve_leaf new_leaf
halve_leaf-append node pos same =
    let mid : ℕ = length node.keys / 2 in
    let (kl, (kr, (ke, kw, kn))) = split_off-append mid node.keys (omega arith) in
    let (rl, (rr, (re, rw', rn))) = split_off-append mid node.records (omega (arith, same)) in
    let (k, first) = first_of kl kr node.keys mid kw kn (omega arith) in
    (
      k,
      (
        record node { keys = kl; records = rl },
        (
          record new_leaf { keys = kr; records = rr },
          (rw (ke, re, first) refl, kw, rw', kn, rn ∙ sym kn, first),
        ),
      ),
    )

-- An internal node with at least one key and one child more than keys is halved: the left keys, the
-- key that goes up and the right keys in a row are its keys, the children of the halves in a row
-- are its children, the left half has half of the keys, rounded down, and each half has one child
-- more than keys.
pub halve_internal-append :
    (node : Node)
    → 0 < length node.keys
    → length node.children ≡ length node.keys + 1
    → (k : Key) × ((l : Node) × ((r : Node) × ((halve_internal node ≡ some (k, (l, r)))
            × (l.keys ++ (k ∷ r.keys) ≡ node.keys)
            × (l.children ++ r.children ≡ node.children)
            × (length l.keys ≡ length node.keys / 2)
            × (length l.children ≡ length l.keys + 1)
            × (length r.children ≡ length r.keys + 1))))
unfolding halve_internal new_internal
halve_internal-append node pos same =
    let mid : ℕ = length node.keys / 2 in
    let (kl, (k, (kr, (ke, kw, kn)))) = remove_at-append mid node.keys (omega arith) in
    let (cl, (cr, (ce, cw, cn))) = split_off-append (mid + 1) node.children (omega (arith, same)) in
    (
      k,
      (
        record node { keys = kl; children = cl },
        (
          record new_internal { keys = kr; children = cr },
          (
            rw (ke, split_off_at kl kr mid kn, ce) refl,
            kw,
            cw,
            kn,
            omega (arith, cn, kn),
            omega (
              arith,
              ap length kw,
              ap length cw,
              length-append kl (k ∷ kr),
              length-append cl cr,
              same,
              cn,
              kn,
            ),
          ),
        ),
      ),
    )
