-- ===== src/Btree/Tree/Borrow.antt =====
-- A leaf that borrows from the one on its right (src/btree/tree.rs, `borrow_from_right`).
use sql.Common.{
  ℕ, ◌+◌, ◌≡◌, ◌<◌, refl, ap, arith, List, [], ◌∷◌, ◌++◌, some, true, length, set, get_elem?,
  get_elem?-set_self, append_assoc, length-append,
}
use sql.Common.Vec.{remove_at, set_at-set}
use sql.Btree.Node.{Key, Record, Node, is_leaf}
use sql.Btree.Tree.Delete.{shift_left}

shift_parts :
    (pos : ℕ) (pn child right : Node) (ks : List Key) (rs : List Record)
    → right.keys ≡ ks
    → right.records ≡ rs
    → is_leaf child ≡ true
    → 1 < length ks
    → length rs ≡ length ks
    → pos < length pn.keys
    → (pn' : Node) × ((child' : Node) × ((right' : Node) × ((shift_left pos (pn, (child, right))
              ≡ some (pn', (child', right')))
            × (child'.keys ++ right'.keys ≡ child.keys ++ ks)
            × (child'.records ++ right'.records ≡ child.records ++ rs)
            × (length child'.keys ≡ length child.keys + 1)
            × (get_elem? pn'.keys pos ≡ get_elem? right'.keys 0))))
unfolding shift_left remove_at
shift_parts pos pn child right [] rs ek er leaf many same here = absurd (omega arith)
shift_parts pos pn child right (k ∷ []) rs ek er leaf many same here = absurd (omega arith)
shift_parts pos pn child right (k ∷ (j ∷ ks)) [] ek er leaf many same here = absurd (omega arith)
shift_parts pos pn child right (k ∷ (j ∷ ks)) (r ∷ rs) ek er leaf many same here =
    let e1 : remove_at 0 right.keys ≡ some (k, j ∷ ks) = ap (remove_at 0) ek in
    let e2 : remove_at 0 right.records ≡ some (r, rs) = ap (remove_at 0) er in
    (
      record pn { keys = set pn.keys pos j },
      (
        record child { keys = child.keys ++ (k ∷ []); records = child.records ++ (r ∷ []) },
        (
          record right { keys = j ∷ ks; records = rs },
          (
            rw (leaf, e1, e2, set_at-set pos j pn.keys here) refl,
            append_assoc child.keys (k ∷ []) (j ∷ ks),
            append_assoc child.records (r ∷ []) rs,
            length-append child.keys (k ∷ []),
            get_elem?-set_self pn.keys pos j here,
          ),
        ),
      ),
    )

-- A leaf borrows from a right sibling that has at least two keys and as many records, where the
-- parent has a key at their place: the leaf has one key more, the keys of the two leaves in a row
-- are as they were, and so are their records, and the parent's key at that place is the first key
-- of the sibling.
pub shift_left-append :
    (pos : ℕ) (pn child right : Node)
    → is_leaf child ≡ true
    → 1 < length right.keys
    → length right.records ≡ length right.keys
    → pos < length pn.keys
    → (pn' : Node) × ((child' : Node) × ((right' : Node) × ((shift_left pos (pn, (child, right))
              ≡ some (pn', (child', right')))
            × (child'.keys ++ right'.keys ≡ child.keys ++ right.keys)
            × (child'.records ++ right'.records ≡ child.records ++ right.records)
            × (length child'.keys ≡ length child.keys + 1)
            × (get_elem? pn'.keys pos ≡ get_elem? right'.keys 0))))
shift_left-append pos pn child right leaf many same here =
    shift_parts pos pn child right right.keys right.records refl refl leaf many same here
