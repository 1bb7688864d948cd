-- ===== src/Btree/Tree/Delete.antt =====
-- src/btree/tree.rs: `delete`, and the rebalancing of the nodes that it leaves with too few keys.
use sql.Common.{
  ℕ, zero, suc, ◌+◌, ◌-◌, ◌/◌, List, [], ◌∷◌, ◌++◌, Option, none, some, Bool, true, false, not, ltb,
  ◌&&◌, ◌==◌, if◌then◌else◌, get_elem?, length, ◌>>=◌,
}
use sql.Common.Vec.{remove_at, set_at, pop, position}
use sql.Btree.Node.{Key, Node, is_leaf, key_eq}
use sql.Btree.Tree.{BPlusTree, child_position}
use sql.Btree.Tree.Insert.{read, write}
use sql.Pager.Storage.{Storage}

-- The nodes of a rebalancing: the parent, the child on the left and the one on the right.
abbrev pub Family : Type 0
Family = Node × (Node × Node)

-- `borrow_from_right`, with the child on the left.
unfoldable pub shift_left : ℕ → Family → Option Family
shift_left pos (pn, (child, right)) =
    if is_leaf child
    then (do
      (bk, right_keys) ← remove_at 0 right.keys
      (br, right_records) ← remove_at 0 right.records
      first ← get_elem? right_keys 0
      keys ← set_at pos first pn.keys
      some (
        record pn { keys = keys },
        (
          record child { keys = child.keys ++ (bk ∷ []); records = child.records ++ (br ∷ []) },
          record right { keys = right_keys; records = right_records },
        ),
      ))
    else (do
      sep ← get_elem? pn.keys pos
      (ns, right_keys) ← remove_at 0 right.keys
      (bc, right_children) ← remove_at 0 right.children
      keys ← set_at pos ns pn.keys
      some (
        record pn { keys = keys },
        (
          record child { keys = child.keys ++ (sep ∷ []); children = child.children ++ (bc ∷ []) },
          record right { keys = right_keys; children = right_children },
        ),
      ))

-- `borrow_from_left`, with the child on the right; `pos` is the place of the left one.
unfoldable pub shift_right : ℕ → Family → Option Family
shift_right pos (pn, (left, child)) =
    if is_leaf child
    then (do
      (lk, left_keys) ← pop left.keys
      (lr, left_records) ← pop left.records
      keys ← set_at pos lk pn.keys
      some (
        record pn { keys = keys },
        (
          record left { keys = left_keys; records = left_records },
          record child { keys = lk ∷ child.keys; records = lr ∷ child.records },
        ),
      ))
    else (do
      sep ← get_elem? pn.keys pos
      (ns, left_keys) ← pop left.keys
      (bc, left_children) ← pop left.children
      keys ← set_at pos ns pn.keys
      some (
        record pn { keys = keys },
        (
          record left { keys = left_keys; children = left_children },
          record child { keys = sep ∷ child.keys; children = bc ∷ child.children },
        ),
      ))

-- What `merge` makes of the left node; the key between the two goes down into an internal one.
unfoldable pub join : ℕ → Node → Node → Node → Option Node
join pos pn left right =
    if is_leaf left
    then some (record left {
      keys = left.keys ++ right.keys;
      records = left.records ++ right.records;
      next_leaf = right.next_leaf;
    })
    else (do
      sep ← get_elem? pn.keys pos
      some (record left {
        keys = left.keys ++ (sep ∷ right.keys);
        children = left.children ++ right.children;
      }))

-- What it makes of the parent.
unfoldable pub drop_child : ℕ → Node → Option Node
drop_child pos pn = do
  (_, keys) ← remove_at pos pn.keys
  (_, children) ← remove_at (pos + 1) pn.children
  some (record pn { keys = keys; children = children })

unfoldable pub remove_from_leaf : ℕ → Node → Option Node
remove_from_leaf pos leaf = do
  (_, keys) ← remove_at pos leaf.keys
  (_, records) ← remove_at pos leaf.records
  some (record leaf { keys = keys; records = records })

module _ {S : Type 0} (st : Storage S) where
  -- The parent, the child at `pos` and the one after it, read in this order.
  unfoldable pub read_family : ℕ → ℕ → BPlusTree S → Option (((ℕ × ℕ) × Family) × BPlusTree S)
  unfolding read
  read_family parent pos t = do
    (pn, t1) ← read st parent t
    lid ← get_elem? pn.children pos
    rid ← get_elem? pn.children (pos + 1)
    (left, t2) ← read st lid t1
    (right, t3) ← read st rid t2
    some (((lid, rid), (pn, (left, right))), t3)

  unfoldable pub borrow_from_right : ℕ → ℕ → BPlusTree S → Option (BPlusTree S)
  unfolding read_family shift_left
  borrow_from_right parent pos t = do
    (((cid, rid), family), t1) ← read_family parent pos t
    (pn, (child, right)) ← shift_left pos family
    some (write st rid right (write st cid child (write st parent pn t1)))

  -- The source reads the child before its left sibling. `pos` is the place of the sibling.
  unfoldable pub borrow_from_left : ℕ → ℕ → BPlusTree S → Option (BPlusTree S)
  unfolding read shift_right
  borrow_from_left parent pos t = do
    (pn, t1) ← read st parent t
    cid ← get_elem? pn.children (pos + 1)
    lid ← get_elem? pn.children pos
    (child, t2) ← read st cid t1
    (left, t3) ← read st lid t2
    (pn', (left', child')) ← shift_right pos (pn, (left, child))
    some (write st lid left' (write st cid child' (write st parent pn' t3)))

  unfoldable pub merge : ℕ → ℕ → BPlusTree S → Option (BPlusTree S)
  unfolding read_family join drop_child
  merge parent pos t = do
    (((lid, rid), (pn, (left, right))), t1) ← read_family parent pos t
    left' ← join pos pn left right
    pn' ← drop_child pos pn
    some (write st parent pn' (write st lid left' t1))

  -- Whether the child at `pos` has a key to spare; there may be no such child.
  unfoldable pub can_lend : Option ℕ → BPlusTree S → Option (Bool × BPlusTree S)
  unfolding read
  can_lend none t = some (false, t)
  can_lend (some id) t = do
    (node, t1) ← read st id t
    some (ltb ((t1.order - 1) / 2) (length node.keys), t1)

  -- The child before the one at a position.
  unfoldable pub sibling_before : ℕ → List ℕ → Option ℕ
  sibling_before zero children = none
  sibling_before (suc pos) children = get_elem? children pos

  -- The last resort. At position 0 of a node with one child the source computes `0 - 1`.
  unfoldable pub merge_either : ℕ → ℕ → ℕ → BPlusTree S → Option (BPlusTree S)
  unfolding merge
  merge_either parent zero n_children t = if ltb 1 n_children then merge parent 0 t else none
  merge_either parent (suc pos) n_children t =
      if ltb (suc pos + 1) n_children then merge parent (suc pos) t else merge parent pos t

  unfoldable pub rebalance : ℕ → ℕ → BPlusTree S → Option (BPlusTree S)
  unfolding read can_lend borrow_from_right borrow_from_left merge_either sibling_before
  rebalance parent pos t = do
    (pn, t1) ← read st parent t
    (right_lends, t2) ← can_lend (get_elem? pn.children (pos + 1)) t1
    if right_lends then borrow_from_right parent pos t2 else (do
      (left_lends, t3) ← can_lend (sibling_before pos pn.children) t2
      if left_lends
          then borrow_from_left parent (pos - 1) t3
          else merge_either parent pos (length pn.children) t3)

  unfoldable pub delete_from_leaf : ℕ → Node → Key → BPlusTree S → Option (Bool × BPlusTree S)
  unfolding remove_from_leaf
  delete_from_leaf idx leaf key t = elim (position (λ k. key_eq k key) leaf.keys) [
    | none ↦ some (false, t)
    | some pos ↦ do node ← remove_from_leaf pos leaf; some (true, write st idx node t)
  ]

  -- After a deletion in the child at `pos`.
  unfoldable pub after_delete : ℕ → ℕ → ℕ → BPlusTree S → Option (Bool × BPlusTree S)
  unfolding rebalance
  after_delete idx pos child_idx t = do
    (child, t1) ← read st child_idx t
    if ltb (length child.keys) ((t1.order - 1) / 2)
        then (do t2 ← rebalance idx pos t1; some (true, t2))
        else some (true, t1)

  unfoldable pub delete_recursive : ℕ → ℕ → Key → BPlusTree S → Option (Bool × BPlusTree S)
  unfolding read delete_from_leaf after_delete
  delete_recursive zero idx key t = none
  delete_recursive (suc fuel) idx key t = do
    (node, t1) ← read st idx t
    if is_leaf node then delete_from_leaf idx node key t1 else (do
      let pos = child_position key node
      child_idx ← get_elem? node.children pos
      (removed, t2) ← delete_recursive fuel child_idx key t1
      if removed then after_delete idx pos child_idx t2 else some (false, t2))

  -- A root without a key gives way to its first child.
  unfoldable pub shrink_root : BPlusTree S → Option (BPlusTree S)
  unfolding read
  shrink_root t = do
    (root_node, t1) ← read st t.root t
    if not (is_leaf root_node) && length root_node.keys == 0
        then (do child ← get_elem? root_node.children 0; some (record t1 { root = child }))
        else some t1

  -- A size of 0 that is to shrink overflows, which is a panic.
  unfoldable pub delete : ℕ → Key → BPlusTree S → Option (Bool × BPlusTree S)
  unfolding delete_recursive shrink_root
  delete fuel key t = do
    (removed, t1) ← delete_recursive fuel t.root key t
    if removed
        then (if t1.size == 0
            then none
            else (do t2 ← shrink_root (record t1 { size = t1.size - 1 }); some (true, t2)))
        else some (false, t1)
