-- ===== src/Btree/Tree/Insert.antt =====
-- src/btree/tree.rs: `insert`, and the splits of the nodes that it fills.
use sql.Common.{
  ℕ, zero, suc, ◌+◌, ◌-◌, ◌/◌, List, [], ◌∷◌, Option, none, some, Bool, false, if◌then◌else◌,
  get_elem?, length, ◌>>=◌,
}
use sql.Common.Vec.{insert_at, remove_at, set_at, split_off, partition_point}
use sql.Common.Bytes.{Bytes}
use sql.Btree.Node.{Key, Record, Node, new_leaf, new_internal, is_leaf, is_full, key_lt, key_eq}
use sql.Btree.Tree.{BPlusTree, child_position}
use sql.Pager.Storage.{Storage}

-- `pos < leaf.keys.len() && leaf.keys[pos] == record.key`.
unfoldable pub is_key_at : ℕ → Key → List Key → Bool
is_key_at pos key keys = elim (get_elem? keys pos) [ none ↦ false | some k ↦ key_eq k key ]

-- The place of a key in a leaf.
unfoldable pub leaf_position : Key → Node → ℕ
leaf_position key leaf = partition_point (λ k. key_lt k key) leaf.keys

-- The leaf with the record of a key that it holds replaced.
unfoldable pub replace_in_leaf : ℕ → Record → Node → Option Node
replace_in_leaf pos r leaf = do
  records ← set_at pos r leaf.records
  some (record leaf { records = records })

-- The leaf with the record of a new key.
unfoldable pub add_to_leaf : ℕ → Record → Node → Option Node
add_to_leaf pos r leaf = do
  keys ← insert_at pos r.key leaf.keys
  records ← insert_at pos r leaf.records
  some (record leaf { keys = keys; records = records })

-- The two halves of a leaf before their links are set, and the key that goes up.
unfoldable pub halve_leaf : Node → Option (Key × (Node × Node))
halve_leaf node = do
  let mid = length node.keys / 2
  (left_keys, right_keys) ← split_off mid node.keys
  (left_records, right_records) ← split_off mid node.records
  promote_key ← get_elem? right_keys 0
  some (
    promote_key,
    (
      record node { keys = left_keys; records = left_records },
      record new_leaf { keys = right_keys; records = right_records },
    ),
  )

-- The two halves of an internal node, and the key between them, which goes up.
unfoldable pub halve_internal : Node → Option (Key × (Node × Node))
halve_internal node = do
  let mid = length node.keys / 2
  (promote_key, keys) ← remove_at mid node.keys
  (left_keys, right_keys) ← split_off mid keys
  (left_children, right_children) ← split_off (mid + 1) node.children
  some (
    promote_key,
    (
      record node { keys = left_keys; children = left_children },
      record new_internal { keys = right_keys; children = right_children },
    ),
  )

-- An internal node with the key and the child that a split below it sends up.
unfoldable pub add_child : ℕ → Key → ℕ → Node → Option Node
add_child pos mid_key new_child node = do
  keys ← insert_at pos mid_key node.keys
  children ← insert_at (pos + 1) new_child node.children
  some (record node { keys = keys; children = children })

module _ {S : Type 0} (st : Storage S) where
  abbrev pub write : ℕ → Node → BPlusTree S → BPlusTree S
  write idx node t = record t { storage = st.write_node idx node t.storage }

  unfoldable pub read : ℕ → BPlusTree S → Option (Node × BPlusTree S)
  read idx t = do (node, s) ← st.read_node idx t.storage; some (node, record t { storage = s })

  unfoldable pub alloc : BPlusTree S → ℕ × BPlusTree S
  alloc t = let (id, s) = st.alloc_page t.storage in (id, record t { storage = s })

  unfoldable pub split_leaf : ℕ → BPlusTree S → Option ((Key × ℕ) × BPlusTree S)
  unfolding read alloc halve_leaf
  split_leaf idx t = do
    (node, t1) ← read idx t
    (promote_key, (left, right)) ← halve_leaf node
    let (right_id, t2) = alloc t1
    let linked = record right { next_leaf = node.next_leaf }
    some (
      (promote_key, right_id),
      write right_id linked (write idx (record left { next_leaf = some right_id }) t2),
    )

  unfoldable pub split_internal : ℕ → BPlusTree S → Option ((Key × ℕ) × BPlusTree S)
  unfolding read alloc halve_internal
  split_internal idx t = do
    (node, t1) ← read idx t
    (promote_key, (left, right)) ← halve_internal node
    let (right_id, t2) = alloc t1
    some ((promote_key, right_id), write right_id right (write idx left t2))

  abbrev pub Split : Type 0
  Split = Option (Key × ℕ)

  abbrev pub as_split : Option ((Key × ℕ) × BPlusTree S) → Option (Split × BPlusTree S)
  as_split none = none
  as_split (some (split, t)) = some (some split, t)

  unfoldable pub insert_into_leaf : ℕ → Node → Record → BPlusTree S → Option (Split × BPlusTree S)
  unfolding split_leaf is_key_at leaf_position replace_in_leaf add_to_leaf
  insert_into_leaf idx leaf r t = do
    let pos = leaf_position r.key leaf
    if is_key_at pos r.key leaf.keys
        then (do
          node ← replace_in_leaf pos r leaf
          some (none, record (write idx node t) { size = t.size - 1 }))
        else (do
          node ← add_to_leaf pos r leaf
          if is_full node t.order
              then as_split (split_leaf idx (write idx node t))
              else some (none, write idx node t))

  -- What a split of the child means for its parent.
  unfoldable pub after_insert : ℕ → ℕ → Split → BPlusTree S → Option (Split × BPlusTree S)
  unfolding split_internal add_child
  after_insert idx pos none t = some (none, t)
  after_insert idx pos (some (mid_key, new_child)) t = do
    (node, t1) ← read idx t
    grown ← add_child pos mid_key new_child node
    if is_full grown t1.order
        then as_split (split_internal idx (write idx grown t1))
        else some (none, write idx grown t1)

  unfoldable pub insert_recursive : ℕ → ℕ → Record → BPlusTree S → Option (Split × BPlusTree S)
  unfolding insert_into_leaf after_insert
  insert_recursive zero idx r t = none
  insert_recursive (suc fuel) idx r t = do
    (node, t1) ← read idx t
    if is_leaf node then insert_into_leaf idx node r t1 else (do
      let pos = child_position r.key node
      child_idx ← get_elem? node.children pos
      (split, t2) ← insert_recursive fuel child_idx r t1
      after_insert idx pos split t2)

  -- A split of the root makes a new root.
  unfoldable pub grow_root : Split → BPlusTree S → BPlusTree S
  unfolding alloc
  grow_root none t = t
  grow_root (some (key, right)) t =
      let (new_root_id, t1) = alloc t in
      let node = record new_internal { keys = key ∷ []; children = t.root ∷ (right ∷ []) } in
      record (write new_root_id node t1) { root = new_root_id }

  unfoldable pub insert : ℕ → Key → Bytes → BPlusTree S → Option (BPlusTree S)
  unfolding insert_recursive grow_root
  insert fuel key value t = do
    (split, t1) ← insert_recursive fuel t.root (record { key = key; value = value }) t
    let t2 = grow_root split t1
    some (record t2 { size = t2.size + 1 })
