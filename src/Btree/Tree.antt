-- ===== src/Btree/Tree.antt =====
-- src/btree/tree.rs: the B+tree over any storage: the search for a leaf and the reads. `none` is a
-- panic, or fuel that has run out. A descent takes one unit of fuel for each level of the tree, a
-- walk along the leaves one for each leaf.
pub mod Insert
pub mod Delete
pub mod Leaf
pub mod Borrow
pub mod Merge
pub mod Split
pub mod Room
pub mod Descent
use sql.Common.{
  ℕ, zero, suc, ◌+◌, List, [], ◌∷◌, ◌++◌, Option, none, some, Bool, true, false, ◌&&◌, ◌==◌, not,
  leb, if◌then◌else◌, get_elem?, ◌>>=◌, ◌>>◌, guard,
}
use sql.Common.Vec.{partition_point}
use sql.Common.Bytes.{Bytes}
use sql.Btree.Node.{Key, Record, Node, new_leaf, is_leaf, key_le, key_lt, key_eq}
use sql.Pager.Storage.{Storage}

pub record BPlusTree (S : Type 0) : Type 0 where
  pub order : ℕ
  pub storage : S
  pub root : ℕ
  pub size : ℕ

-- `find` of the first record with the key.
unfoldable pub find_record : Key → List Record → Option Bytes
find_record key [] = none
find_record key (r ∷ records) = if key_eq r.key key then some r.value else find_record key records

-- One leaf of `range_search`: the records taken, and whether one lay past the end.
unfoldable pub take_range : Key → Key → List Record → List Record × Bool
take_range start end [] = ([], false)
take_range start end (r ∷ records) =
    let (taken, done) = take_range start end records in
    if key_le start r.key && key_le r.key end
    then (r ∷ taken, done)
    else (if key_lt end r.key then ([], true) else (taken, done))

-- The child that the search for a key goes to.
unfoldable pub child_position : Key → Node → ℕ
child_position key node = partition_point (λ k. key_le k key) node.keys

module _ {S : Type 0} (st : Storage S) where
  unfoldable pub alloc_node : Node → S → ℕ × S
  alloc_node node s = let (id, s') = st.alloc_page s in (id, st.write_node id node s')

  unfoldable pub new : ℕ → S → Option (BPlusTree S)
  unfolding alloc_node
  new order s = do
    _ ← guard (leb 3 order)
    let (id, s') = alloc_node new_leaf s
    some (record { order = order; storage = s'; root = id; size = 0 })

  unfoldable pub find_leaf : ℕ → ℕ → Key → S → Option (ℕ × S)
  find_leaf zero idx key s = none
  find_leaf (suc fuel) idx key s = do
    (node, s') ← st.read_node idx s
    if is_leaf node then some (idx, s') else (do
      child ← get_elem? node.children (child_position key node)
      find_leaf fuel child key s')

  unfoldable pub first_leaf : ℕ → ℕ → S → Option (ℕ × S)
  first_leaf zero idx s = none
  first_leaf (suc fuel) idx s = do
    (node, s') ← st.read_node idx s
    if is_leaf node
        then some (idx, s')
        else (do child ← get_elem? node.children 0; first_leaf fuel child s')

  unfoldable pub search : ℕ → Key → BPlusTree S → Option (Option Bytes × BPlusTree S)
  unfolding find_leaf
  search fuel key t = do
    (leaf_id, s) ← find_leaf fuel t.root key t.storage
    (leaf, s') ← st.read_node leaf_id s
    some (find_record key leaf.records, record t { storage = s' })

  -- The loop of `range_search`.
  unfoldable pub range_from : ℕ → ℕ → Key → Key → S → Option (List Record × S)
  range_from zero idx start end s = none
  range_from (suc fuel) idx start end s = do
    (leaf, s') ← st.read_node idx s
    let (taken, done) = take_range start end leaf.records
    if done then some (taken, s') else (elim leaf.next_leaf [
      | none ↦ some (taken, s')
      | some next ↦ do (rest, s'') ← range_from fuel next start end s'; some (taken ++ rest, s'')
    ])

  unfoldable pub range_search : ℕ → Key → Key → BPlusTree S → Option (List Record × BPlusTree S)
  unfolding find_leaf range_from
  range_search fuel start end t = do
    (idx, s) ← find_leaf fuel t.root start t.storage
    (records, s') ← range_from fuel idx start end s
    some (records, record t { storage = s' })

  -- The loop of `scan_all`.
  unfoldable pub scan_from : ℕ → ℕ → S → Option (List Record × S)
  scan_from zero idx s = none
  scan_from (suc fuel) idx s = do
    (leaf, s') ← st.read_node idx s
    elim leaf.next_leaf [
      | none ↦ some (leaf.records, s')
      | some next ↦ do (rest, s'') ← scan_from fuel next s'; some (leaf.records ++ rest, s'')
    ]

  unfoldable pub scan_all : ℕ → BPlusTree S → Option (List Record × BPlusTree S)
  unfolding first_leaf scan_from
  scan_all fuel t = if t.size == 0 then some ([], t) else (do
    (idx, s) ← first_leaf fuel t.root t.storage
    (records, s') ← scan_from fuel idx s
    some (records, record t { storage = s' }))

module _ {S : Type 0} where
  abbrev pub len : BPlusTree S → ℕ
  len t = t.size

  abbrev pub is_empty : BPlusTree S → Bool
  is_empty t = t.size == 0

  unfoldable pub open_tree : ℕ → S → ℕ → ℕ → BPlusTree S
  open_tree order s root size = record { order = order; storage = s; root = root; size = size }

  abbrev pub root_page : BPlusTree S → ℕ
  root_page t = t.root

  unfoldable pub flush_tree : Storage S → BPlusTree S → BPlusTree S
  flush_tree st t = record t { storage = st.flush t.storage }
