-- ===== src/Btree/Tree/Room.antt =====
-- An insertion that finds room in its leaf, and what a search finds after it (src/btree/tree.rs).
use sql.Common.{
  ℕ, suc, ◌+◌, ◌-◌, ◌≡◌, ◌<◌, refl, subst, ◌∙◌, arith, Option, none, some, Bool, true, false,
  if◌then◌else◌, leb-false, length, ite, if_pos, ℕ_discrete, ◌>>=◌,
}
use sql.Common.Bytes.{Bytes}
use sql.Btree.Node.{Key, Record, Node, is_leaf, is_full, key_eq}
use sql.Btree.Tree.{BPlusTree, find_record, find_leaf, search}
use sql.Btree.Tree.Insert.{
  is_key_at, leaf_position, replace_in_leaf, add_to_leaf, write, read, as_split, split_leaf,
  insert_into_leaf, insert_recursive, grow_root, insert,
}
use sql.Btree.Tree.Leaf.{IsShape, IsWritten, write_at, write_at-IsWritten}
use sql.Pager.Storage.{Storage}
use sql.Pager.Storage.Coherent.{IsStore}

-- `order - 1` keys fill a node; this many leave room for one more.
abbrev pub HasRoom : Node → ℕ → Type 0
HasRoom leaf order = length leaf.keys + 1 < order - 1

not_full : (node : Node) (order : ℕ) → length node.keys < order - 1 → is_full node order ≡ false
unfolding is_full
not_full node order h = leb-false (order - 1) (length node.keys) h

here : (k : ℕ) (a b : Option Node) → ite (ℕ_discrete k k) a b ≡ a
here k a b = if_pos (ℕ_discrete k k) refl a b

module _ {S : Type 0} (st : Storage S) (contents : S → ℕ → Option Node)
    (law : IsStore st contents) where
  -- The tree after the write: a key that was there does not count twice.
  abbrev pub after_write : Bool → ℕ → Node → BPlusTree S → BPlusTree S
  after_write b idx node t = record (write st idx node t) {
    size = if b then t.size - 1 else t.size;
  }

  branch :
      (b : Bool) (pos idx : ℕ) (r : Record) (leaf node : Node) (t : BPlusTree S)
      → write_at b pos r leaf ≡ some node
      → is_full node t.order ≡ false
      → (if b
          then (do
            node ← replace_in_leaf pos r leaf
            some (none, record (write st idx node t) { size = t.size - 1 }))
          else (do
            node ← add_to_leaf pos r leaf
            if is_full node t.order
                then as_split st (split_leaf st idx (write st idx node t))
                else some (none, write st idx node t)))
        ≡ some (none, after_write b idx node t)
  unfolding write_at
  branch true pos idx r leaf node t e room = rw e refl
  branch false pos idx r leaf node t e room = rw (e, room) refl

  pub insert_into_leaf_lem :
      (idx : ℕ) (leaf : Node) (r : Record) (t : BPlusTree S)
      → IsShape leaf
      → HasRoom leaf t.order
      → (node : Node) × ((insert_into_leaf st idx leaf r t
            ≡ some (
              none,
              after_write (is_key_at (leaf_position r.key leaf) r.key leaf.keys) idx node t,
            ))
          × IsWritten r leaf node)
  unfolding insert_into_leaf IsWritten
  insert_into_leaf_lem idx leaf r t shape room =
      let (node, (e, good)) = write_at-IsWritten r leaf shape in
      (
        node,
        (
          branch (is_key_at (leaf_position r.key leaf) r.key leaf.keys) (leaf_position r.key leaf)
              idx r leaf node t e (not_full node t.order (omega (arith, good.1.1.0))),
          good,
        ),
      )

  -- A tree of one leaf, its root, answers a search with what the leaf's records hold.
  search_leaf :
      (fuel : ℕ) (key : Key) (t : BPlusTree S) (leaf : Node)
      → contents t.storage t.root ≡ some leaf
      → is_leaf leaf ≡ true
      → (t' : BPlusTree S) × (search st (suc fuel) key t ≡ some (find_record key leaf.records, t'))
  unfolding search find_leaf
  search_leaf fuel key t leaf e is =
      let (s, (one, same)) = law.read_node t.root t.storage leaf e in
      let (s', (two, same')) = law.read_node t.root s leaf (same t.root ∙ e) in
      (record t { storage = s' }, rw (one, is, two) refl)

  insert_leaf :
      (fuel : ℕ) (key : Key) (value : Bytes) (t : BPlusTree S) (leaf : Node)
      → contents t.storage t.root ≡ some leaf
      → is_leaf leaf ≡ true
      → IsShape leaf
      → HasRoom leaf t.order
      → (node : Node) × ((t' : BPlusTree S) × ((insert st (suc fuel) key value t ≡ some t')
            × (IsWritten (record { key = key; value = value }) leaf node
                × ((contents t'.storage t'.root ≡ some node)
                    × (t'.size
                        ≡ (if is_key_at (leaf_position key leaf) key leaf.keys
                            then t.size - 1
                            else t.size)
                          + 1)))))
  unfolding insert insert_recursive grow_root read
  insert_leaf fuel key value t leaf e is shape room =
      let r : Record = record { key = key; value = value } in
      let (s, (one, same)) = law.read_node t.root t.storage leaf e in
      let t1 : BPlusTree S = record t { storage = s } in
      let (node, (run, good)) = insert_into_leaf_lem t.root leaf r t1 shape room in
      let t2 = after_write (is_key_at (leaf_position key leaf) key leaf.keys) t.root node t1 in
      (
        node,
        (
          record t2 { size = t2.size + 1 },
          (
            rw (one, is, run) refl,
            (
              good,
              (
                law.write_node t.root t.root node s ∙ here t.root (some node) (contents s t.root),
                refl,
              ),
            ),
          ),
        ),
      )

  -- In a tree over any lawful storage whose root is a leaf with its keys and records in step and
  -- room for one key more: insert returns, and a search for any key in the new tree returns the
  -- value that was inserted under that key, or else what the records held; the size is one more,
  -- unless the key was found at its place. One level of fuel is enough.
  pub search-insert :
      (fuel : ℕ) (key q : Key) (value : Bytes) (t : BPlusTree S) (leaf : Node)
      → contents t.storage t.root ≡ some leaf
      → is_leaf leaf ≡ true
      → IsShape leaf
      → HasRoom leaf t.order
      → (t' : BPlusTree S) × ((t'' : BPlusTree S) × ((insert st (suc fuel) key value t ≡ some t')
            × (search st (suc fuel) q t'
                ≡ some (if key_eq key q then some value else find_record q leaf.records, t''))
            × (t'.size
                ≡ (if is_key_at (leaf_position key leaf) key leaf.keys then t.size - 1 else t.size)
                  + 1)))
  unfolding IsWritten
  search-insert fuel key q value t leaf e is shape room =
      let (node, (t', (run, (good, (held, size))))) =
        insert_leaf fuel key value t leaf e is shape room in
      let (t'', found_it) = search_leaf fuel q t' node held (good.1.1.1 ∙ is) in
      (
        t',
        (
          t'',
          (run, subst (λ o. search st (suc fuel) q t' ≡ some (o, t'')) (good.1.0 q) found_it, size),
        ),
      )
