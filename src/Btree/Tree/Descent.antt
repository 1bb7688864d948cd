-- ===== src/Btree/Tree/Descent.antt =====
-- The way from the root to a leaf, in a tree of any height (src/btree/tree.rs, `find_leaf` and
-- `insert_recursive`).
use sql.Common.{
  ℕ, zero, suc, ◌+◌, ◌-◌, ◌≡◌, ◌≢◌, ◌<◌, refl, sym, ap, subst, ◌∙◌, arith, Option, none, some, true,
  false, if◌then◌else◌, get_elem?, ite, if_neg, ℕ_discrete,
}
use sql.Common.Bytes.{Bytes}
use sql.Btree.Node.{Key, Record, Node, is_leaf, key_eq}
use sql.Btree.Tree.{BPlusTree, child_position, find_record, find_leaf, search}
use sql.Btree.Tree.Insert.{
  is_key_at, leaf_position, read, after_insert, insert_recursive, grow_root, insert,
}
use sql.Btree.Tree.Leaf.{IsShape, IsWritten}
use sql.Btree.Tree.Room.{HasRoom, after_write, insert_into_leaf_lem}
use sql.Pager.Storage.{Storage}
use sql.Pager.Storage.Coherent.{IsStore}

abbrev pub Pages : Type 0
Pages = ℕ → Option Node

-- From page `idx`, the search for a key goes down `n` internal nodes, and comes to a leaf.
abbrev pub Leads : ℕ → Key → Pages → ℕ → ℕ → Node → Type 0
Leads zero key pages idx leaf_id leaf =
    (idx ≡ leaf_id) × (pages idx ≡ some leaf) × (is_leaf leaf ≡ true)
Leads (suc n) key pages idx leaf_id leaf =
    (node : Node) × ((child : ℕ) × ((pages idx ≡ some node)
        × (is_leaf node ≡ false)
        × (get_elem? node.children (child_position key node) ≡ some child)
        × Leads n key pages child leaf_id leaf))

Leads-same :
    (n : ℕ) (key : Key) (p q : Pages) (idx leaf_id : ℕ) (leaf : Node)
    → ((i : ℕ) → q i ≡ p i)
    → Leads n key p idx leaf_id leaf
    → Leads n key q idx leaf_id leaf
Leads-same zero key p q idx leaf_id leaf same (e, held, is) = (e, same idx ∙ held, is)
Leads-same (suc n) key p q idx leaf_id leaf same (node, (child, (held, inner, at, rest))) =
    (node, (child, (same idx ∙ held, inner, at, Leads-same n key p q child leaf_id leaf same rest)))

-- Where the way ends there is the leaf.
pub Leads-leaf :
    (n : ℕ) (key : Key) (p : Pages) (idx leaf_id : ℕ) (leaf : Node)
    → Leads n key p idx leaf_id leaf
    → (p leaf_id ≡ some leaf) × (is_leaf leaf ≡ true)
Leads-leaf zero key p idx leaf_id leaf (e, held, is) = (subst (λ i. p i ≡ some leaf) e held, is)
Leads-leaf (suc n) key p idx leaf_id leaf (node, (child, (held, inner, at, rest))) =
    Leads-leaf n key p child leaf_id leaf rest

pub some_node : (a b : Node) → some a ≡ some b → a ≡ b
some_node a b e = cc

not_both : (a b : Node) → a ≡ b → is_leaf a ≡ true → is_leaf b ≢ false
not_both a b e t f =
    let both : is_leaf b ≡ true = subst (λ n. is_leaf n ≡ true) e t in absurd (cc (both, f))

pick_leaf :
    {i j : ℕ} (dec : Dec (i ≡ j)) (new leaf : Node) (o : Option Node)
    → o ≡ some leaf
    → ite dec (some new) o ≡ some (ite dec new leaf)
pick_leaf (yes e) new leaf o h = refl
pick_leaf (no ne) new leaf o h = h

pick_is :
    {i j : ℕ} (dec : Dec (i ≡ j)) (new leaf : Node)
    → is_leaf new ≡ true
    → is_leaf leaf ≡ true
    → is_leaf (ite dec new leaf) ≡ true
pick_is (yes e) new leaf h k = h
pick_is (no ne) new leaf h k = k

module _ (p q : Pages) (at : ℕ) (old new : Node) (held : p at ≡ some old)
    (old_leaf : is_leaf old ≡ true) (new_leaf : is_leaf new ≡ true)
    (view : (i : ℕ) → q i ≡ ite (ℕ_discrete at i) (some new) (p i)) where
  -- After a write of one leaf every way is as it was, and a way to that leaf ends at the new one.
  Leads-write :
      (n : ℕ) (key : Key) (idx leaf_id : ℕ) (leaf : Node)
      → Leads n key p idx leaf_id leaf
      → Leads n key q idx leaf_id (ite (ℕ_discrete at leaf_id) new leaf)
  Leads-write zero key idx leaf_id leaf (e, here, is) = (
    e,
    ap q e
        ∙ (view leaf_id
            ∙ pick_leaf (ℕ_discrete at leaf_id) new leaf (p leaf_id) (ap p (sym e) ∙ here)),
    pick_is (ℕ_discrete at leaf_id) new leaf new_leaf is,
  )
  Leads-write (suc n) key idx leaf_id leaf (node, (child, (here, inner, way, rest))) = (
    node,
    (
      child,
      (
        view idx
            ∙ (if_neg (ℕ_discrete at idx)
                  (λ e.
                    not_both old node (some_node old node (sym held ∙ (ap p e ∙ here))) old_leaf
                      inner)
                  (some new) (p idx)
                ∙ here),
        inner,
        way,
        Leads-write n key child leaf_id leaf rest,
      ),
    ),
  )

module _ {S : Type 0} (st : Storage S) (contents : S → ℕ → Option Node)
    (law : IsStore st contents) where
  find_leaf-Leads :
      (fuel n : ℕ) (key : Key) (idx leaf_id : ℕ) (leaf : Node) (s : S)
      → n < fuel
      → Leads n key (contents s) idx leaf_id leaf
      → (s' : S) × ((find_leaf st fuel idx key s ≡ some (leaf_id, s'))
          × ((q : ℕ) → contents s' q ≡ contents s q))
  unfolding find_leaf
  find_leaf-Leads zero n key idx leaf_id leaf s lt way = absurd (omega arith)
  find_leaf-Leads (suc fuel) zero key idx leaf_id leaf s lt (e, held, is) =
      let (s', (one, same)) = law.read_node idx s leaf held in
      (s', (rw (one, is) (ap (λ i. some (i, s')) e), same))
  find_leaf-Leads (suc fuel) (suc n) key idx leaf_id leaf s lt
        (node, (child, (held, inner, way, rest))) =
      let (s', (one, same)) = law.read_node idx s node held in
      let (s'', (run, again)) =
        find_leaf-Leads fuel n key child leaf_id leaf s' (omega arith)
          (Leads-same n key (contents s) (contents s') child leaf_id leaf same rest) in
      (s'', (rw (one, inner, way, run) refl, λ q. again q ∙ same q))

  -- A search answers with what the records of the leaf hold that its way leads to.
  search-Leads :
      (fuel n : ℕ) (key : Key) (leaf_id : ℕ) (leaf : Node) (t : BPlusTree S)
      → n < fuel
      → Leads n key (contents t.storage) t.root leaf_id leaf
      → (t' : BPlusTree S) × (search st fuel key t ≡ some (find_record key leaf.records, t'))
  unfolding search
  search-Leads fuel n key leaf_id leaf t lt way =
      let (s, (run, same)) = find_leaf-Leads fuel n key t.root leaf_id leaf t.storage lt way in
      let held = same leaf_id ∙ (Leads-leaf n key (contents t.storage) t.root leaf_id leaf way).0 in
      let (s', (two, same')) = law.read_node leaf_id s leaf held in
      (record t { storage = s' }, rw (run, two) refl)

  -- What an insertion that finds room does to the tree.
  unfoldable IsInserted : Record → ℕ → Node → BPlusTree S → Node → BPlusTree S → Type 0
  IsInserted r leaf_id leaf t node t' =
      IsWritten r leaf node
      × ((q : ℕ)
          → contents t'.storage q ≡ ite (ℕ_discrete leaf_id q) (some node) (contents t.storage q))
      × (t'.root ≡ t.root)
      × (t'.size
          ≡ (if is_key_at (leaf_position r.key leaf) r.key leaf.keys then t.size - 1 else t.size))

  insert_recursive-Leads :
      (fuel n : ℕ) (r : Record) (idx leaf_id : ℕ) (leaf : Node) (t : BPlusTree S)
      → n < fuel
      → Leads n r.key (contents t.storage) idx leaf_id leaf
      → IsShape leaf
      → HasRoom leaf t.order
      → (node : Node) × ((t' : BPlusTree S) × ((insert_recursive st fuel idx r t ≡ some (none, t'))
            × IsInserted r leaf_id leaf t node t'))
  unfolding insert_recursive read after_insert IsInserted
  insert_recursive-Leads zero n r idx leaf_id leaf t lt way shape room = absurd (omega arith)
  insert_recursive-Leads (suc fuel) zero r idx leaf_id leaf t lt (e, held, is) shape room =
      let (s, (one, same)) = law.read_node idx t.storage leaf held in
      let t1 : BPlusTree S = record t { storage = s } in
      let (node, (run, good)) = insert_into_leaf_lem st contents law idx leaf r t1 shape room in
      (
        node,
        (
          after_write st contents law (is_key_at (leaf_position r.key leaf) r.key leaf.keys) idx
              node t1,
          (
            rw (one, is) run,
            (
              good,
              (λ q.
                  law.write_node idx q node s
                  ∙ ap (ite (ℕ_discrete idx q) (some node)) (same q)
                  ∙ ap (λ i. ite (ℕ_discrete i q) (some node) (contents t.storage q)) e),
              refl,
              refl,
            ),
          ),
        ),
      )
  insert_recursive-Leads (suc fuel) (suc n) r idx leaf_id leaf t lt
        (above, (child, (held, inner, way, rest))) shape room =
      let (s, (one, same)) = law.read_node idx t.storage above held in
      let t1 : BPlusTree S = record t { storage = s } in
      let (node, (t', (run, good))) =
        insert_recursive-Leads fuel n r child leaf_id leaf t1 (omega arith)
          (Leads-same n r.key (contents t.storage) (contents s) child leaf_id leaf same rest) shape
          room in
      (
        node,
        (
          t',
          (
            rw (one, inner, way, run) refl,
            (
              good.0,
              (λ q. good.1 q ∙ ap (ite (ℕ_discrete leaf_id q) (some node)) (same q)),
              good.2,
              good.3,
            ),
          ),
        ),
      )

  insert-Leads :
      (fuel n : ℕ) (key : Key) (value : Bytes) (leaf_id : ℕ) (leaf : Node) (t : BPlusTree S)
      → n < fuel
      → Leads n key (contents t.storage) t.root leaf_id leaf
      → IsShape leaf
      → HasRoom leaf t.order
      → (node : Node) × ((t' : BPlusTree S) × ((insert st fuel key value t ≡ some t')
            × IsWritten (record { key = key; value = value }) leaf node
            × ((q : ℕ)
                → contents t'.storage q
                  ≡ ite (ℕ_discrete leaf_id q) (some node) (contents t.storage q))
            × (t'.root ≡ t.root)
            × (t'.size
                ≡ (if is_key_at (leaf_position key leaf) key leaf.keys then t.size - 1 else t.size)
                  + 1)))
  unfolding insert grow_root IsInserted
  insert-Leads fuel n key value leaf_id leaf t lt way shape room =
      let r : Record = record { key = key; value = value } in
      let (node, (t', (run, good))) =
        insert_recursive-Leads fuel n r t.root leaf_id leaf t lt way shape room in
      (
        node,
        (
          record t' { size = t'.size + 1 },
          (rw run refl, good.0, good.1, good.2, ap (λ k. k + 1) good.3),
        ),
      )

  pick_found :
      {i j : ℕ} (dec : Dec (i ≡ j)) (q : Key) (node old : Node) (o : Option Bytes)
      → find_record q node.records ≡ o
      → find_record q (ite dec node old).records ≡ ite dec o (find_record q old.records)
  pick_found (yes e) q node old o h = h
  pick_found (no ne) q node old o h = refl

  -- In a tree of any height over any lawful storage: where the ways from the root for two keys go
  -- down fewer internal nodes than the fuel, and the leaf of the first key has its keys and records
  -- in step and room for one key more, inserting a value under the first key returns, and a search
  -- for the second key then gives the value if both keys are equal and lead to the same leaf, or
  -- else what its leaf held; the size is one more, unless the key was found at its place.
  pub search-insert_deep :
      (fuel n m : ℕ) (key q : Key) (value : Bytes) (t : BPlusTree S) (at at_q : ℕ) (leaf old : Node)
      → n < fuel
      → m < fuel
      → Leads n key (contents t.storage) t.root at leaf
      → Leads m q (contents t.storage) t.root at_q old
      → IsShape leaf
      → HasRoom leaf t.order
      → (t' : BPlusTree S) × ((t'' : BPlusTree S) × ((insert st fuel key value t ≡ some t')
            × (search st fuel q t'
                ≡ some (
                  ite
                      (ℕ_discrete at at_q)
                      (if key_eq key q then some value else find_record q leaf.records)
                      (find_record q old.records),
                  t'',
                ))
            × (t'.size
                ≡ (if is_key_at (leaf_position key leaf) key leaf.keys then t.size - 1 else t.size)
                  + 1)))
  unfolding IsWritten
  search-insert_deep fuel n m key q value t at at_q leaf old lt lt_q way way_q shape room =
      let (node, (t', (run, good, view, root, size))) =
        insert-Leads fuel n key value at leaf t lt way shape room in
      let (held, is) = Leads-leaf n key (contents t.storage) t.root at leaf way in
      let there =
        Leads-write (contents t.storage) (contents t'.storage) at leaf node held is
          (good.1.1.1 ∙ is) view m q t.root at_q old way_q in
      let there' =
        subst (λ i. Leads m q (contents t'.storage) i at_q (ite (ℕ_discrete at at_q) node old))
          (sym root) there in
      let (t'', hit) =
        search-Leads fuel m q at_q (ite (ℕ_discrete at at_q) node old) t' lt_q there' in
      (
        t',
        (
          t'',
          (
            run,
            subst (λ o. search st fuel q t' ≡ some (o, t''))
                (pick_found (ℕ_discrete at at_q) q node old _ (good.1.0 q)) hit,
            size,
          ),
        ),
      )
