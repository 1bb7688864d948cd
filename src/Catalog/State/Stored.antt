-- ===== src/Catalog/State/Stored.antt =====
-- src/catalog/catalog.rs: what the tree of descriptions holds after a change.
use sql.Common.{
  ℕ, ◌<◌, [], ◌≡◌, ◌≢◌, refl, sym, ap, ◌∙◌, subst, Option, some, ite, if◌then◌else◌, if_pos,
  ℕ_discrete, append-nil,
}
use sql.Common.Assoc.{insert, remove}
use sql.Table.Schema.{Bytes-discrete}
use sql.Common.Bytes.{Bytes}
use sql.Common.Result.{ok}
use sql.Btree.Node.{Key, Node, key_eq}
use sql.Btree.Node.Order.{key_eq_refl, key_eq-false}
use sql.Btree.Tree.{BPlusTree, search, find_record}
use sql.Btree.Tree.Leaf.{IsShape}
use sql.Btree.Tree.Room.{HasRoom}
use sql.Btree.Tree.Descent.{Leads, Leads-leaf, some_node, search-insert_deep}
use sql.Pager.Storage.{Storage}
use sql.Pager.Storage.Coherent.{IsStore}
use sql.Catalog.Meta.{TableMeta}
use sql.Catalog.Meta.Encode.{encode_meta}
use sql.Catalog.Meta.Decode.{decode_meta}
use sql.Catalog.Meta.Tables.{IsMeta, without_defaults, decode_meta-encode_meta}
use sql.Catalog.State.{
  Catalog, get_table, changed_meta, put_meta, persist_meta, update_table_meta_full, rename_table,
}

text_injective : {a b : Bytes} → ◌≡◌ {A = Key} (Key.text a) (Key.text b) → a ≡ b
text_injective e = cc

-- A record under another key is found after the write as it was before.
kept :
    (pages : ℕ → Option Node) (key q : Key) (at at_old : ℕ) (leaf old : Node) (value bytes : Bytes)
    (dec : Dec (at ≡ at_old))
    → key ≢ q
    → pages at ≡ some leaf
    → pages at_old ≡ some old
    → find_record q old.records ≡ some bytes
    → ite dec
        (if key_eq key q then some value else find_record q leaf.records)
        (find_record q old.records)
      ≡ some bytes
kept pages key q at at_old leaf old value bytes (no ne) other held held_old found = found
kept pages key q at at_old leaf old value bytes (yes e) other held held_old found =
    let same : leaf ≡ old = some_node leaf old (sym held ∙ (ap pages e ∙ held_old)) in
    rw (key_eq-false key q other, same) found

module _ {Expr S : Type 0} (st : Storage S) (contents : S → ℕ → Option Node)
    (law : IsStore st contents) where
  -- In a catalog over a tree of any height on a lawful storage: for a table that is in the map,
  -- with a description that fits its format after the change, where the way for its name leads to a
  -- leaf with room within the fuel, update_table_meta_full succeeds, and a search in the tree for
  -- the table's name gives bytes that decode to the changed description, without the columns'
  -- defaults.
  pub update_table_meta_full-stored :
      (fuel n : ℕ) (root rows : ℕ) (last : Option ℕ) (meta : TableMeta Expr) (c : Catalog Expr S)
      (at : ℕ) (leaf : Node)
      → get_table meta.name c ≡ some meta
      → IsMeta (changed_meta root rows last meta)
      → n < fuel
      → Leads n (Key.text meta.name) (contents c.sys_tree.storage) c.sys_tree.root at leaf
      → IsShape leaf
      → HasRoom leaf c.sys_tree.order
      → (c' : Catalog Expr S) × (bytes : Bytes) × (t : BPlusTree S) × (update_table_meta_full st
            fuel meta.name root rows last c
          ≡ some (ok c'))
        × (search st fuel (Key.text meta.name) c'.sys_tree ≡ some (some bytes, t))
        × (decode_meta bytes ≡ some (without_defaults (changed_meta root rows last meta)))
  unfolding update_table_meta_full put_meta persist_meta changed_meta
  update_table_meta_full-stored fuel n root rows last meta c at leaf got valid lt way shape room =
      let new_meta = changed_meta root rows last meta in
      let bytes = encode_meta new_meta in
      let key = Key.text meta.name in
      let (tree, (tree', (inserted, found, size))) =
        search-insert_deep st contents law fuel n n key key bytes c.sys_tree at at leaf leaf lt lt
          way way shape room in
      let own = find_record key leaf.records in
      let pick =
        if_pos (ℕ_discrete at at) refl (if key_eq key key then some bytes else own) own
        ∙ key_eq_refl key (some bytes) own in
      (
        record c { sys_tree = tree; cache = insert Bytes-discrete meta.name new_meta c.cache },
        bytes,
        tree',
        rw (update_table_meta_full, got, put_meta, persist_meta, inserted) refl,
        found ∙ ap (λ o. some (o, tree')) pick,
        subst (λ b. decode_meta b ≡ some (without_defaults new_meta)) (append-nil bytes)
            (decode_meta-encode_meta new_meta [] valid),
      )

  -- Where the ways for a table's name and for a new name lead to leaves within the fuel and the
  -- second has room, rename_table succeeds, and what the tree held under the old name is found
  -- there afterwards as before.
  pub rename_table-keeps_old :
      (fuel n m : ℕ) (new_name bytes : Bytes) (meta : TableMeta Expr) (c : Catalog Expr S)
      (at at_old : ℕ) (leaf old : Node)
      → get_table meta.name c ≡ some meta
      → new_name ≢ meta.name
      → n < fuel
      → m < fuel
      → Leads n (Key.text new_name) (contents c.sys_tree.storage) c.sys_tree.root at leaf
      → Leads m (Key.text meta.name) (contents c.sys_tree.storage) c.sys_tree.root at_old old
      → IsShape leaf
      → HasRoom leaf c.sys_tree.order
      → find_record (Key.text meta.name) old.records ≡ some bytes
      → (c' : Catalog Expr S) × (t : BPlusTree S) × (rename_table st fuel meta.name new_name c
          ≡ some (ok c'))
        × (search st fuel (Key.text meta.name) c'.sys_tree ≡ some (some bytes, t))
  unfolding rename_table persist_meta
  rename_table-keeps_old fuel n m new_name bytes meta c at at_old leaf old got ne lt lt_old way
        way_old shape room held =
      let new_meta = record meta { name = new_name } in
      let (tree, (tree', (inserted, found, size))) =
        search-insert_deep st contents law fuel n m (Key.text new_name) (Key.text meta.name)
          (encode_meta new_meta) c.sys_tree at at_old leaf old lt lt_old way way_old shape room in
      (
        record c {
          sys_tree = tree;
          cache = insert Bytes-discrete new_name new_meta (remove Bytes-discrete meta.name c.cache);
        },
        tree',
        rw (rename_table, got, persist_meta, inserted) refl,
        found
            ∙ ap (λ o. some (o, tree'))
                (kept (contents c.sys_tree.storage) (Key.text new_name) (Key.text meta.name) at
                  at_old leaf old _ bytes (ℕ_discrete at at_old) (λ e. ne (text_injective e))
                  (Leads-leaf n (Key.text new_name) (contents c.sys_tree.storage) c.sys_tree.root at
                    leaf way).0
                  (Leads-leaf m (Key.text meta.name) (contents c.sys_tree.storage) c.sys_tree.root
                    at_old old way_old).0
                  held),
      )
