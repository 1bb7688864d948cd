-- ===== src/Table/Rows/Get.antt =====
-- Lookups of inserted rows (src/table/table.rs).
use sql.Common.{
  ℕ, ◌≡◌, refl, subst, ap, ◌∙◌, [], append-nil, Option, some, if◌then◌else◌, length, All,
}
use sql.Btree.Node.{Key, Node, key_eq}
use sql.Btree.Node.Order.{key_eq_refl}
use sql.Btree.Tree.{find_record}
use sql.Btree.Tree.Leaf.{IsShape}
use sql.Btree.Tree.Room.{HasRoom}
use sql.Btree.Tree.Descent.{Leads, search-insert_deep}
use sql.Common.{◌<◌, if_pos, ℕ_discrete}
use sql.Pager.Storage.{Storage}
use sql.Pager.Storage.Coherent.{IsStore}
use sql.Table.Row.{Row}
use sql.Table.Serialize.{deserialize}
use sql.Table.Serialize.RoundTrip.{IsValue, deserialize-serialize}
use sql.Table.Rows.{Table, ok, row_key, found_row, insert_keyed, insert_row, get_row}

module _ {Expr S : Type 0} (st : Storage S) (contents : S → ℕ → Option Node)
    (law : IsStore st contents) where
  -- In a table over any lawful storage, where the way from the root for the row's key goes down
  -- some internal nodes, fewer than the fuel, to a leaf with its keys and records in step and room
  -- for one key more: a row whose first value is a key, with a valid value for each column, is
  -- inserted without an error, and a lookup of its key then returns the row.
  pub get_row-insert_row :
      (fuel n : ℕ) (row : Row) (key : Key) (t : Table Expr S) (at : ℕ) (leaf : Node)
      → row_key row ≡ ok key
      → length t.schema.columns ≡ length row.values
      → All IsValue row.values
      → n < fuel
      → Leads n key (contents t.tree.storage) t.tree.root at leaf
      → IsShape leaf
      → HasRoom leaf t.tree.order
      → (t' : Table Expr S) × ((t'' : Table Expr S) × ((insert_row st fuel row t ≡ some (ok tt, t'))
            × (get_row st fuel key t' ≡ some (some row, t''))))
  unfolding insert_row insert_keyed get_row found_row
  get_row-insert_row fuel n row key t at leaf keyed columns valid lt way shape room =
      let (bytes, written, readable) = deserialize-serialize t.schema row [] columns valid in
      let (tree, (tree', (inserted, found, size))) =
        search-insert_deep st contents law fuel n n key key bytes t.tree at at leaf leaf lt lt way
          way shape room in
      let back : deserialize t.schema bytes ≡ some row =
        subst (λ b. deserialize t.schema b ≡ some row) (append-nil bytes) readable in
      let own = find_record key leaf.records in
      let pick =
        if_pos (ℕ_discrete at at) refl (if key_eq key key then some bytes else own) own
        ∙ key_eq_refl key (some bytes) own in
      let hit = found ∙ ap (λ o. some (o, tree')) pick in
      (
        record t { tree = tree },
        (record t { tree = tree' }, (rw (keyed, written, inserted) refl, rw (hit, back) refl)),
      )
