-- ===== src/Catalog/State.antt =====
-- src/catalog/catalog.rs: the catalog, its maps in memory and the tree of descriptions. `none` is a
-- panic of the tree or of `decode_meta`, or fuel of the tree that has run out.
pub mod Named
pub mod Stored
use sql.Common.{
  ℕ, ◌-◌, ◌^◌, List, [], ◌∷◌, ◌++◌, Bool, true, false, ◌&&◌, ◌||◌, Option, none, some, chars_eq,
  if◌then◌else◌, ◌>>=◌, map,
}
use sql.Common.Assoc.{lookup, remove}
use sql.Common.Assoc
use sql.Common.Bytes.{Bytes, codes}
use sql.Common.Result.{Result, ok, err}
use sql.Btree.Node.{Key, Record}
use sql.Btree.Node
use sql.Btree.Tree.{BPlusTree, range_search, open_tree, flush_tree}
use sql.Btree.Tree
use sql.Btree.Tree.Insert
use sql.Btree.Tree.Delete
use sql.Pager.Storage.{Storage}
use sql.Table.Schema.{Schema, Column, Bytes-discrete}
use sql.Catalog.Meta.{
  TableMeta, IndexMeta, ViewMeta, TriggerMeta, TriggerTiming, TriggerEvent, delete, insert, update,
  table_meta,
}
use sql.Catalog.Meta.Encode.{encode_meta, encode_trigger}
use sql.Catalog.Meta.Decode.{decode_meta, decode_trigger}

pub record Catalog (Expr S : Type 0) : Type 0 where
  pub sys_tree : BPlusTree S
  pub cache : List (Bytes × TableMeta Expr)
  pub index_cache : List (Bytes × IndexMeta)
  pub view_cache : List (Bytes × ViewMeta)
  pub trigger_cache : List (Bytes × TriggerMeta)

pub data CatalogError : Type 0 where
  already_exists not_found does_not_exist : Bytes → CatalogError

unfoldable pub is_some : {A : Type 0} → Option A → Bool
is_some none = false
is_some (some a) = true

abbrev pub usize_max : ℕ
usize_max = 2 ^ 64 - 1

abbrev pub order : ℕ
order = 64

-- The key of a trigger, and the key without the prefix if it is one.
abbrev pub prefix : Bytes
prefix = codes "__trigger:"

unfoldable pub strip_prefix : Bytes → Bytes → Option Bytes
strip_prefix [] s = some s
strip_prefix (p ∷ ps) [] = none
strip_prefix (p ∷ ps) (c ∷ s) = if chars_eq (p ∷ []) (c ∷ []) then strip_prefix ps s else none

-- `"\u{10FFFF}".repeat(4)` in UTF-8.
abbrev pub last_name : Bytes
last_name =
    0xf4 ∷ 0x8f ∷ 0xbf ∷ 0xbf ∷ 0xf4 ∷ 0x8f ∷ 0xbf ∷ 0xbf ∷ 0xf4 ∷ 0x8f ∷ 0xbf ∷ 0xbf ∷ 0xf4 ∷ 0x8f
    ∷ 0xbf ∷ 0xbf ∷ []

strs_eq : List Bytes → List Bytes → Bool
strs_eq [] [] = true
strs_eq (a ∷ s) (b ∷ t) = chars_eq a b && strs_eq s t
strs_eq _ _ = false

-- The `match` of `get_triggers` on the two events.
unfoldable pub event_matches : TriggerEvent → TriggerEvent → Bool
unfolding strs_eq
event_matches delete delete = true
event_matches insert insert = true
event_matches (update none) (update b) = true
event_matches (update (some a)) (update none) = true
event_matches (update (some a)) (update (some b)) = strs_eq a b
event_matches _ _ = false

unfoldable pub triggers_for : Bytes → TriggerEvent → List (Bytes × TriggerMeta) → List TriggerMeta
unfolding event_matches
triggers_for table event [] = []
triggers_for table event ((k, t) ∷ m) =
    let rest = triggers_for table event m in
    if chars_eq t.table table && event_matches t.event event then t ∷ rest else rest

module _ {Expr S : Type 0} where
  empty_catalog : BPlusTree S → Catalog Expr S
  empty_catalog sys_tree = record {
    sys_tree = sys_tree;
    cache = [];
    index_cache = [];
    view_cache = [];
    trigger_cache = [];
  }

  abbrev pub get_table : Bytes → Catalog Expr S → Option (TableMeta Expr)
  get_table name c = lookup Bytes-discrete name c.cache

  unfoldable pub table_exists : Bytes → Catalog Expr S → Bool
  unfolding is_some
  table_exists name c = is_some (get_table name c)

  abbrev pub get_index : Bytes → Catalog Expr S → Option IndexMeta
  get_index name c = lookup Bytes-discrete name c.index_cache

  unfoldable pub index_exists : Bytes → Catalog Expr S → Bool
  unfolding is_some
  index_exists name c = is_some (get_index name c)

  abbrev pub get_view : Bytes → Catalog Expr S → Option ViewMeta
  get_view name c = lookup Bytes-discrete name c.view_cache

  unfoldable pub view_exists : Bytes → Catalog Expr S → Bool
  unfolding is_some
  view_exists name c = is_some (get_view name c)

  abbrev pub get_trigger : Bytes → Catalog Expr S → Option TriggerMeta
  get_trigger name c = lookup Bytes-discrete name c.trigger_cache

  unfoldable pub trigger_exists : Bytes → Catalog Expr S → Bool
  unfolding is_some
  trigger_exists name c = is_some (get_trigger name c)

  abbrev pub get_triggers : Bytes → TriggerEvent → Catalog Expr S → List TriggerMeta
  get_triggers table event c = triggers_for table event c.trigger_cache

  abbrev pub table_names : Catalog Expr S → List Bytes
  table_names c = map (λ p. p.0) c.cache

  abbrev pub index_names : Catalog Expr S → List Bytes
  index_names c = map (λ p. p.0) c.index_cache

  abbrev pub view_names : Catalog Expr S → List Bytes
  view_names c = map (λ p. p.0) c.view_cache

  abbrev pub trigger_names : Catalog Expr S → List Bytes
  trigger_names c = map (λ p. p.0) c.trigger_cache

  abbrev pub catalog_root_page : Catalog Expr S → ℕ
  catalog_root_page c = Tree.root_page c.sys_tree

  unfoldable pub create_index :
      Bytes → Bytes → List Bytes → Bool → Catalog Expr S → Result CatalogError (Catalog Expr S)
  unfolding index_exists table_exists
  create_index name table columns unique c =
      if index_exists name c
      then err (already_exists name)
      else if table_exists table c
      then ok (record c {
        index_cache =
            Assoc.insert Bytes-discrete name
              (record { name = name; table = table; columns = columns; unique = unique })
              c.index_cache;
      })
      else err (does_not_exist table)

  unfoldable pub drop_index : Bytes → Catalog Expr S → Result CatalogError (Catalog Expr S)
  unfolding index_exists
  drop_index name c =
      if index_exists name c
      then ok (record c { index_cache = remove Bytes-discrete name c.index_cache })
      else err (not_found name)

  unfoldable pub create_view : Bytes → Bytes → Catalog Expr S → Result CatalogError (Catalog Expr S)
  unfolding view_exists
  create_view name query c =
      if view_exists name c
      then err (already_exists name)
      else ok (record c {
        view_cache =
            Assoc.insert Bytes-discrete name (record { name = name; query = query }) c.view_cache;
      })

  unfoldable pub drop_view : Bytes → Catalog Expr S → Result CatalogError (Catalog Expr S)
  unfolding view_exists
  drop_view name c =
      if view_exists name c
      then ok (record c { view_cache = remove Bytes-discrete name c.view_cache })
      else err (not_found name)

unfoldable pub last_or : Option ℕ → ℕ → ℕ
last_or none v = v
last_or (some w) v = w

unfoldable pub changed_meta : {Expr : Type 0} → ℕ → ℕ → Option ℕ → TableMeta Expr → TableMeta Expr
unfolding last_or
changed_meta root_page row_count autoinc_last meta = record meta {
  root_page = root_page;
  row_count = row_count;
  autoinc_last = last_or autoinc_last meta.autoinc_last;
}

abbrev pub Stored : Type 0 → Type 0 → Type 0
Stored Expr S = Option (Result CatalogError (Catalog Expr S))

module _ {Expr S : Type 0} (st : Storage S) where
  unfoldable pub new_catalog : S → Option (Catalog Expr S)
  unfolding empty_catalog
  new_catalog storage = do t ← Tree.new st order storage; some (empty_catalog t)

  unfoldable pub persist_meta : ℕ → TableMeta Expr → Catalog Expr S → Option (Catalog Expr S)
  persist_meta fuel meta c = do
    t ← Insert.insert st fuel (Key.text meta.name) (encode_meta meta) c.sys_tree
    some (record c { sys_tree = t })

  unfoldable pub persist_trigger : ℕ → TriggerMeta → Catalog Expr S → Option (Catalog Expr S)
  persist_trigger fuel trigger c = do
    t ←
        Insert.insert st fuel (Key.text (prefix ++ trigger.name)) (encode_trigger trigger)
          c.sys_tree
    some (record c { sys_tree = t })

  unfoldable pub remove_trigger_meta : ℕ → Bytes → Catalog Expr S → Option (Catalog Expr S)
  remove_trigger_meta fuel name c = do
    (removed, t) ← Delete.delete st fuel (Key.text (prefix ++ name)) c.sys_tree
    some (record c { sys_tree = t })

  unfoldable pub create_table : ℕ → Bytes → Schema Expr → Catalog Expr S → Stored Expr S
  unfolding table_exists persist_meta table_meta
  create_table fuel name schema c =
      if table_exists name c then some (err (already_exists name)) else (do
        let meta = table_meta name schema usize_max
        c1 ← persist_meta fuel meta c
        some (ok (record c1 { cache = Assoc.insert Bytes-discrete name meta c1.cache })))

  -- The change of the description in the map, which the source makes in place.
  put_meta : ℕ → Bytes → TableMeta Expr → Catalog Expr S → Stored Expr S
  unfolding persist_meta
  put_meta fuel name meta c = do
    c1 ← persist_meta fuel meta (record c { cache = Assoc.insert Bytes-discrete name meta c.cache })
    some (ok c1)

  unfoldable pub update_table_meta_full :
      ℕ → Bytes → ℕ → ℕ → Option ℕ → Catalog Expr S → Stored Expr S
  unfolding put_meta changed_meta
  update_table_meta_full fuel name root_page row_count autoinc_last c = elim (get_table name c) [
    | none ↦ some (err (not_found name))
    | some meta ↦ put_meta fuel name (changed_meta root_page row_count autoinc_last meta) c
  ]

  unfoldable pub update_table_meta : ℕ → Bytes → ℕ → ℕ → Catalog Expr S → Stored Expr S
  unfolding update_table_meta_full
  update_table_meta fuel name root_page row_count c =
      update_table_meta_full fuel name root_page row_count none c

  unfoldable pub add_column : ℕ → Bytes → Column Expr → Catalog Expr S → Stored Expr S
  unfolding put_meta
  add_column fuel table col c = elim (get_table table c) [
    | none ↦ some (err (not_found table))
    | some meta ↦
        put_meta fuel table
          (record meta { schema = record { columns = meta.schema.columns ++ (col ∷ []) } }) c
  ]

  unfoldable pub drop_table : ℕ → Bytes → Catalog Expr S → Stored Expr S
  unfolding table_exists
  drop_table fuel name c =
      if table_exists name c
      then (do
        (removed, t) ← Delete.delete st fuel (Key.text name) c.sys_tree
        some (ok (record c { sys_tree = t; cache = remove Bytes-discrete name c.cache })))
      else some (err (not_found name))

  -- The old name's record stays in the tree.
  unfoldable pub rename_table : ℕ → Bytes → Bytes → Catalog Expr S → Stored Expr S
  unfolding persist_meta
  rename_table fuel old_name new_name c = elim (get_table old_name c) [
    | none ↦ some (err (not_found old_name))
    | some old_meta ↦ do
      let new_meta = record old_meta { name = new_name }
      c1 ← persist_meta fuel new_meta (record c { cache = remove Bytes-discrete old_name c.cache })
      some (ok (record c1 { cache = Assoc.insert Bytes-discrete new_name new_meta c1.cache }))
  ]

  unfoldable pub create_trigger : ℕ → TriggerMeta → Catalog Expr S → Stored Expr S
  unfolding trigger_exists persist_trigger
  create_trigger fuel meta c =
      if trigger_exists meta.name c then some (err (already_exists meta.name)) else (do
        c1 ← persist_trigger fuel meta c
        some (
            ok (record c1 {
              trigger_cache = Assoc.insert Bytes-discrete meta.name meta c1.trigger_cache;
            })))

  unfoldable pub drop_trigger : ℕ → Bytes → Catalog Expr S → Stored Expr S
  unfolding trigger_exists remove_trigger_meta
  drop_trigger fuel name c =
      if trigger_exists name c
      then (do
        c1 ←
            remove_trigger_meta fuel name
              (record c { trigger_cache = remove Bytes-discrete name c.trigger_cache })
        some (ok c1))
      else some (err (not_found name))

  -- One record of `load_all`.
  load_text : Option Bytes → Bytes → Catalog Expr S → Option (Catalog Expr S)
  load_text (some name) value c = do
    trigger ← decode_trigger value
    some (record c { trigger_cache = Assoc.insert Bytes-discrete name trigger c.trigger_cache })
  load_text none value c = do
    meta ← decode_meta value
    some (record c { cache = Assoc.insert Bytes-discrete meta.name meta c.cache })

  load_key : Key → Bytes → Catalog Expr S → Option (Catalog Expr S)
  unfolding strip_prefix load_text
  load_key (Node.integer v) value c = some c
  load_key (Node.text s) value c = load_text (strip_prefix prefix s) value c

  unfoldable pub load_records : List Record → Catalog Expr S → Option (Catalog Expr S)
  unfolding load_key
  load_records [] c = some c
  load_records (r ∷ rs) c = do c1 ← load_key r.key r.value c; load_records rs c1

  unfoldable pub load_all : ℕ → Catalog Expr S → Option (Catalog Expr S)
  unfolding load_records
  load_all fuel c = do
    (records, t) ← range_search st fuel (Key.text []) (Key.text last_name) c.sys_tree
    load_records records (record c { sys_tree = t })

  unfoldable pub open_catalog : ℕ → S → ℕ → Option (Catalog Expr S)
  unfolding load_all empty_catalog
  open_catalog fuel storage root = load_all fuel (empty_catalog (open_tree order storage root 0))

  unfoldable pub flush_catalog : Catalog Expr S → Catalog Expr S
  flush_catalog c = record c { sys_tree = flush_tree st c.sys_tree }

  unfoldable pub reload : ℕ → Catalog Expr S → Option (Catalog Expr S)
  unfolding load_all
  reload fuel c = load_all fuel (record c { cache = [] })
