-- ===== src/Catalog/State/Named.antt =====
-- src/catalog/catalog.rs: tables, indexes and views stand in their maps under their own names. `Call`
-- has the methods that change the catalog.
use sql.Common.{
  ℕ, List, [], ◌∷◌, ◌++◌, Bool, true, false, Option, none, some, ite, if◌then◌else◌, ◌>>=◌, ◌≡◌,
  refl, subst, All,
}
use sql.Common.Assoc.{lookup, insert, remove}
use sql.Common.Bytes.{Bytes}
use sql.Common.Result.{Result, ok, err}
use sql.Btree.Node.{Key, Record}
use sql.Btree.Node
use sql.Pager.Storage.{Storage}
use sql.Table.Schema.{Schema, Column, Bytes-discrete}
use sql.Catalog.Meta.{TableMeta, IndexMeta, ViewMeta, TriggerMeta, table_meta}
use sql.Catalog.Meta.Encode.{encode_meta, encode_trigger}
use sql.Btree.Tree.{BPlusTree, range_search}
use sql.Btree.Tree.Insert
use sql.Btree.Tree.Delete
use sql.Catalog.Meta.Decode.{decode_meta, decode_trigger}
use sql.Catalog.State
use sql.Catalog.State.{
  Catalog, CatalogError, Stored, table_exists, index_exists, view_exists, trigger_exists, get_table,
  persist_meta, persist_trigger, remove_trigger_meta, put_meta, changed_meta, load_records,
  load_key, load_text, load_all, strip_prefix,
}

pub data Call (Expr : Type 0) : Type 0 where
  create_table : Bytes → Schema Expr → Call Expr
  update_table_meta_full : Bytes → (root_page row_count : ℕ) → Option ℕ → Call Expr
  add_column : Bytes → Column Expr → Call Expr
  drop_table : Bytes → Call Expr
  rename_table : (old_name new_name : Bytes) → Call Expr
  create_index : (name table : Bytes) → List Bytes → Bool → Call Expr
  drop_index : Bytes → Call Expr
  create_view : (name query : Bytes) → Call Expr
  drop_view : Bytes → Call Expr
  create_trigger : TriggerMeta → Call Expr
  drop_trigger : Bytes → Call Expr
  reload : Call Expr

unfoldable pub apply :
    {Expr S : Type 0} → Storage S → ℕ → Call Expr → Catalog Expr S → Stored Expr S
apply st fuel (create_table name schema) c = State.create_table st fuel name schema c
apply st fuel (update_table_meta_full name root rows last) c =
    State.update_table_meta_full st fuel name root rows last c
apply st fuel (add_column table col) c = State.add_column st fuel table col c
apply st fuel (drop_table name) c = State.drop_table st fuel name c
apply st fuel (rename_table old_name new_name) c = State.rename_table st fuel old_name new_name c
apply st fuel (create_index name table columns unique) c =
    some (State.create_index name table columns unique c)
apply st fuel (drop_index name) c = some (State.drop_index name c)
apply st fuel (create_view name query) c = some (State.create_view name query c)
apply st fuel (drop_view name) c = some (State.drop_view name c)
apply st fuel (create_trigger meta) c = State.create_trigger st fuel meta c
apply st fuel (drop_trigger name) c = State.drop_trigger st fuel name c
apply st fuel reload c = do c1 ← State.reload st fuel c; some (ok c1)

abbrev pub IsTable : {Expr : Type 0} → Bytes × TableMeta Expr → Type 0
IsTable p = p.1.name ≡ p.0

abbrev pub IsIndex : Bytes × IndexMeta → Type 0
IsIndex p = p.1.name ≡ p.0

abbrev pub IsView : Bytes × ViewMeta → Type 0
IsView p = p.1.name ≡ p.0

-- Each entry's name is its key.
unfoldable pub IsNamed : {Expr S : Type 0} → Catalog Expr S → Type 0
IsNamed c = All IsTable c.cache × All IsIndex c.index_cache × All IsView c.view_cache

All-insert :
    {V : Type 0} (P : Bytes × V → Type 0) (k : Bytes) (v : V) (m : List (Bytes × V))
    → P (k, v)
    → All P m
    → All P (insert Bytes-discrete k v m)
unfolding insert
All-insert P k v [] h a = (h, tt)
All-insert P k v ((j, w) ∷ m) h a =
    elim (Bytes-discrete j k)
      as (λ d. All P (ite d ((k, v) ∷ m) ((j, w) ∷ insert Bytes-discrete k v m))) [
        | yes e ↦ (h, a.1)
        | no ne ↦ (a.0, All-insert P k v m h a.1)
      ]

All-remove :
    {V : Type 0} (P : Bytes × V → Type 0) (k : Bytes) (m : List (Bytes × V))
    → All P m
    → All P (remove Bytes-discrete k m)
unfolding remove
All-remove P k [] a = tt
All-remove P k ((j, w) ∷ m) a =
    elim (Bytes-discrete j k)
      as (λ d. All P (ite d (remove Bytes-discrete k m) ((j, w) ∷ remove Bytes-discrete k m))) [
        | yes e ↦ All-remove P k m a.1
        | no ne ↦ (a.0, All-remove P k m a.1)
      ]

All-lookup :
    {V : Type 0} (P : Bytes × V → Type 0) (k : Bytes) (v : V) (m : List (Bytes × V))
    → All P m
    → lookup Bytes-discrete k m ≡ some v
    → P (k, v)
unfolding lookup
All-lookup P k v [] a e = absurd cc
All-lookup P k v ((j, w) ∷ m) a e = go (Bytes-discrete j k) e (All-lookup P k v m a.1)
  where
    go :
        (d : Dec (j ≡ k))
        → ite d (some w) (lookup Bytes-discrete k m) ≡ some v
        → (lookup Bytes-discrete k m ≡ some v → P (k, v))
        → P (k, v)
    go (yes s) h rest = let z : w ≡ v = cc in subst (λ x. P (k, x)) z (subst (λ x. P (x, w)) s a.0)
    go (no ne) h rest = rest h

-- Whatever comes out is named.
Keeps : {Expr S : Type 0} → Stored Expr S → Type 0
Keeps none = Unit
Keeps (some (err e)) = Unit
Keeps (some (ok c)) = IsNamed c

if-Keeps :
    {Expr S : Type 0} (b : Bool) (x y : Stored Expr S)
    → Keeps x
    → Keeps y
    → Keeps (if b then x else y)
if-Keeps true x y h k = h
if-Keeps false x y h k = k

choice-Keeps :
    {Expr S : Type 0} (b : Bool) (x y : Result CatalogError (Catalog Expr S))
    → Keeps (some x)
    → Keeps (some y)
    → Keeps (some (if b then x else y))
choice-Keeps true x y h k = h
choice-Keeps false x y h k = k

bind-Keeps :
    {A Expr S : Type 0} (o : Option A) (f : A → Stored Expr S)
    → ((a : A) → Keeps (f a))
    → Keeps (o >>= f)
unfolding Keeps
bind-Keeps none f h = tt
bind-Keeps (some a) f h = h a

Loads : {Expr S : Type 0} → Option (Catalog Expr S) → Type 0
Loads none = Unit
Loads (some c) = IsNamed c

bind-Loads :
    {Expr S : Type 0} (o : Option (Catalog Expr S)) (f : Catalog Expr S → Option (Catalog Expr S))
    → Loads o
    → ((c : Catalog Expr S) → IsNamed c → Loads (f c))
    → Loads (o >>= f)
unfolding Loads
bind-Loads none f h k = tt
bind-Loads (some c) f h k = k c h

after-Keeps :
    {Expr S : Type 0} (o : Option (Catalog Expr S)) (f : Catalog Expr S → Stored Expr S)
    → Loads o
    → ((c : Catalog Expr S) → IsNamed c → Keeps (f c))
    → Keeps (o >>= f)
unfolding Loads Keeps
after-Keeps none f h k = tt
after-Keeps (some c) f h k = k c h

with_tree :
    {Expr S : Type 0} (c : Catalog Expr S)
    → IsNamed c
    → (o : Option (BPlusTree S)) → Loads (o >>= λ t. some (record c { sys_tree = t }))
unfolding Loads IsNamed
with_tree c h none = tt
with_tree c h (some t) = h

put_table :
    {Expr S : Type 0} (name : Bytes) (meta : TableMeta Expr) (c : Catalog Expr S)
    → meta.name ≡ name
    → IsNamed c
    → IsNamed (record c { cache = insert Bytes-discrete name meta c.cache })
unfolding IsNamed
put_table name meta c e h = (All-insert IsTable name meta c.cache e h.0, h.1, h.2)

without :
    {Expr S : Type 0} (name : Bytes) (c : Catalog Expr S)
    → IsNamed c
    → IsNamed (record c { cache = remove Bytes-discrete name c.cache })
unfolding IsNamed
without name c h = (All-remove IsTable name c.cache h.0, h.1, h.2)

ok-Keeps :
    {Expr S : Type 0} (o : Option (Catalog Expr S)) → Loads o → Keeps (o >>= λ c. some (ok c))
unfolding Loads Keeps
ok-Keeps none h = tt
ok-Keeps (some c) h = h

module _ {Expr S : Type 0} (st : Storage S) where
  load_text-Loads :
      (o : Option Bytes) (value : Bytes) (c : Catalog Expr S)
      → IsNamed c
      → Loads (load_text st o value c)
  unfolding load_text Loads IsNamed
  load_text-Loads (some name) value c h = go (decode_trigger value)
    where
      go :
          (o : Option TriggerMeta)
          → Loads (
              o >>= λ t.
              some (record c { trigger_cache = insert Bytes-discrete name t c.trigger_cache }))
      go none = tt
      go (some t) = h
  load_text-Loads none value c h = go (decode_meta value)
    where
      go :
          (o : Option (TableMeta Expr))
          → Loads (o >>= λ m. some (record c { cache = insert Bytes-discrete m.name m c.cache }))
      go none = tt
      go (some m) = (All-insert IsTable m.name m c.cache refl h.0, h.1, h.2)

  load_records-Loads :
      (rs : List Record) (c : Catalog Expr S) → IsNamed c → Loads (load_records st rs c)
  unfolding load_records load_key Loads
  load_records-Loads [] c h = h
  load_records-Loads (r ∷ rs) c h =
      bind-Loads (load_key st r.key r.value c) (load_records st rs) (go r.key)
        λ c1 h1. load_records-Loads rs c1 h1
    where
      go : (k : Key) → Loads (load_key st k r.value c)
      go (Node.integer v) = h
      go (Node.text s) = load_text-Loads (strip_prefix State.prefix s) r.value c h

  -- The writes to the tree leave the maps.
  persist_meta-Loads :
      (fuel : ℕ) (meta : TableMeta Expr) (c : Catalog Expr S)
      → IsNamed c
      → Loads (persist_meta st fuel meta c)
  unfolding persist_meta
  persist_meta-Loads fuel meta c h =
      with_tree c h (Insert.insert st fuel (Node.text meta.name) (encode_meta meta) c.sys_tree)

  persist_trigger-Loads :
      (fuel : ℕ) (t : TriggerMeta) (c : Catalog Expr S)
      → IsNamed c
      → Loads (persist_trigger st fuel t c)
  unfolding persist_trigger
  persist_trigger-Loads fuel t c h =
      with_tree c h
        (Insert.insert st fuel (Node.text (State.prefix ++ t.name)) (encode_trigger t) c.sys_tree)

  put_meta-Keeps :
      (fuel : ℕ) (name : Bytes) (meta : TableMeta Expr) (c : Catalog Expr S)
      → meta.name ≡ name
      → IsNamed c
      → Keeps (put_meta st fuel name meta c)
  unfolding put_meta
  put_meta-Keeps fuel name meta c e h =
      ok-Keeps _ (persist_meta-Loads fuel meta _ (put_table name meta c e h))

  create_table-Keeps :
      (fuel : ℕ) (name : Bytes) (schema : Schema Expr) (c : Catalog Expr S)
      → IsNamed c
      → Keeps (State.create_table st fuel name schema c)
  unfolding State.create_table table_meta Keeps
  create_table-Keeps fuel name schema c h =
      if-Keeps (table_exists name c) _ _ tt
        (after-Keeps _ _ (persist_meta-Loads fuel _ c h) λ c1 h1. put_table name _ c1 refl h1)

  found-Keeps :
      (name : Bytes) (c : Catalog Expr S) (f : TableMeta Expr → Stored Expr S) (e : CatalogError)
      → IsNamed c
      → ((m : TableMeta Expr) → m.name ≡ name → Keeps (f m))
      → Keeps (elim (get_table name c) [ none ↦ some (err e) | some m ↦ f m ])
  unfolding Keeps IsNamed
  found-Keeps name c f e h k = go (get_table name c) refl
    where
      go :
          (o : Option (TableMeta Expr))
          → get_table name c ≡ o
          → Keeps (elim o [ none ↦ some (err e) | some m ↦ f m ])
      go none s = tt
      go (some m) s = k m (All-lookup IsTable name m c.cache h.0 s)

  update_table_meta_full-Keeps :
      (fuel : ℕ) (name : Bytes) (root rows : ℕ) (last : Option ℕ) (c : Catalog Expr S)
      → IsNamed c
      → Keeps (State.update_table_meta_full st fuel name root rows last c)
  unfolding State.update_table_meta_full changed_meta
  update_table_meta_full-Keeps fuel name root rows last c h =
      found-Keeps name c _ _ h λ m e. put_meta-Keeps fuel name (changed_meta root rows last m) c e h

  add_column-Keeps :
      (fuel : ℕ) (table : Bytes) (col : Column Expr) (c : Catalog Expr S)
      → IsNamed c
      → Keeps (State.add_column st fuel table col c)
  unfolding State.add_column
  add_column-Keeps fuel table col c h =
      found-Keeps table c _ _ h λ m e. put_meta-Keeps fuel table _ c e h

  drop_table-Keeps :
      (fuel : ℕ) (name : Bytes) (c : Catalog Expr S)
      → IsNamed c
      → Keeps (State.drop_table st fuel name c)
  unfolding State.drop_table Keeps IsNamed
  drop_table-Keeps fuel name c h =
      if-Keeps (table_exists name c) _ _
        (bind-Keeps (Delete.delete st fuel (Node.text name) c.sys_tree) _
          λ r. (All-remove IsTable name c.cache h.0, h.1, h.2))
        tt

  rename_table-Keeps :
      (fuel : ℕ) (old_name new_name : Bytes) (c : Catalog Expr S)
      → IsNamed c
      → Keeps (State.rename_table st fuel old_name new_name c)
  unfolding State.rename_table Keeps IsNamed
  rename_table-Keeps fuel old_name new_name c h = found-Keeps old_name c _ _ h λ m e.
      after-Keeps _ _
        (persist_meta-Loads fuel (record m { name = new_name }) _ (without old_name c h))
        λ c1 h1. put_table new_name (record m { name = new_name }) c1 refl h1

  create_index-Keeps :
      (name table : Bytes) (columns : List Bytes) (unique : Bool) (c : Catalog Expr S)
      → IsNamed c
      → Keeps {S = S} (some (State.create_index name table columns unique c))
  unfolding State.create_index Keeps IsNamed
  create_index-Keeps name table columns unique c h = choice-Keeps (index_exists name c) _ _ tt (
      choice-Keeps (table_exists table c) _ _
        (h.0, All-insert IsIndex name _ c.index_cache refl h.1, h.2) tt)

  drop_index-Keeps :
      (name : Bytes) (c : Catalog Expr S)
      → IsNamed c
      → Keeps {S = S} (some (State.drop_index name c))
  unfolding State.drop_index Keeps IsNamed
  drop_index-Keeps name c h =
      choice-Keeps (index_exists name c) _ _ (h.0, All-remove IsIndex name c.index_cache h.1, h.2)
        tt

  create_view-Keeps :
      (name query : Bytes) (c : Catalog Expr S)
      → IsNamed c
      → Keeps {S = S} (some (State.create_view name query c))
  unfolding State.create_view Keeps IsNamed
  create_view-Keeps name query c h =
      choice-Keeps (view_exists name c) _ _ tt
        (h.0, h.1, All-insert IsView name _ c.view_cache refl h.2)

  drop_view-Keeps :
      (name : Bytes) (c : Catalog Expr S)
      → IsNamed c
      → Keeps {S = S} (some (State.drop_view name c))
  unfolding State.drop_view Keeps IsNamed
  drop_view-Keeps name c h =
      choice-Keeps (view_exists name c) _ _ (h.0, h.1, All-remove IsView name c.view_cache h.2) tt

  create_trigger-Keeps :
      (fuel : ℕ) (meta : TriggerMeta) (c : Catalog Expr S)
      → IsNamed c
      → Keeps (State.create_trigger st fuel meta c)
  unfolding State.create_trigger Keeps IsNamed
  create_trigger-Keeps fuel meta c h =
      if-Keeps (trigger_exists meta.name c) _ _ tt
        (after-Keeps _ _ (persist_trigger-Loads fuel meta c h) λ c1 h1. h1)

  drop_trigger-Keeps :
      (fuel : ℕ) (name : Bytes) (c : Catalog Expr S)
      → IsNamed c
      → Keeps (State.drop_trigger st fuel name c)
  unfolding State.drop_trigger remove_trigger_meta Keeps IsNamed Loads
  drop_trigger-Keeps fuel name c h =
      if-Keeps (trigger_exists name c) _ _
        (ok-Keeps _ (dropped (Delete.delete st fuel _ c.sys_tree))) tt
    where
      dropped :
          (o : Option (Bool × BPlusTree S))
          → Loads (
              o >>= λ r. some (record c {
                sys_tree = r.1;
                trigger_cache = remove Bytes-discrete name c.trigger_cache;
              }))
      dropped none = tt
      dropped (some r) = h

  reload-Keeps :
      (fuel : ℕ) (c : Catalog Expr S)
      → IsNamed c
      → Keeps (State.reload st fuel c >>= λ c1. some (ok c1))
  unfolding State.reload load_all Loads IsNamed
  reload-Keeps fuel c h =
      ok-Keeps _
        (loaded (range_search st fuel (Node.text []) (Node.text State.last_name) c.sys_tree))
    where
      loaded :
          (o : Option (List Record × BPlusTree S))
          → Loads (o >>= λ r. load_records st r.0 (record c { sys_tree = r.1; cache = [] }))
      loaded none = tt
      loaded (some (rs, t)) = load_records-Loads rs _ (tt, h.1, h.2)

  apply-Keeps :
      (fuel : ℕ) (call : Call Expr) (c : Catalog Expr S) → IsNamed c → Keeps (apply st fuel call c)
  unfolding apply
  apply-Keeps fuel (create_table name schema) c h = create_table-Keeps fuel name schema c h
  apply-Keeps fuel (update_table_meta_full name root rows last) c h =
      update_table_meta_full-Keeps fuel name root rows last c h
  apply-Keeps fuel (add_column table col) c h = add_column-Keeps fuel table col c h
  apply-Keeps fuel (drop_table name) c h = drop_table-Keeps fuel name c h
  apply-Keeps fuel (rename_table old_name new_name) c h =
      rename_table-Keeps fuel old_name new_name c h
  apply-Keeps fuel (create_index name table columns unique) c h =
      create_index-Keeps name table columns unique c h
  apply-Keeps fuel (drop_index name) c h = drop_index-Keeps name c h
  apply-Keeps fuel (create_view name query) c h = create_view-Keeps name query c h
  apply-Keeps fuel (drop_view name) c h = drop_view-Keeps name c h
  apply-Keeps fuel (create_trigger meta) c h = create_trigger-Keeps fuel meta c h
  apply-Keeps fuel (drop_trigger name) c h = drop_trigger-Keeps fuel name c h
  apply-Keeps fuel reload c h = reload-Keeps fuel c h

  -- Each call that changes the catalog, or reads it anew, and succeeds keeps every table, index and
  -- view in its map under its own name.
  pub apply-IsNamed :
      (fuel : ℕ) (call : Call Expr) (c c' : Catalog Expr S)
      → IsNamed c
      → apply st fuel call c ≡ some (ok c')
      → IsNamed c'
  unfolding Keeps
  apply-IsNamed fuel call c c' h e = subst Keeps e (apply-Keeps fuel call c h)
