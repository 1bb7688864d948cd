-- ===== src/Pager/Storage.antt =====
-- src/pager/storage.rs: the storage that trees are built on, the storage in memory, and the cache of
-- nodes in front of another storage. `none` is the panic of a read that finds no page.
pub mod Coherent
use sql.Common.{
  ℕ, suc, ◌+◌, List, [], ◌∷◌, ◌++◌, Option, none, some, Bool, leb, if◌then◌else◌, ℕ_discrete,
  length, ite, ◌>>=◌,
}
use sql.Common.Assoc.{lookup, insert, remove}
use sql.Btree.Node.{Node}

pub record Storage (S : Type 0) : Type 0 where
  pub read_node : ℕ → S → Option (Node × S)
  pub write_node : ℕ → Node → S → S
  pub alloc_page : S → ℕ × S
  pub page_count : S → ℕ
  pub flush : S → S
  pub begin_txn : S → S
  pub commit_txn : S → S
  pub rollback_txn : S → S
  pub catalog_root : S → Option ℕ
  pub set_catalog_root : ℕ → S → S

pub record MemoryInner : Type 0 where
  pub pages : List (ℕ × Node)
  pub next_page : ℕ

abbrev pub new_memory : MemoryInner
new_memory = record { pages = []; next_page = 0 }

unfoldable pub memory_read_node : ℕ → MemoryInner → Option (Node × MemoryInner)
memory_read_node page_id s = do node ← lookup ℕ_discrete page_id s.pages; some (node, s)

unfoldable pub memory_write_node : ℕ → Node → MemoryInner → MemoryInner
memory_write_node page_id node s = record s { pages = insert ℕ_discrete page_id node s.pages }

unfoldable pub memory_alloc_page : MemoryInner → ℕ × MemoryInner
memory_alloc_page s = (s.next_page, record s { next_page = s.next_page + 1 })

-- What the trait provides by default does nothing.
unfoldable pub memory_storage : Storage MemoryInner
memory_storage = record {
  read_node = memory_read_node;
  write_node = memory_write_node;
  alloc_page = memory_alloc_page;
  page_count = λ s. s.next_page;
  flush = λ s. s;
  begin_txn = λ s. s;
  commit_txn = λ s. s;
  rollback_txn = λ s. s;
  catalog_root = λ s. none;
  set_catalog_root = λ root s. s;
}

pub record LruCacheStorage (S : Type 0) : Type 0 where
  pub inner : S
  pub cache : List (ℕ × Node)
  pub access_order : List ℕ
  pub capacity : ℕ
  pub hits : ℕ
  pub misses : ℕ

-- The first occurrence goes.
unfoldable pub remove_first : ℕ → List ℕ → List ℕ
remove_first k [] = []
remove_first k (j ∷ js) = ite (ℕ_discrete j k) js (j ∷ remove_first k js)

module _ {S : Type 0} where
  unfoldable pub new_lru : S → ℕ → LruCacheStorage S
  new_lru inner capacity = record {
    inner = inner;
    cache = [];
    access_order = [];
    capacity = if leb 1 capacity then capacity else 1;
    hits = 0;
    misses = 0;
  }

  unfoldable pub evict_oldest : List ℕ → LruCacheStorage S → LruCacheStorage S
  evict_oldest [] c = c
  evict_oldest (oldest ∷ order) c = record c {
    cache = remove ℕ_discrete oldest c.cache;
    access_order = order;
  }

  unfoldable pub evict : LruCacheStorage S → LruCacheStorage S
  unfolding evict_oldest
  evict c = evict_oldest c.access_order c

  unfoldable pub make_room : LruCacheStorage S → LruCacheStorage S
  unfolding evict
  make_room c = if leb c.capacity (length c.cache) then evict c else c

  unfoldable pub touch : ℕ → LruCacheStorage S → LruCacheStorage S
  unfolding remove_first
  touch page_id c = record c {
    access_order = remove_first page_id c.access_order ++ (page_id ∷ []);
  }

  -- `cache.insert`.
  unfoldable pub keep : ℕ → Node → LruCacheStorage S → LruCacheStorage S
  keep page_id node c = record c { cache = insert ℕ_discrete page_id node c.cache }

  unfoldable pub push_back : ℕ → LruCacheStorage S → LruCacheStorage S
  push_back page_id c = record c { access_order = c.access_order ++ (page_id ∷ []) }

  module _ (st : Storage S) where
    -- A read, given what the cache holds.
    unfoldable pub read_cached :
        Option Node → ℕ → LruCacheStorage S → Option (Node × LruCacheStorage S)
    unfolding make_room keep push_back touch
    read_cached (some node) page_id c = some (node, touch page_id (record c { hits = c.hits + 1 }))
    read_cached none page_id c = do
      (node, inner) ← st.read_node page_id c.inner
      some (
        node,
        push_back page_id
            (keep page_id node (make_room (record c { inner = inner; misses = c.misses + 1 }))),
      )

    unfoldable pub lru_read_node : ℕ → LruCacheStorage S → Option (Node × LruCacheStorage S)
    unfolding read_cached
    lru_read_node page_id c = read_cached (lookup ℕ_discrete page_id c.cache) page_id c

    unfoldable pub lru_write_node : ℕ → Node → LruCacheStorage S → LruCacheStorage S
    unfolding make_room keep touch
    lru_write_node page_id node c =
        touch page_id
          (keep page_id node (make_room (record c { inner = st.write_node page_id node c.inner })))

    unfoldable pub lru_alloc_page : LruCacheStorage S → ℕ × LruCacheStorage S
    lru_alloc_page c = let (id, inner) = st.alloc_page c.inner in (id, record c { inner = inner })

    unfoldable pub lru_flush : LruCacheStorage S → LruCacheStorage S
    lru_flush c = record c { inner = st.flush c.inner; cache = []; access_order = [] }

    unfoldable pub lru_storage : Storage (LruCacheStorage S)
    lru_storage = record {
      read_node = lru_read_node;
      write_node = lru_write_node;
      alloc_page = lru_alloc_page;
      page_count = λ c. st.page_count c.inner;
      flush = lru_flush;
      begin_txn = λ c. record c { inner = st.begin_txn c.inner };
      commit_txn = λ c. record c { inner = st.commit_txn c.inner };
      rollback_txn = λ c. record c { inner = st.rollback_txn c.inner };
      catalog_root = λ c. st.catalog_root c.inner;
      set_catalog_root = λ root c. record c { inner = st.set_catalog_root root c.inner };
    }
