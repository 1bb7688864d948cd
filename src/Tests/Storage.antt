-- ===== src/Tests/Storage.antt =====
-- Trees, storages, caches, locks and transactions at work on small inputs.
use sql.Common.{false}
use sql.Common.{Option, get_elem?, ◌++◌, length}
use sql.Btree.Node.{internal, Key}
use sql.Btree.Tree.Insert.{halve_leaf, halve_internal}
use sql.Btree.Tree.Delete.{shift_left, merge}
use sql.Btree.Tree.Split.{halve_leaf-append, halve_internal-append}
use sql.Btree.Tree.Borrow.{shift_left-append}
use sql.Btree.Tree.Merge.{gather, merge-gather}
use sql.Pager.Storage.{Storage, memory_read_node, memory_write_node, new_lru}
use sql.Pager.Locked.{LockedStorage, locked_read_node, locked_read_node-free}
use sql.Common.{
  ℕ, ◌+◌, ◌/◌, ◌≤◌, ◌≡◌, ◌⊎◌, refl, arith, List, [], ◌∷◌, none, some, true, ℕ_discrete, ite,
  if◌then◌else◌, ◌==◌,
}
use sql.Common.Int.{pos}
use sql.Common.Bytes.{Bytes, codes}
use sql.Common.Assoc.{lookup}
use sql.Common.Assoc
use sql.Btree.Node.{integer, text, Record, Node, leaf, new_leaf, key_compare, is_leaf, key_eq}
use sql.Common.Vec.{partition_point}
use sql.Btree.Tree.{BPlusTree, child_position, search, find_record}
use sql.Btree.Tree.Insert.{is_key_at, leaf_position, insert}
use sql.Btree.Tree.Descent.{search-insert_deep}
use sql.Pager.Storage.{MemoryInner, memory_storage, LruCacheStorage, lru_read_node, lru_write_node}
use sql.Pager.Storage.Coherent.{
  memory_contents, memory_storage-IsStore, IsCoherent, lru_read_node-contents,
  lru_write_node-contents, undone, rollback_txn-stale,
}
use sql.Pager.Bloom.{might_contain}
use sql.Pager.Bloom.Membership.{filled, might_contain-filled}
use sql.Pager.Cache.{new, put, invalidate}
use sql.Pager.Cache.Reads.{put_twice}
use sql.Pager.PageLock.{shared, exclusive, lock_shared, lock_exclusive}
use sql.Pager.PageLock.Steps.{
  System, take_shared, Reach, here, next, start, guards_of, is_granted, exclusive_alone,
  granted_iff,
}
use sql.Table.Schema.{Column, DataType}
use sql.Table.Row.{Row, Value}
use sql.Table.Rows
use sql.Table.Rows.{Table, row_key, insert_row, get_row}
use sql.Table.Rows.Get.{get_row-insert_row}
use sql.Planner.Transaction
use sql.Planner.Transaction.{
  Call, call_begin, call_commit, run, begin, rollback, ok, err, no_snapshot, is_active,
  IsConsistent, run-IsConsistent, rollback-begin,
}

-- A tree of order 4 in memory whose root is a leaf with one record.
abbrev one_record : Record
one_record = record { key = integer (pos 3); value = codes "three" }

abbrev one_leaf : Node
one_leaf = record {
  node_type = leaf;
  keys = integer (pos 3) ∷ [];
  children = [];
  records = one_record ∷ [];
  next_leaf = none;
}

abbrev one_page : MemoryInner
one_page = record { pages = (0, one_leaf) ∷ []; next_page = 1 }

abbrev small_tree : BPlusTree MemoryInner
small_tree = record { order = 4; storage = one_page; root = 0; size = 1 }

abbrev cached : LruCacheStorage MemoryInner
cached = record {
  inner = one_page;
  cache = (0, one_leaf) ∷ [];
  access_order = 0 ∷ [];
  capacity = 1;
  hits = 0;
  misses = 1;
}

cached-IsCoherent : IsCoherent memory_contents cached
unfolding IsCoherent
cached-IsCoherent q n e = e

lru_read_node-contents_example :
    (c' : LruCacheStorage MemoryInner) × ((lru_read_node memory_storage 0 cached
        ≡ some (one_leaf, c'))
      × (IsCoherent memory_contents c'
          × ((q : ℕ) → memory_contents c'.inner q ≡ memory_contents one_page q)))
unfolding lookup ℕ_discrete
lru_read_node-contents_example =
    lru_read_node-contents memory_storage memory_contents memory_storage-IsStore 0 cached one_leaf
      cached-IsCoherent refl

lru_write_node-contents_example :
    IsCoherent memory_contents (lru_write_node memory_storage 5 new_leaf cached)
    × ((q : ℕ)
        → memory_contents (lru_write_node memory_storage 5 new_leaf cached).inner q
          ≡ ite (ℕ_discrete 5 q) (some new_leaf) (memory_contents one_page q))
lru_write_node-contents_example =
    lru_write_node-contents memory_storage memory_contents memory_storage-IsStore 5 new_leaf cached
      cached-IsCoherent

-- A storage in memory that keeps a copy from the beginning of a transaction.
abbrev copied : Storage (MemoryInner × MemoryInner)
copied = record {
  read_node = λ id s. elim (memory_read_node id s.0) [
    | none ↦ none
    | some (node, m) ↦ some (node, (m, s.1))
  ];
  write_node = λ id node s. (memory_write_node id node s.0, s.1);
  alloc_page = λ s. (s.0.next_page, s);
  page_count = λ s. s.0.next_page;
  flush = λ s. s;
  begin_txn = λ s. (s.0, s.0);
  commit_txn = λ s. s;
  rollback_txn = λ s. (s.1, s.1);
  catalog_root = λ s. none;
  set_catalog_root = λ root s. s;
}

abbrev copied_contents : MemoryInner × MemoryInner → ℕ → Option Node
copied_contents s = memory_contents s.0

abbrev over_copied : LruCacheStorage (MemoryInner × MemoryInner)
over_copied = new_lru (one_page, one_page) 8

rollback_txn-stale_example :
    (c' : LruCacheStorage (MemoryInner × MemoryInner)) × ((lru_read_node copied 0
          (undone copied 0 new_leaf over_copied)
        ≡ some (new_leaf, c'))
      × (copied_contents (undone copied 0 new_leaf over_copied).inner 0 ≡ some one_leaf)
      × (¬ IsCoherent copied_contents (undone copied 0 new_leaf over_copied)))
unfolding lookup ℕ_discrete new_lru new_leaf
rollback_txn-stale_example =
    rollback_txn-stale copied copied_contents 0 new_leaf one_leaf over_copied refl (λ e. absurd cc)
      refl

might_contain-filled_example :
    might_contain (filled 16 3 ((5 ∷ []) ∷ ((1 ∷ 2 ∷ []) ∷ ((9 ∷ []) ∷ [])))) (1 ∷ 2 ∷ []) ≡ true
might_contain-filled_example =
    might_contain-filled 16 3 ((9 ∷ []) ∷ []) ((5 ∷ []) ∷ []) (1 ∷ 2 ∷ []) (omega arith)

abbrev two_bytes : Bytes
two_bytes = 7 ∷ 8 ∷ []

put_twice_example : (invalidate 4 (put 4 two_bytes (put 4 two_bytes (new 100)))).current_size ≡ 2
unfolding new
put_twice_example = put_twice 4 two_bytes (new 100) (omega arith) (omega arith)

abbrev locked : System
locked = record {
  locks = (2, record { mode = shared; shared_count = 1; exclusive_holder = none }) ∷ [];
  guards = record { page_id = 2; mode = shared } ∷ [];
}

locked_reached : Reach start locked
unfolding lock_shared Assoc.insert lookup
locked_reached = next here (
    take_shared start 2
      ((2, record { mode = shared; shared_count = 1; exclusive_holder = none }) ∷ [])
      (record { page_id = 2; mode = shared }) refl)

exclusive_alone_example :
    (guards_of exclusive 2 locked.guards ≤ 1)
    × ((guards_of exclusive 2 locked.guards ≡ 0) ⊎ (guards_of shared 2 locked.guards ≡ 0))
exclusive_alone_example = exclusive_alone locked 2 locked_reached

granted_iff_example :
    (is_granted (lock_exclusive 7 2 locked.locks)
      ≡ (guards_of shared 2 locked.guards + guards_of exclusive 2 locked.guards == 0))
    × (is_granted (lock_shared 2 locked.locks) ≡ (guards_of exclusive 2 locked.guards == 0))
granted_iff_example = granted_iff locked 7 2 locked_reached

abbrev two_calls : List Call
two_calls = call_commit ∷ (call_begin [] ∷ [])

rollback-begin_example : rollback (begin ((codes "t", 4) ∷ []) (run two_calls)).1 ≡ (
  ok (record { row_counts = (codes "t", 4) ∷ [] }),
  record (run two_calls) { txn_id = (run two_calls).txn_id + 1 },
)
unfolding is_active run Transaction.commit begin Transaction.new
rollback-begin_example = rollback-begin two_calls ((codes "t", 4) ∷ []) refl

-- A leaf with two records, and an internal node with two keys.
abbrev two_leaf : Node
two_leaf = record one_leaf {
  keys = integer (pos 3) ∷ (text (codes "k") ∷ []);
  records = one_record ∷ (record { key = text (codes "k"); value = codes "v" } ∷ []);
}

abbrev two_keys : Node
two_keys = record new_leaf {
  node_type = internal;
  keys = integer (pos 3) ∷ (integer (pos 5) ∷ []);
  children = 1 ∷ (2 ∷ (3 ∷ []));
}

halve_leaf-append_example :
    (k : Key) × ((l : Node) × ((r : Node) × ((halve_leaf two_leaf ≡ some (k, (l, r)))
          × (l.keys ++ r.keys ≡ two_leaf.keys)
          × (l.records ++ r.records ≡ two_leaf.records)
          × (length l.keys ≡ length two_leaf.keys / 2)
          × (length l.records ≡ length l.keys)
          × (get_elem? r.keys 0 ≡ some k))))
halve_leaf-append_example = halve_leaf-append two_leaf (omega arith) refl

halve_internal-append_example :
    (k : Key) × ((l : Node) × ((r : Node) × ((halve_internal two_keys ≡ some (k, (l, r)))
          × (l.keys ++ (k ∷ r.keys) ≡ two_keys.keys)
          × (l.children ++ r.children ≡ two_keys.children)
          × (length l.keys ≡ length two_keys.keys / 2)
          × (length l.children ≡ length l.keys + 1)
          × (length r.children ≡ length r.keys + 1))))
unfolding new_leaf
halve_internal-append_example = halve_internal-append two_keys (omega arith) refl

shift_left-append_example :
    (pn' : Node) × ((child' : Node) × ((right' : Node) × ((shift_left 1
              (two_keys, (one_leaf, two_leaf))
            ≡ some (pn', (child', right')))
          × (child'.keys ++ right'.keys ≡ one_leaf.keys ++ two_leaf.keys)
          × (child'.records ++ right'.records ≡ one_leaf.records ++ two_leaf.records)
          × (length child'.keys ≡ length one_leaf.keys + 1)
          × (get_elem? pn'.keys 1 ≡ get_elem? right'.keys 0))))
unfolding new_leaf is_leaf
shift_left-append_example =
    shift_left-append 1 two_keys one_leaf two_leaf refl (omega arith) refl (omega arith)

abbrev over_leaves : Node
over_leaves = record two_keys { children = 2 ∷ (3 ∷ (4 ∷ [])) }

-- A parent on page 0 with leaves on the pages 2, 3 and 4.
abbrev leaves : BPlusTree MemoryInner
leaves = record {
  order = 4;
  storage = record {
    pages = (0, over_leaves) ∷ ((2, one_leaf) ∷ ((3, one_leaf) ∷ ((4, two_leaf) ∷ [])));
    next_page = 5;
  };
  root = 0;
  size = 4;
}

merge-gather_example :
    (t' : BPlusTree MemoryInner) × ((pn' : Node) × ((left' : Node) × ((merge memory_storage 0 1
              leaves
            ≡ some t')
          × (memory_contents t'.storage 0 ≡ some pn')
          × (memory_contents t'.storage 3 ≡ some left')
          × (pn'.keys ≡ integer (pos 3) ∷ [])
          × (length pn'.children + 1 ≡ 3)
          × (left'.next_leaf ≡ two_leaf.next_leaf)
          × (gather (λ n. n.keys) (memory_contents t'.storage) pn'.children
              ≡ gather (λ n. n.keys) (memory_contents leaves.storage) over_leaves.children)
          × (gather (λ n. n.records) (memory_contents t'.storage) pn'.children
              ≡ gather (λ n. n.records) (memory_contents leaves.storage) over_leaves.children))))
unfolding is_leaf lookup ℕ_discrete new_leaf
merge-gather_example =
    merge-gather memory_storage memory_contents memory_storage-IsStore 0 1 leaves over_leaves
      one_leaf two_leaf (integer (pos 3) ∷ []) [] (integer (pos 5)) (2 ∷ []) [] 3 4 refl refl refl
      refl refl refl refl refl (omega arith) ((omega arith, omega arith), tt) tt

abbrev unlocked : LockedStorage MemoryInner
unlocked = record { inner = one_page; locks = [] }

locked_read_node-free_example :
    (c' : LockedStorage MemoryInner) × ((locked_read_node memory_storage 0 unlocked
        ≡ some (one_leaf, c'))
      × (c'.inner ≡ one_page)
      × ((q : ℕ) → lookup ℕ_discrete q c'.locks ≡ lookup ℕ_discrete q unlocked.locks))
unfolding lookup ℕ_discrete memory_storage memory_read_node
locked_read_node-free_example =
    locked_read_node-free memory_storage 0 unlocked one_leaf one_page refl refl

abbrev flag_column : Column ℕ
flag_column = record {
  name = codes "flag";
  data_type = DataType.boolean;
  nullable = true;
  autoinc = false;
  default = none;
}

-- A tree of two levels: keys below 5 in the first leaf.
abbrev root_node : Node
root_node = record new_leaf {
  node_type = internal;
  keys = integer (pos 5) ∷ [];
  children = 0 ∷ (1 ∷ []);
}

abbrev right_leaf : Node
right_leaf = record one_leaf {
  keys = text (codes "k") ∷ [];
  records = record { key = text (codes "k"); value = codes "v" } ∷ [];
}

abbrev two_levels : BPlusTree MemoryInner
two_levels = record {
  order = 4;
  storage = record {
    pages = (0, one_leaf) ∷ ((1, right_leaf) ∷ ((2, root_node) ∷ []));
    next_page = 3;
  };
  root = 2;
  size = 2;
}

abbrev small_table : Table ℕ MemoryInner
small_table = record {
  name = codes "t";
  schema = record { columns = flag_column ∷ (flag_column ∷ []) };
  tree = two_levels;
}

abbrev small_row : Row
small_row = record { values = Value.integer (pos 7) ∷ (Value.boolean true ∷ []) }

search-insert_deep_example :
    (t' : BPlusTree MemoryInner) × ((t'' : BPlusTree MemoryInner) × ((insert memory_storage 2
            (text (codes "m"))
            (codes "w")
            two_levels
          ≡ some t')
        × (search memory_storage 2 (integer (pos 3)) t'
            ≡ some (
              ite
                  (ℕ_discrete 1 0)
                  (if key_eq (text (codes "m")) (integer (pos 3))
                    then some (codes "w")
                    else find_record (integer (pos 3)) right_leaf.records)
                  (find_record (integer (pos 3)) one_leaf.records),
              t'',
            ))
        × (t'.size
            ≡ (if is_key_at
                  (leaf_position (text (codes "m")) right_leaf)
                  (text (codes "m"))
                  right_leaf.keys
                then 1
                else 2)
              + 1)))
unfolding lookup is_leaf ℕ_discrete new_leaf child_position partition_point key_compare
search-insert_deep_example =
    search-insert_deep memory_storage memory_contents memory_storage-IsStore 2 1 1
      (text (codes "m")) (integer (pos 3)) (codes "w") two_levels 1 0 right_leaf one_leaf
      (omega arith) (omega arith) (root_node, (1, (refl, refl, refl, (refl, refl, refl))))
      (root_node, (0, (refl, refl, refl, (refl, refl, refl)))) refl (omega arith)

get_row-insert_row_example :
    (t' : Table ℕ MemoryInner) × ((t'' : Table ℕ MemoryInner) × ((insert_row memory_storage 2
            small_row small_table
          ≡ some (Rows.ok tt, t'))
        × (get_row memory_storage 2 (integer (pos 7)) t' ≡ some (some small_row, t''))))
unfolding lookup is_leaf ℕ_discrete row_key new_leaf child_position partition_point key_compare
get_row-insert_row_example =
    get_row-insert_row memory_storage memory_contents memory_storage-IsStore 2 1 small_row
      (integer (pos 7)) small_table 1 right_leaf refl refl (omega arith, (tt, tt)) (omega arith)
      (root_node, (1, (refl, refl, refl, (refl, refl, refl)))) refl (omega arith)
