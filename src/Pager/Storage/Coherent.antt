-- ===== src/Pager/Storage/Coherent.antt =====
-- The laws of a storage, and the cache of nodes against the storage behind it
-- (src/pager/storage.rs).
use sql.Common.{
  ℕ, ◌+◌, ◌≡◌, refl, sym, ap, subst, ◌∙◌, arith, List, [], ◌∷◌, Option, none, some, leb, Bool-cases,
  inl, inr, ℕ_discrete, length, ite,
}
use mathlib.Core.Logic.{◌≢◌}
use sql.Common.Assoc.{lookup, insert, remove, lookup-insert, lookup-remove, lookup-insert_self}
use sql.Btree.Node.{Node}
use sql.Pager.Storage.{
  Storage, MemoryInner, memory_read_node, memory_write_node, memory_alloc_page, memory_storage,
  LruCacheStorage, evict, evict_oldest, make_room, touch, keep, push_back, read_cached,
  lru_read_node, lru_write_node, lru_storage,
}

-- What a client relies on: `contents` says which node each page holds.
pub record IsStore {S : Type 0} (st : Storage S) (contents : S → ℕ → Option Node) : Type 0 where
  pub read_node :
      (id : ℕ) (s : S) (node : Node)
      → contents s id ≡ some node
      → (s' : S) × ((st.read_node id s ≡ some (node, s'))
          × ((q : ℕ) → contents s' q ≡ contents s q))
  pub write_node :
      (id q : ℕ) (node : Node) (s : S)
      → contents (st.write_node id node s) q ≡ ite (ℕ_discrete id q) (some node) (contents s q)
  pub alloc_page : (s : S) (q : ℕ) → contents (st.alloc_page s).1 q ≡ contents s q
  pub flush : (s : S) (q : ℕ) → contents (st.flush s) q ≡ contents s q

abbrev pub memory_contents : MemoryInner → ℕ → Option Node
memory_contents s q = lookup ℕ_discrete q s.pages

-- The storage in memory is a store.
pub memory_storage-IsStore : IsStore memory_storage memory_contents
unfolding memory_storage memory_read_node memory_write_node memory_alloc_page
memory_storage-IsStore = record {
  read_node = λ id s node e. (s, (rw e refl, λ q. refl));
  write_node = λ id q node s. lookup-insert ℕ_discrete id q node s.pages;
  alloc_page = λ s q. refl;
  flush = λ s q. refl;
}

lookup-remove-some :
    (k q : ℕ) (m : List (ℕ × Node)) (n : Node)
    → lookup ℕ_discrete q (remove ℕ_discrete k m) ≡ some n
    → lookup ℕ_discrete q m ≡ some n
lookup-remove-some k q m n h = ground (arith, lookup-remove ℕ_discrete k q m)

module _ {S : Type 0} where
  evict_oldest-some :
      (order : List ℕ) (c : LruCacheStorage S) (q : ℕ) (n : Node)
      → lookup ℕ_discrete q (evict_oldest order c).cache ≡ some n
      → lookup ℕ_discrete q c.cache ≡ some n
  unfolding evict_oldest
  evict_oldest-some [] c q n h = h
  evict_oldest-some (oldest ∷ order) c q n h = lookup-remove-some oldest q c.cache n h

  make_room-some :
      (c : LruCacheStorage S) (q : ℕ) (n : Node)
      → lookup ℕ_discrete q (make_room c).cache ≡ some n
      → lookup ℕ_discrete q c.cache ≡ some n
  unfolding make_room evict
  make_room-some c q n h = elim (Bool-cases (leb c.capacity (length c.cache))) [
    | inl e ↦ evict_oldest-some c.access_order c q n (rw e at h)
    | inr e ↦ (rw e at h)
  ]

  evict_oldest-inner :
      (order : List ℕ) (c : LruCacheStorage S) → (evict_oldest order c).inner ≡ c.inner
  unfolding evict_oldest
  evict_oldest-inner [] c = refl
  evict_oldest-inner (oldest ∷ order) c = refl

  make_room-inner : (c : LruCacheStorage S) → (make_room c).inner ≡ c.inner
  unfolding make_room evict
  make_room-inner c = elim (Bool-cases (leb c.capacity (length c.cache))) [
    | inl e ↦ rw e (evict_oldest-inner c.access_order c)
    | inr e ↦ rw e refl
  ]

insert_cases :
    {k q : ℕ} (dec : Dec (k ≡ q)) (o : Option Node) (node n : Node) (old : Option Node)
    → (o ≡ some n → old ≡ some n)
    → ite dec (some node) o ≡ some n
    → ite dec (some node) old ≡ some n
insert_cases (yes p) o node n old h e = e
insert_cases (no ne) o node n old h e = h e

same_value :
    {k q : ℕ} (dec : Dec (k ≡ q)) (f : ℕ → Option Node) (node : Node)
    → f k ≡ some node
    → f q ≡ ite dec (some node) (f q)
same_value (yes p) f node e = ap f (sym p) ∙ e
same_value (no ne) f node e = refl

some_inj : (a b : Node) → some a ≡ some b → a ≡ b
some_inj a b e = cc

insert-some :
    (k q : ℕ) (node n : Node) (m : List (ℕ × Node)) (old : Option Node)
    → (lookup ℕ_discrete q m ≡ some n → old ≡ some n)
    → lookup ℕ_discrete q (insert ℕ_discrete k node m) ≡ some n
    → ite (ℕ_discrete k q) (some node) old ≡ some n
insert-some k q node n m old h e =
    insert_cases (ℕ_discrete k q) (lookup ℕ_discrete q m) node n old h
      (rw (lookup-insert ℕ_discrete k q node m) at e)

module _ {S : Type 0} (contents : S → ℕ → Option Node) where
  -- Each cached node is the one that the storage holds.
  unfoldable pub IsCoherent : LruCacheStorage S → Type 0
  IsCoherent c =
      (q : ℕ) (n : Node) → lookup ℕ_discrete q c.cache ≡ some n → contents c.inner q ≡ some n

  -- A node that the storage now holds may be cached, once the cache has made room.
  keep-IsCoherent :
      (k : ℕ) (node : Node) (c d : LruCacheStorage S)
      → IsCoherent c
      → d.cache ≡ c.cache
      → ((q : ℕ) → contents d.inner q ≡ ite (ℕ_discrete k q) (some node) (contents c.inner q))
      → IsCoherent (keep k node (make_room d))
  unfolding IsCoherent keep
  keep-IsCoherent k node c d h same view q n e =
      ap (λ s. contents s q) (make_room-inner d)
      ∙ (view q
          ∙ insert-some k q node n (make_room d).cache (contents c.inner q)
              (λ f.
                h q n (subst (λ m. lookup ℕ_discrete q m ≡ some n) same (make_room-some d q n f)))
              e)

module _ {S : Type 0} (st : Storage S) (contents : S → ℕ → Option Node)
    (law : IsStore st contents) where
  same_view :
      (k q : ℕ) (node : Node) (s : S)
      → contents s k ≡ some node
      → contents s q ≡ ite (ℕ_discrete k q) (some node) (contents s q)
  same_view k q node s e = same_value (ℕ_discrete k q) (contents s) node e

  read_cached_lem :
      (o : Option Node) (k : ℕ) (c : LruCacheStorage S) (node : Node)
      → IsCoherent contents c
      → lookup ℕ_discrete k c.cache ≡ o
      → contents c.inner k ≡ some node
      → (c' : LruCacheStorage S) × ((read_cached st o k c ≡ some (node, c'))
          × (IsCoherent contents c' × ((q : ℕ) → contents c'.inner q ≡ contents c.inner q)))
  unfolding read_cached touch push_back IsCoherent keep
  read_cached_lem (some cached) k c node h found e = (
    touch k (record c { hits = c.hits + 1 }),
    (
      ap (λ n. some (n, touch k (record c { hits = c.hits + 1 })))
          (some_inj cached node (sym (h k cached found) ∙ e)),
      (h, λ q. refl),
    ),
  )
  read_cached_lem none k c node h found e =
      let (s, (read, same)) = law.read_node k c.inner node e in
      let d : LruCacheStorage S = record c { inner = s; misses = c.misses + 1 } in
      (
        push_back k (keep k node (make_room d)),
        (
          rw read refl,
          (
            keep-IsCoherent contents k node c d h refl (λ q. same q ∙ same_view k q node c.inner e),
            λ q. ap (λ s. contents s q) (make_room-inner d) ∙ same q,
          ),
        ),
      )

  -- Over any lawful storage, a page that the storage holds is read through a coherent cache as the
  -- storage holds it, whether or not it is cached; the cache stays coherent and the storage's pages
  -- are as they were.
  pub lru_read_node-contents :
      (k : ℕ) (c : LruCacheStorage S) (node : Node)
      → IsCoherent contents c
      → contents c.inner k ≡ some node
      → (c' : LruCacheStorage S) × ((lru_read_node st k c ≡ some (node, c'))
          × (IsCoherent contents c' × ((q : ℕ) → contents c'.inner q ≡ contents c.inner q)))
  unfolding lru_read_node
  lru_read_node-contents k c node h e =
      read_cached_lem (lookup ℕ_discrete k c.cache) k c node h refl e

  -- Over any lawful storage, a write through a coherent cache leaves the cache coherent, and
  -- changes the written page of the storage and no other.
  pub lru_write_node-contents :
      (k : ℕ) (node : Node) (c : LruCacheStorage S)
      → IsCoherent contents c
      → IsCoherent contents (lru_write_node st k node c)
        × ((q : ℕ)
            → contents (lru_write_node st k node c).inner q
              ≡ ite (ℕ_discrete k q) (some node) (contents c.inner q))
  unfolding lru_write_node touch keep IsCoherent
  lru_write_node-contents k node c h =
      let d : LruCacheStorage S = record c { inner = st.write_node k node c.inner } in
      (
        keep-IsCoherent contents k node c d h refl (λ q. law.write_node k q node c.inner),
        λ q. ap (λ s. contents s q) (make_room-inner d) ∙ law.write_node k q node c.inner,
      )

module _ {S : Type 0} (st : Storage S) where
  -- A page that is written in a transaction, which is then rolled back.
  abbrev pub undone : ℕ → Node → LruCacheStorage S → LruCacheStorage S
  undone k node c =
      (lru_storage st).rollback_txn
        ((lru_storage st).write_node k node ((lru_storage st).begin_txn c))

  written-cached :
      (k : ℕ) (node : Node) (c : LruCacheStorage S)
      → lookup ℕ_discrete k (lru_write_node st k node c).cache ≡ some node
  unfolding lru_write_node touch keep
  written-cached k node c =
      lookup-insert_self ℕ_discrete k node
        (make_room (record c { inner = st.write_node k node c.inner })).cache

  undone-inner :
      (k : ℕ) (node : Node) (c : LruCacheStorage S)
      → (undone k node c).inner ≡ st.rollback_txn (st.write_node k node (st.begin_txn c.inner))
  unfolding lru_storage lru_write_node touch keep
  undone-inner k node c =
      ap st.rollback_txn
        (make_room-inner (record c { inner = st.write_node k node (st.begin_txn c.inner) }))

  -- A page is written through the cache in a transaction that is rolled back, over a storage whose
  -- rollback brings back what that page held when the transaction began, which was another node:
  -- reading the page afterwards through the cache still gives the node that was written, while the
  -- storage has the old one, so the cache is not coherent any more.
  pub rollback_txn-stale :
      (contents : S → ℕ → Option Node) (k : ℕ) (node old : Node) (c : LruCacheStorage S)
      → contents c.inner k ≡ some old
      → node ≢ old
      → contents (st.rollback_txn (st.write_node k node (st.begin_txn c.inner))) k
        ≡ contents c.inner k
      → (c' : LruCacheStorage S) × ((lru_read_node st k (undone k node c) ≡ some (node, c'))
          × (contents (undone k node c).inner k ≡ some old)
          × (¬ IsCoherent contents (undone k node c)))
  unfolding lru_read_node lru_storage read_cached IsCoherent
  rollback_txn-stale contents k node old c held other undo =
      let written = lru_write_node st k node ((lru_storage st).begin_txn c) in
      let found : lookup ℕ_discrete k written.cache ≡ some node =
        written-cached k node ((lru_storage st).begin_txn c) in
      let d : LruCacheStorage S = record written {
        inner = st.rollback_txn written.inner;
        hits = written.hits + 1;
      } in
      let restored : contents (undone k node c).inner k ≡ some old =
        ap (λ s. contents s k) (undone-inner k node c) ∙ (undo ∙ held) in
      (
        touch k d,
        (rw found refl, restored, λ h. other (some_inj node old (sym (h k node found) ∙ restored))),
      )
