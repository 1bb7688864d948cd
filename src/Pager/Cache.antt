-- ===== src/Pager/Cache.antt =====
-- src/pager/cache.rs, `PageCache`: pages by their number, the order of their use, and a budget of
-- bytes. The locks of the source make each method one step. `get_hot_pages` sorts a map whose order
-- of iteration is not fixed, so it is left out, with the file that it is saved to.
pub mod Reads
use sql.Common.{
  ℕ, zero, suc, ◌+◌, ◌-◌, ◌*◌, ◌/◌, List, [], ◌∷◌, ◌++◌, Option, none, some, Bool, true, false, ltb,
  if◌then◌else◌, ite, ℕ_discrete, length,
}
use sql.Common.Assoc.{lookup, insert, remove}
use sql.Common.Bytes.{Bytes}

abbrev pub dir_default_cache_size : ℕ
dir_default_cache_size = 64 * 1024 * 1024

pub record PageCache : Type 0 where
  pub cache : List (ℕ × (Bytes × ℕ))
  pub lru : List ℕ
  pub max_size : ℕ
  pub current_size : ℕ
  pub access_count : List (ℕ × ℕ)

unfoldable pub new : ℕ → PageCache
new max_size = record {
  cache = [];
  lru = [];
  max_size = max_size;
  current_size = 0;
  access_count = [];
}

-- `retain(|id| id != page_id)`.
unfoldable pub without : ℕ → List ℕ → List ℕ
without k [] = []
without k (j ∷ js) = ite (ℕ_discrete j k) (without k js) (j ∷ without k js)

-- `entry(page_id).or_insert(0) += 1`.
abbrev pub one_more : Option ℕ → ℕ
one_more none = 1
one_more (some n) = n + 1

unfoldable pub get_entry : Option (Bytes × ℕ) → ℕ → PageCache → Option Bytes × PageCache
unfolding without
get_entry none page_id c = (none, c)
get_entry (some (page, _)) page_id c = (
  some page,
  record c {
    lru = without page_id c.lru ++ (page_id ∷ []);
    access_count =
        insert ℕ_discrete page_id (one_more (lookup ℕ_discrete page_id c.access_count))
          c.access_count;
  },
)

unfoldable pub get : ℕ → PageCache → Option Bytes × PageCache
unfolding get_entry
get page_id c = get_entry (lookup ℕ_discrete page_id c.cache) page_id c

abbrev pub size_of : Option (Bytes × ℕ) → ℕ
size_of none = 0
size_of (some (_, s)) = s

-- A page out of the map and out of the budget.
unfoldable pub drop_page : ℕ → PageCache → PageCache
drop_page k c = record c {
  cache = remove ℕ_discrete k c.cache;
  current_size = c.current_size - size_of (lookup ℕ_discrete k c.cache);
}

-- The loop that makes room for `size` bytes, over what is left of the order of use.
unfoldable pub make_room : ℕ → List ℕ → PageCache → PageCache
unfolding drop_page
make_room size [] c = record c { lru = [] }
make_room size (oldest ∷ order) c =
    let rest = make_room size order (drop_page oldest c) in
    if ltb c.max_size (c.current_size + size) then rest else record c { lru = oldest ∷ order }

unfoldable pub store : ℕ → Bytes → PageCache → PageCache
store page_id page c = record c {
  cache = insert ℕ_discrete page_id (page, length page) c.cache;
  lru = c.lru ++ (page_id ∷ []);
  current_size = c.current_size + length page;
}

unfoldable pub put : ℕ → Bytes → PageCache → PageCache
unfolding make_room store
put page_id page c =
    if ltb (c.max_size / 10) (length page)
    then c
    else store page_id page (make_room (length page) c.lru c)

abbrev pub prefetch : ℕ → Bytes → PageCache → PageCache
unfolding put
prefetch page_id page c = put page_id page c

unfoldable pub prefetch_batch : List (ℕ × Bytes) → PageCache → PageCache
unfolding put
prefetch_batch [] c = c
prefetch_batch ((id, page) ∷ pages) c = prefetch_batch pages (put id page c)

abbrev pub prefetch_missing : Option Bytes → ℕ → PageCache → PageCache
unfolding put
prefetch_missing none id c = c
prefetch_missing (some page) id c = put id page c

-- What `prefetch_range` does to one page, given what the cache answers.
abbrev pub prefetch_one : Option Bytes → Option Bytes → ℕ → PageCache → PageCache
prefetch_one (some _) loaded id c = c
prefetch_one none loaded id c = prefetch_missing loaded id c

unfoldable pub prefetch_range : ℕ → ℕ → (ℕ → Option Bytes) → PageCache → PageCache
unfolding get
prefetch_range start zero loader c = c
prefetch_range start (suc count) loader c =
    let (cached, c') = get start c in
    prefetch_range (suc start) count loader (prefetch_one cached (loader start) start c')

unfoldable pub invalidate : ℕ → PageCache → PageCache
unfolding drop_page without
invalidate page_id c = let d = drop_page page_id c in record d { lru = without page_id d.lru }

unfoldable pub clear : PageCache → PageCache
clear c = record c { cache = []; lru = []; current_size = 0 }

unfoldable pub stats : PageCache → ℕ × (ℕ × ℕ)
stats c = (length c.cache, (c.current_size, c.max_size))
