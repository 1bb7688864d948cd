-- ===== src/Pager/Cache/Reads.antt =====
-- What `get` answers after `put` and `invalidate` (src/pager/cache.rs).
use sql.Common.{
  ℕ, ◌+◌, ◌*◌, ◌/◌, ◌≡◌, ◌≤◌, refl, ap, ◌∙◌, arith, List, [], ◌∷◌, none, some, Bool, false, ltb,
  if◌then◌else◌, if_pos, ℕ_discrete, length, Bool-cases, inl, inr,
}
use sql.Common.Assoc.{lookup, insert, lookup-insert_self, lookup-remove}
use sql.Common.Bytes.{Bytes}
use sql.Pager.Cache.{PageCache, get, get_entry, drop_page, make_room, store, put, invalidate}

if_false : {b : Bool} → b ≡ false → (x y : PageCache) → (if b then y else x) ≡ x
if_false e x y = rw e refl

get_found :
    (k n : ℕ) (page : Bytes) (c : PageCache)
    → lookup ℕ_discrete k c.cache ≡ some (page, n)
    → (get k c).0 ≡ some page
unfolding get get_entry
get_found k n page c e = rw e refl

get_missing : (k : ℕ) (c : PageCache) → lookup ℕ_discrete k c.cache ≡ none → (get k c).0 ≡ none
unfolding get get_entry
get_missing k c e = rw e refl

-- A page of at most a tenth of the budget is there right after it is put, whatever was cached and
-- whatever had to go; putting a larger one leaves for that number what was there.
pub get-put :
    (k : ℕ) (page : Bytes) (c : PageCache)
    → (get k (put k page c)).0
      ≡ (if ltb (c.max_size / 10) (length page) then (get k c).0 else some page)
unfolding put store
get-put k page c = elim (Bool-cases (ltb (c.max_size / 10) (length page))) [
  | inl e ↦ rw e refl
  | inr e ↦ rw e (
      get_found k (length page) page (store k page (make_room (length page) c.lru c)) (
        lookup-insert_self ℕ_discrete k (page, length page)
          (make_room (length page) c.lru c).cache))
]

-- An invalidated page is not there.
pub get-invalidate : (k : ℕ) (c : PageCache) → (get k (invalidate k c)).0 ≡ none
unfolding invalidate drop_page
get-invalidate k c = get_missing k (invalidate k c) (
    lookup-remove ℕ_discrete k k c.cache
    ∙ if_pos (ℕ_discrete k k) refl none (lookup ℕ_discrete k c.cache))

make_room_enough :
    (size : ℕ) (order : List ℕ) (c : PageCache)
    → ltb c.max_size (c.current_size + size) ≡ false
    → make_room size order c ≡ record c { lru = order }
unfolding make_room
make_room_enough size [] c h = refl
make_room_enough size (oldest ∷ order) c h = rw h refl

put_enough :
    (k : ℕ) (page : Bytes) (c : PageCache)
    → length page ≤ c.max_size / 10
    → c.current_size + length page ≤ c.max_size
    → put k page c ≡ store k page c
unfolding put
put_enough k page c small room =
    let one : ltb (c.max_size / 10) (length page) ≡ false = ground arith in
    let two : ltb c.max_size (c.current_size + length page) ≡ false = ground arith in
    if_false one (store k page (make_room (length page) c.lru c)) c
    ∙ ap (store k page) (make_room_enough (length page) c.lru c two)

-- A page that is put twice is counted twice: where it is at most a tenth of the budget and the
-- budget has room for both, invalidating the page leaves its bytes in current_size.
pub put_twice :
    (k : ℕ) (page : Bytes) (c : PageCache)
    → length page ≤ c.max_size / 10
    → c.current_size + 2 * length page ≤ c.max_size
    → (invalidate k (put k page (put k page c))).current_size ≡ c.current_size + length page
unfolding invalidate drop_page store
put_twice k page c small room =
    let once = put_enough k page c small (omega arith) in
    let twice = put_enough k page (store k page c) small (omega arith) in
    rw
      (
        once,
        twice,
        lookup-insert_self ℕ_discrete k (page, length page)
            (insert ℕ_discrete k (page, length page) c.cache),
      )
      (omega arith)
