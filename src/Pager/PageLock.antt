-- ===== src/Pager/PageLock.antt =====
-- src/pager/page_lock.rs: locks on pages, held by guards. A thread is a number. The manager's own
-- lock makes each call atomic, so a run is a sequence of calls.
pub mod Steps
use sql.Common.{
  ℕ, zero, suc, ◌+◌, ◌-◌, List, [], ◌∷◌, Option, none, some, Bool, true, false, ◌&&◌, ltb, ◌==◌,
  if◌then◌else◌, ℕ_discrete,
}
use sql.Common.Assoc.{lookup, insert, remove}

pub data LockMode : Type 0 where
  shared exclusive : LockMode

pub data LockError : Type 0 where
  blocked_by_exclusive blocked_by_shared deadlock : LockError

pub record PageLockState : Type 0 where
  pub mode : LockMode
  pub shared_count : ℕ
  pub exclusive_holder : Option ℕ

abbrev pub Locks : Type 0
Locks = List (ℕ × PageLockState)

pub record PageLockGuard : Type 0 where
  pub page_id : ℕ
  pub mode : LockMode

pub data Result : Type 0 where
  ok : Locks → PageLockGuard → Result
  err : LockError → Result

abbrev pub is_some : Option ℕ → Bool
is_some none = false
is_some (some _) = true

abbrev pub shared_entry : PageLockState
shared_entry = record { mode = shared; shared_count = 0; exclusive_holder = none }

abbrev pub exclusive_entry : PageLockState
exclusive_entry = record { mode = exclusive; shared_count = 0; exclusive_holder = none }

-- `entry(page_id).or_insert(fresh)`.
unfoldable pub entry : Option PageLockState → PageLockState → PageLockState
entry none fresh = fresh
entry (some state) fresh = state

-- What the guards of `lock_shared` and `lock_exclusive` say of the entry that is there.
unfoldable pub refuses_shared : Option PageLockState → Option LockError
refuses_shared none = none
refuses_shared (some state) =
    if is_some state.exclusive_holder then some blocked_by_exclusive else none

unfoldable pub refuses_exclusive : Option PageLockState → Option LockError
refuses_exclusive none = none
refuses_exclusive (some state) =
    if ltb 0 state.shared_count
    then some blocked_by_shared
    else if is_some state.exclusive_holder
    then some deadlock
    else none

abbrev pub one_more : PageLockState → PageLockState
one_more state = record state { shared_count = state.shared_count + 1 }

abbrev pub held_by : ℕ → PageLockState → PageLockState
held_by thread state = record state { exclusive_holder = some thread }

unfoldable pub lock_shared : ℕ → Locks → Result
unfolding refuses_shared entry
lock_shared page_id locks = elim (refuses_shared (lookup ℕ_discrete page_id locks)) [
  | some e ↦ err e
  | none ↦
      ok
        (insert ℕ_discrete page_id (one_more (entry (lookup ℕ_discrete page_id locks) shared_entry))
          locks)
        (record { page_id = page_id; mode = shared })
]

unfoldable pub lock_exclusive : ℕ → ℕ → Locks → Result
unfolding refuses_exclusive entry
lock_exclusive thread page_id locks = elim (refuses_exclusive (lookup ℕ_discrete page_id locks)) [
  | some e ↦ err e
  | none ↦
      ok
        (insert ℕ_discrete page_id
          (held_by thread (entry (lookup ℕ_discrete page_id locks) exclusive_entry)) locks)
        (record { page_id = page_id; mode = exclusive })
]

-- The new entry of a page whose guard goes, `none` where the entry is removed.
unfoldable pub release : LockMode → PageLockState → Option PageLockState
release shared state =
    if state.shared_count - 1 == 0 && (if is_some state.exclusive_holder then false else true)
    then none
    else some (record state { shared_count = state.shared_count - 1 })
release exclusive state =
    if state.shared_count == 0 then none else some (record state { exclusive_holder = none })

unfoldable pub put_back : ℕ → Option PageLockState → Locks → Locks
put_back page_id none locks = remove ℕ_discrete page_id locks
put_back page_id (some state) locks = insert ℕ_discrete page_id state locks

-- `Drop for PageLockGuard`.
unfoldable pub drop_guard : PageLockGuard → Locks → Locks
unfolding release put_back
drop_guard guard locks = elim (lookup ℕ_discrete guard.page_id locks) [
  | none ↦ locks
  | some state ↦ put_back guard.page_id (release guard.mode state) locks
]

unfoldable pub release_all : Locks → Locks
release_all locks = []

-- `Result::ok`.
abbrev pub granted : Result → Option (Locks × PageLockGuard)
granted (ok locks guard) = some (locks, guard)
granted (err e) = none

unfoldable pub try_lock_shared : ℕ → Locks → Option (Locks × PageLockGuard)
unfolding lock_shared
try_lock_shared page_id locks = granted (lock_shared page_id locks)

unfoldable pub try_lock_exclusive : ℕ → ℕ → Locks → Option (Locks × PageLockGuard)
unfolding lock_exclusive
try_lock_exclusive thread page_id locks = granted (lock_exclusive thread page_id locks)
