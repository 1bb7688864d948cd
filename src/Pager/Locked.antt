-- ===== src/Pager/Locked.antt =====
-- src/pager/page_lock.rs, `LockedStorage`: a storage whose reads and writes each hold a guard on the
-- page. `none` is the panic of `unwrap` on a lock that is refused, or of the inner read.
use sql.Common.{
  ℕ, ◌≡◌, refl, sym, ap, ◌∙◌, arith, [], Option, none, some, true, if◌then◌else◌, ◌>>=◌, ℕ_discrete,
  ite, ltb, ◌<◌,
}
use sql.Common.Assoc.{lookup, insert, remove, lookup-insert, lookup-remove, lookup-insert_self}
use sql.Btree.Node.{Node}
use sql.Pager.Storage.{Storage}
use sql.Pager.PageLock.{
  Locks, PageLockState, PageLockGuard, Result, ok, err, is_some, blocked_by_shared, deadlock,
  shared, exclusive, shared_entry, exclusive_entry, one_more, held_by, lock_shared, lock_exclusive,
  drop_guard, entry, refuses_shared, refuses_exclusive, release, put_back,
}

pub record LockedStorage (S : Type 0) : Type 0 where
  pub inner : S
  pub locks : Locks

-- The guard of a fresh shared lock leaves no trace when it goes.
abbrev fresh : PageLockState
fresh = one_more shared_entry

drop_fresh :
    (p : ℕ) (locks : Locks)
    → lookup ℕ_discrete p locks ≡ some fresh
    → drop_guard (record { page_id = p; mode = shared }) locks ≡ remove ℕ_discrete p locks
unfolding drop_guard release put_back
drop_fresh p locks e = rw (drop_guard, e) refl

pick :
    {p q : ℕ} (dec : Dec (p ≡ q)) (old : ℕ → Option PageLockState) (v : PageLockState)
    → old p ≡ none
    → ite dec none (ite dec (some v) (old q)) ≡ old q
pick (yes same) old v free = sym free ∙ ap old same
pick (no ne) old v free = refl

lookup-drop_guard :
    (p : ℕ) (locks : Locks)
    → lookup ℕ_discrete p locks ≡ none
    → (q : ℕ)
    → lookup ℕ_discrete q
        (drop_guard (record { page_id = p; mode = shared }) (insert ℕ_discrete p fresh locks))
      ≡ lookup ℕ_discrete q locks
lookup-drop_guard p locks free q =
    ap (lookup ℕ_discrete q)
      (drop_fresh p (insert ℕ_discrete p fresh locks) (lookup-insert_self ℕ_discrete p fresh locks))
    ∙ (lookup-remove ℕ_discrete p q (insert ℕ_discrete p fresh locks)
        ∙ (ap (ite (ℕ_discrete p q) none) (lookup-insert ℕ_discrete p q fresh locks)
            ∙ pick (ℕ_discrete p q) (λ k. lookup ℕ_discrete k locks) fresh free))

lock_shared_free :
    (p : ℕ) (locks : Locks)
    → lookup ℕ_discrete p locks ≡ none
    → lock_shared p locks
      ≡ ok (insert ℕ_discrete p fresh locks) (record { page_id = p; mode = shared })
unfolding lock_shared refuses_shared entry
lock_shared_free p locks free =
    ap
      (λ o. elim (refuses_shared o) [
        | some e ↦ err e
        | none ↦
            ok (insert ℕ_discrete p (one_more (entry o shared_entry)) locks)
              (record { page_id = p; mode = shared })
      ])
      free

refuses_busy :
    (state : PageLockState)
    → 0 < state.shared_count
    → refuses_exclusive (some state) ≡ some blocked_by_shared
unfolding refuses_exclusive
refuses_busy state busy =
    let test : ltb 0 state.shared_count ≡ true = ground arith in
    ap
      (λ b.
        if b
        then some blocked_by_shared
        else if is_some state.exclusive_holder
        then some deadlock
        else none)
      test

lock_exclusive_busy :
    (thread p : ℕ) (locks : Locks) (state : PageLockState)
    → lookup ℕ_discrete p locks ≡ some state
    → 0 < state.shared_count
    → lock_exclusive thread p locks ≡ err blocked_by_shared
unfolding lock_exclusive
lock_exclusive_busy thread p locks state here busy =
    ap
      (λ o. elim o [
        | some e ↦ err e
        | none ↦
            ok
              (insert ℕ_discrete p
                (held_by thread (entry (lookup ℕ_discrete p locks) exclusive_entry)) locks)
              (record { page_id = p; mode = exclusive })
      ])
      (ap refuses_exclusive here ∙ refuses_busy state busy)

module _ {S : Type 0} where
  unfoldable pub new_locked : S → LockedStorage S
  new_locked inner = record { inner = inner; locks = [] }

  module _ (st : Storage S) where
    -- A read under the lock that was granted or refused; the guard goes at the end.
    unfoldable pub read_guarded : Result → ℕ → S → Option (Node × LockedStorage S)
    read_guarded (err e) page_id s = none
    read_guarded (ok locks guard) page_id s = do
      (node, inner) ← st.read_node page_id s
      some (node, record { inner = inner; locks = drop_guard guard locks })

    unfoldable pub locked_read_node : ℕ → LockedStorage S → Option (Node × LockedStorage S)
    unfolding read_guarded
    locked_read_node page_id c = read_guarded (lock_shared page_id c.locks) page_id c.inner

    unfoldable pub write_guarded : Result → ℕ → Node → S → Option (LockedStorage S)
    write_guarded (err e) page_id node s = none
    write_guarded (ok locks guard) page_id node s =
        some (record { inner = st.write_node page_id node s; locks = drop_guard guard locks })

    -- `thread` is the thread that calls.
    unfoldable pub locked_write_node : ℕ → ℕ → Node → LockedStorage S → Option (LockedStorage S)
    unfolding write_guarded
    locked_write_node thread page_id node c =
        write_guarded (lock_exclusive thread page_id c.locks) page_id node c.inner

    unfoldable pub locked_alloc_page : LockedStorage S → ℕ × LockedStorage S
    locked_alloc_page c =
        let (id, inner) = st.alloc_page c.inner in (id, record c { inner = inner })

    unfoldable pub locked_flush : LockedStorage S → LockedStorage S
    locked_flush c = record c { inner = st.flush c.inner }

    unfoldable pub locked_begin_txn : LockedStorage S → LockedStorage S
    locked_begin_txn c = record c { inner = st.begin_txn c.inner }

    unfoldable pub locked_commit_txn : LockedStorage S → LockedStorage S
    locked_commit_txn c = record c { inner = st.commit_txn c.inner }

    unfoldable pub locked_rollback_txn : LockedStorage S → LockedStorage S
    locked_rollback_txn c = record c { inner = st.rollback_txn c.inner }

    unfoldable pub locked_catalog_root : LockedStorage S → Option ℕ
    locked_catalog_root c = st.catalog_root c.inner

    unfoldable pub locked_set_catalog_root : ℕ → LockedStorage S → LockedStorage S
    locked_set_catalog_root root c = record c { inner = st.set_catalog_root root c.inner }

    unfoldable pub locked_page_count : LockedStorage S → ℕ
    locked_page_count c = st.page_count c.inner

    -- A locked storage with no lock on a page reads that page as the storage behind it does,
    -- whenever that one has it, and leaves every entry of the lock table as it was.
    pub locked_read_node-free :
        (p : ℕ) (c : LockedStorage S) (node : Node) (s : S)
        → lookup ℕ_discrete p c.locks ≡ none
        → st.read_node p c.inner ≡ some (node, s)
        → (c' : LockedStorage S) × ((locked_read_node p c ≡ some (node, c'))
            × (c'.inner ≡ s)
            × ((q : ℕ) → lookup ℕ_discrete q c'.locks ≡ lookup ℕ_discrete q c.locks))
    unfolding locked_read_node read_guarded
    locked_read_node-free p c node s free e =
        let taken = insert ℕ_discrete p fresh c.locks in
        let guard : PageLockGuard = record { page_id = p; mode = shared } in
        (
          record { inner = s; locks = drop_guard guard taken },
          (
            ap (λ r. read_guarded r p c.inner) (lock_shared_free p c.locks free) ∙ rw e refl,
            refl,
            lookup-drop_guard p c.locks free,
          ),
        )

    pub locked_write_node-held :
        (thread p : ℕ) (node : Node) (c : LockedStorage S) (state : PageLockState)
        → lookup ℕ_discrete p c.locks ≡ some state
        → 0 < state.shared_count
        → locked_write_node thread p node c ≡ none
    unfolding locked_write_node write_guarded
    locked_write_node-held thread p node c state here busy =
        ap (λ r. write_guarded r p node c.inner)
          (lock_exclusive_busy thread p c.locks state here busy)
