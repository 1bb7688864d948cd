-- ===== src/Pager/Wal/ReadWrite.antt =====
-- What a reader of the log sees after a write, a commit and a rollback (src/pager/wal.rs).
use sql.Common.{
  ℕ, ◌≡◌, refl, sym, ap, subst, arith, [], ◌∷◌, Option, some, true, false, ℕ_discrete, ite,
  if◌then◌else◌, All, ◌<◌, ◌^◌,
}
use sql.Common.Bytes.{Bytes}
use sql.Common.Assoc.{lookup, insert, lookup-insert, Distinct, insert-Distinct}
use sql.Pager.Wal.{
  Wal, Pages, or_else, begin, next_txn, write_frame, write_commit_frame, auto_commit, write_page,
  commit_active, commit, rollback, read_page,
}
use sql.Pager.Wal.Durable.{commit_when_active, IsPage, IsTxn, lookup-insert_all}

lookup-or_else :
    (k q : ℕ) (v : Bytes) (o p : Option Bytes)
    → or_else (ite (ℕ_discrete k q) (some v) o) p ≡ ite (ℕ_discrete k q) (some v) (or_else o p)
unfolding or_else
lookup-or_else k q v o p = ground arith

write_page_active :
    (k : ℕ) (v : Bytes) (w : Wal)
    → w.in_txn ≡ true
    → write_page k v w ≡ record w { dirty = insert ℕ_discrete k v w.dirty }
unfolding write_page
write_page_active k v w e =
    ap (λ b. if b then record w { dirty = insert ℕ_discrete k v w.dirty } else auto_commit k v w) e

pub write_page_auto :
    (k : ℕ) (v : Bytes) (w : Wal) → w.in_txn ≡ false → write_page k v w ≡ auto_commit k v w
unfolding write_page
write_page_auto k v w e =
    ap (λ b. if b then record w { dirty = insert ℕ_discrete k v w.dirty } else auto_commit k v w) e

-- In a transaction a written page reads back at once, and no other page changes.
pub read_page-write_page :
    (k : ℕ) (v : Bytes) (w : Wal) (q : ℕ)
    → w.in_txn ≡ true
    → read_page q (write_page k v w) ≡ ite (ℕ_discrete k q) (some v) (read_page q w)
unfolding read_page
read_page-write_page k v w q e =
    rw (write_page_active k v w e, lookup-insert ℕ_discrete k q v w.dirty)
      (lookup-or_else k q v (lookup ℕ_discrete q w.dirty) (lookup ℕ_discrete q w.committed))

-- Outside a transaction the same holds of a page that no dirty page hides, as after every commit.
pub read_page-write_page_auto :
    (k : ℕ) (v : Bytes) (w : Wal) (q : ℕ)
    → w.in_txn ≡ false
    → w.dirty ≡ []
    → read_page q (write_page k v w) ≡ ite (ℕ_discrete k q) (some v) (read_page q w)
unfolding read_page auto_commit write_commit_frame write_frame next_txn or_else lookup
read_page-write_page_auto k v w q e clean =
    rw (write_page_auto k v w e, clean, lookup-insert ℕ_discrete k q v w.committed)

-- In a transaction with no page twice among its dirty pages, commit changes what no reader sees:
-- each page reads the same before and after.
pub read_page-commit :
    (w : Wal) (q : ℕ)
    → w.in_txn ≡ true
    → Distinct ℕ_discrete w.dirty
    → read_page q (commit w) ≡ read_page q w
unfolding read_page commit_active or_else lookup
read_page-commit w q e d = rw (commit_when_active w e) (lookup-insert_all w.dirty w.committed d q)

-- Where no page is saved twice, after rollback a page reads as its saved original, if one was
-- saved, and as committed if not.
pub read_page-rollback :
    (w : Wal) (q : ℕ)
    → Distinct ℕ_discrete w.pre_image
    → read_page q (rollback w)
      ≡ or_else (lookup ℕ_discrete q w.pre_image) (lookup ℕ_discrete q w.committed)
unfolding read_page rollback or_else lookup
read_page-rollback w q d = lookup-insert_all w.pre_image w.committed d q

-- A transaction that has begun may be committed, and stays so with each whole page written.
pub begin-IsTxn : (w : Wal) → w.next_txn_id < 2 ^ 32 → IsTxn (begin w)
unfolding begin
begin-IsTxn w h = record { active = refl; pages = tt; distinct = tt; number = h }

insert-IsPage :
    (k : ℕ) (v : Bytes) (m : Pages)
    → IsPage (k, v)
    → All IsPage m
    → All IsPage (insert ℕ_discrete k v m)
unfolding insert
insert-IsPage k v [] h hs = (h, tt)
insert-IsPage k v ((j, u) ∷ m) h hs =
    elim (ℕ_discrete j k)
      as (λ d. All IsPage (ite d ((k, v) ∷ m) ((j, u) ∷ insert ℕ_discrete k v m))) [
        | yes e ↦ (h, hs.1)
        | no n ↦ (hs.0, insert-IsPage k v m h hs.1)
      ]

pub write_page-IsTxn :
    (k : ℕ) (v : Bytes) (w : Wal) → IsPage (k, v) → IsTxn w → IsTxn (write_page k v w)
write_page-IsTxn k v w page t = subst IsTxn (sym (write_page_active k v w t.active)) (record {
  active = t.active;
  pages = insert-IsPage k v w.dirty page t.pages;
  distinct = insert-Distinct ℕ_discrete k v w.dirty t.distinct;
  number = t.number;
})
