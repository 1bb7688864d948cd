-- ===== src/Pager/Wal/Durable.antt =====
-- The log file against the pages in memory, over a commit, a restart and a crash
-- (src/pager/wal.rs).
use sql.Common.{
  ℕ, zero, suc, ◌<◌, ◌^◌, ◌≡◌, refl, sym, ap, subst, ◌∙◌, arith, List, [], ◌∷◌, ◌++◌, append_assoc,
  append-nil, some, true, false, All, ℕ_discrete, replicate, length, length-replicate,
  if◌then◌else◌,
}
use sql.Common.Bytes.{Bytes, IsByte}
use sql.Common.Assoc.{lookup, insert, lookup-insert, Distinct}
use sql.Pager.Codec.{page_size}
use sql.Pager.Wal.Frames.{Frame, IsFrame, frame_type_data, frame_type_commit}
use sql.Pager.Wal.Log.{Holds, write_frame-Holds, read_frames-Holds}
use sql.Pager.Wal.Recover.{
  data_frames, commit_frame, txn_frames, Settled, recover-commit, recover-crash, commit-Settled,
}
use sql.Pager.Wal.{
  Wal, Pages, u32_max, frame_of, write_frame, write_data_frames, write_commit_frame, insert_all,
  or_else, next_txn, commit_active, commit, read_page, recover, is_committed, open_wal,
}

-- A page under a 32-bit number.
abbrev pub IsPage : ℕ × Bytes → Type 0
IsPage p = (p.0 < 2 ^ 32) × All IsByte p.1 × (length p.1 ≡ page_size)

pub record Durable (w : Wal) (fs : List Frame) : Type 0 where
  pub holds : Holds w.file w.frame_count fs
  pub settled : Settled fs fs
  pub same : (p : ℕ) → lookup ℕ_discrete p w.committed ≡ lookup ℕ_discrete p (recover fs)

IsByte-replicate : (n : ℕ) → All IsByte (replicate n 0)
IsByte-replicate zero = tt
IsByte-replicate (suc n) = (omega arith, IsByte-replicate n)

pub data-IsFrame :
    (p : ℕ × Bytes) (t : ℕ) → IsPage p → t < 2 ^ 32 → IsFrame (frame_of p.0 frame_type_data t p.1)
unfolding frame_of
data-IsFrame p t h ht = record {
  page_id = h.0;
  frame_type = omega arith;
  txn_id = ht;
  sum = refl;
  bytes = h.1;
  whole = h.2;
}

commit_frame-IsFrame : (t : ℕ) → t < 2 ^ 32 → IsFrame (commit_frame t)
unfolding frame_of
commit_frame-IsFrame t ht = record {
  page_id = omega arith;
  frame_type = omega arith;
  txn_id = ht;
  sum = refl;
  bytes = IsByte-replicate page_size;
  whole = length-replicate {A = ℕ} page_size 0;
}

-- Writing the data frames of a transaction adds exactly those, and leaves the maps alone.
pub write_data_frames-Holds :
    (t : ℕ) (pages : Pages) (w : Wal) (fs : List Frame)
    → Holds w.file w.frame_count fs
    → t < 2 ^ 32
    → All IsPage pages
    → Holds
        (write_data_frames t pages w).file
        (write_data_frames t pages w).frame_count
        (fs ++ data_frames t pages)
unfolding write_data_frames data_frames
write_data_frames-Holds t [] w fs h ht ok = rw append-nil h
write_data_frames-Holds t ((p, c) ∷ pages) w fs h ht ok =
    let f = frame_of p frame_type_data t c in
    let w' = write_frame p frame_type_data t c w in
    let now = write_frame-Holds p frame_type_data t c w fs h (data-IsFrame (p, c) t ok.0 ht) in
    let later = write_data_frames-Holds t pages w' (fs ++ (f ∷ [])) now ht ok.1 in
    rw (append_assoc fs (f ∷ []) (data_frames t pages)) at later

pub committed-write_data_frames :
    (t : ℕ) (pages : Pages) (w : Wal) → (write_data_frames t pages w).committed ≡ w.committed
unfolding write_data_frames write_frame
committed-write_data_frames t [] w = refl
committed-write_data_frames t ((p, c) ∷ pages) w = committed-write_data_frames t pages _

-- The whole transaction in the log.
pub write_txn-Holds :
    (t : ℕ) (pages : Pages) (w : Wal) (fs : List Frame)
    → Holds w.file w.frame_count fs
    → t < 2 ^ 32
    → All IsPage pages
    → Holds
        (write_commit_frame t (write_data_frames t pages w)).file
        (write_commit_frame t (write_data_frames t pages w)).frame_count
        (fs ++ txn_frames t pages)
unfolding write_commit_frame
write_txn-Holds t pages w fs h ht ok =
    let w' = write_data_frames t pages w in
    let all =
      write_frame-Holds u32_max frame_type_commit t (replicate page_size 0) w'
        (fs ++ data_frames t pages) (write_data_frames-Holds t pages w fs h ht ok)
        (commit_frame-IsFrame t ht) in
    rw (append_assoc fs (data_frames t pages) (commit_frame t ∷ [])) at all

pub insert_all-same :
    (pages m n : Pages)
    → ((p : ℕ) → lookup ℕ_discrete p m ≡ lookup ℕ_discrete p n)
    → (p : ℕ) → lookup ℕ_discrete p (insert_all pages m) ≡ lookup ℕ_discrete p (insert_all pages n)
unfolding insert_all
insert_all-same [] m n h = h
insert_all-same ((q, c) ∷ pages) m n h =
    insert_all-same pages _ _
      (λ p. rw (lookup-insert ℕ_discrete q p c m, lookup-insert ℕ_discrete q p c n, h p))

-- The map after a transaction, read at a page.
pub lookup-insert_all :
    (pages m : Pages)
    → Distinct ℕ_discrete pages
    → (p : ℕ)
    → lookup ℕ_discrete p (insert_all pages m)
      ≡ or_else (lookup ℕ_discrete p pages) (lookup ℕ_discrete p m)
unfolding insert_all or_else lookup
lookup-insert_all [] m d p = refl
lookup-insert_all ((q, c) ∷ pages) m d p = ground (
  arith,
  lookup-insert_all pages (insert ℕ_discrete q c m) d.1 p,
  lookup-insert ℕ_discrete q p c m,
)

-- What a transaction has to be for its frames to be whole: 32-bit page numbers, whole pages, and a
-- transaction number that fits.
pub record IsTxn (w : Wal) : Type 0 where
  pub active : w.in_txn ≡ true
  pub pages : All IsPage w.dirty
  pub distinct : Distinct ℕ_discrete w.dirty
  pub number : w.next_txn_id < 2 ^ 32

pub commit_when_active : (w : Wal) → w.in_txn ≡ true → commit w ≡ commit_active w
unfolding commit
commit_when_active w e = ap (λ b. if b then commit_active w else w) e

commit_active-Durable :
    (w : Wal) (fs : List Frame)
    → Durable w fs
    → IsTxn w
    → Durable (commit_active w) (fs ++ txn_frames w.next_txn_id w.dirty)
unfolding commit_active next_txn
commit_active-Durable w fs h t = record {
  holds = write_txn-Holds w.next_txn_id w.dirty (next_txn w) fs h.holds t.number t.pages;
  settled = commit-Settled fs w.next_txn_id w.dirty h.settled;
  same = λ p.
      rw (recover-commit fs w.next_txn_id w.dirty h.settled)
        (insert_all-same w.dirty w.committed (recover fs) h.same p);
}

-- Where log and memory agree and a transaction of whole pages, none twice, is active, commit adds
-- the frames of the transaction to the log, and log and memory agree again.
pub commit-Durable :
    (w : Wal) (fs : List Frame)
    → Durable w fs
    → IsTxn w
    → Durable (commit w) (fs ++ txn_frames w.next_txn_id w.dirty)
commit-Durable w fs h t =
    subst (λ v. Durable v (fs ++ txn_frames w.next_txn_id w.dirty))
      (sym (commit_when_active w t.active)) (commit_active-Durable w fs h t)

-- Where log and memory agree and the log has fewer than 2^32 frames, opening its file succeeds, the
-- opened log agrees with the same frames, and shows the committed pages.
pub open_wal-Durable :
    (w : Wal) (fs : List Frame)
    → Durable w fs
    → w.frame_count < 2 ^ 32
    → (w' : Wal) × (open_wal w.file ≡ some w')
      × Durable w' fs
      × ((p : ℕ) → read_page p w' ≡ lookup ℕ_discrete p w.committed)
unfolding open_wal read_page lookup
open_wal-Durable w fs h small =
    let (count, frames) = read_frames-Holds fs h.holds small in
    (
      record {
        file = w.file;
        frame_count = w.frame_count;
        committed = recover fs;
        dirty = [];
        pre_image = [];
        next_txn_id = 1;
        in_txn = false;
      },
      rw (count, frames),
      record { holds = h.holds; settled = h.settled; same = λ p. refl },
      λ p. sym (h.same p),
    )

pub committed-commit :
    (w : Wal) → w.in_txn ≡ true → (commit w).committed ≡ insert_all w.dirty w.committed
unfolding commit_active
committed-commit w e = ap (λ v. v.committed) (commit_when_active w e)

-- A log whose frames all belong to transactions with a commit frame in it, whose memory shows what
-- those frames say, and which is in a transaction of whole pages, each under a 32-bit number and
-- none twice: after commit, with fewer than 2^32 frames in the log, opening the log's file
-- succeeds, and every page reads in the reopened log as it did in the transaction, whether the
-- transaction wrote it or not.
pub commit_survives :
    (w : Wal) (fs : List Frame)
    → Durable w fs
    → IsTxn w
    → (commit w).frame_count < 2 ^ 32
    → (w' : Wal) × (open_wal (commit w).file ≡ some w') × ((p : ℕ) → read_page p w' ≡ read_page p w)
unfolding read_page
commit_survives w fs h t small =
    let (w', opened, again, reads) =
      open_wal-Durable (commit w) (fs ++ txn_frames w.next_txn_id w.dirty) (commit-Durable w fs h t)
        small in
    (
      w',
      opened,
      λ p.
          reads p
          ∙ rw (committed-commit w t.active) (lookup-insert_all w.dirty w.committed t.distinct p),
    )

-- A log that agrees with its memory and has no commit frame of the next transaction number: when
-- some whole pages have been written as data frames of that transaction and no commit frame, with
-- numbers and frame count below 2^32, opening the file succeeds and every page reads as it was
-- committed before.
pub crash_before_commit :
    (w : Wal) (fs : List Frame) (written : Pages)
    → Durable w fs
    → w.next_txn_id < 2 ^ 32
    → All IsPage written
    → is_committed w.next_txn_id fs ≡ false
    → (write_data_frames w.next_txn_id written (next_txn w)).frame_count < 2 ^ 32
    → (w' : Wal) × (open_wal (write_data_frames w.next_txn_id written (next_txn w)).file ≡ some w')
      × ((p : ℕ) → read_page p w' ≡ lookup ℕ_discrete p w.committed)
unfolding open_wal read_page lookup next_txn
crash_before_commit w fs written h number pages fresh small =
    let crashed = write_data_frames w.next_txn_id written (next_txn w) in
    let holds =
      write_data_frames-Holds w.next_txn_id written (next_txn w) fs h.holds number pages in
    let (count, frames) = read_frames-Holds (fs ++ data_frames w.next_txn_id written) holds small in
    (
      record {
        file = crashed.file;
        frame_count = crashed.frame_count;
        committed = recover (fs ++ data_frames w.next_txn_id written);
        dirty = [];
        pre_image = [];
        next_txn_id = 1;
        in_txn = false;
      },
      rw (count, frames),
      λ p. rw (recover-crash fs w.next_txn_id written fresh) (sym (h.same p)),
    )
