-- ===== src/Pager/Wal/Session.antt =====
-- The other operations of the log (src/pager/wal.rs), and transaction numbers after a restart.
use sql.Common.{
  ap, Bool, true, ℕ, ◌≡◌, refl, sym, subst, ◌∙◌, List, [], ◌∷◌, ◌++◌, some, none, arith, false,
  ℕ_discrete, All, ◌<◌, ◌^◌,
}
use sql.Common.Bytes.{Bytes, le_bytes}
use sql.Common.Assoc.{lookup, insert, Distinct}
use sql.Pager.Wal.{
  Wal, Pages, wal_header, write_wal_header, create_wal, or_else, insert_all, begin, next_txn,
  write_data_frames, write_frame, write_commit_frame, auto_commit, write_page, commit_active,
  commit, rollback, hand_over, truncated, checkpoint, read_page, recover, apply_frames, open_wal,
}
use sql.Pager.Wal.File.{write_at}
use sql.Pager.Wal.Frames.{Frame}
use sql.Pager.Wal.Log.{Holds, read_frames-Holds, frames_bytes, Holds-cut}
use sql.Pager.Wal.Recover.{
  txn_frames, recover_orphans, data_frames, Settled, recover-commit, commit-Settled,
}
use sql.Pager.Wal.ReadWrite.{write_page_auto}
use sql.Pager.Wal.Durable.{
  Durable, IsPage, IsTxn, open_wal-Durable, write_txn-Holds, insert_all-same, lookup-insert_all,
  commit_when_active,
}

new_log : write_wal_header 0 [] ≡ wal_header 0 ++ frames_bytes []
unfolding write_wal_header write_at wal_header le_bytes frames_bytes
new_log = refl

-- A new log agrees with its empty memory.
pub create_wal-Durable : Durable create_wal []
unfolding create_wal recover apply_frames
create_wal-Durable = record {
  holds = record { layout = new_log; counted = refl; valid = tt };
  settled = tt;
  same = λ p. refl;
}

-- Beginning a transaction changes neither the log nor the committed pages.
pub begin-Durable : (w : Wal) (fs : List Frame) → Durable w fs → Durable (begin w) fs
unfolding begin
begin-Durable w fs h = record { holds = h.holds; settled = h.settled; same = h.same }

auto_commit-Durable :
    (k : ℕ) (v : Bytes) (w : Wal) (fs : List Frame)
    → Durable w fs
    → IsPage (k, v)
    → w.next_txn_id < 2 ^ 32
    → Durable (auto_commit k v w) (fs ++ txn_frames w.next_txn_id ((k, v) ∷ []))
unfolding auto_commit next_txn write_data_frames insert_all write_commit_frame write_frame
auto_commit-Durable k v w fs h page number = record {
  holds =
      write_txn-Holds w.next_txn_id ((k, v) ∷ [])
        (next_txn (record w { committed = insert ℕ_discrete k v w.committed })) fs h.holds number
        (page, tt);
  settled = commit-Settled fs w.next_txn_id ((k, v) ∷ []) h.settled;
  same = λ p.
      rw (recover-commit fs w.next_txn_id ((k, v) ∷ []) h.settled)
        (insert_all-same ((k, v) ∷ []) w.committed (recover fs) h.same p);
}

truncated-Durable : (w : Wal) (fs : List Frame) → Durable w fs → Durable (truncated w) []
unfolding truncated recover apply_frames
truncated-Durable w fs h = record {
  holds = Holds-cut w.file w.frame_count fs h.holds;
  settled = tt;
  same = λ p. refl;
}

-- A main file that is a map of pages, and takes each of them.
abbrev pub store_page : ℕ → Bytes → Pages → Pages × Bool
store_page page_id content m = (insert ℕ_discrete page_id content m, true)

hand_over-all : (pages m : Pages) → hand_over store_page pages m ≡ (insert_all pages m, true)
unfolding hand_over insert_all
hand_over-all [] m = refl
hand_over-all ((page_id, content) ∷ pages) m =
    hand_over-all pages (insert ℕ_discrete page_id content m)

-- An error of `write_back` leaves the log as it is.
checkpoint-error :
    {M : Type 0} (write_back : ℕ → Bytes → M → M × Bool) (m : M) (w : Wal)
    → (checkpoint write_back m w).0.1 ≡ false
    → (checkpoint write_back m w).1 ≡ w
unfolding checkpoint
checkpoint-error write_back m w e = rw e refl

-- Where the log has fewer than 2^32 frames, all of transactions with a commit frame in it, and
-- memory shows what they say, no page twice: a checkpoint into a main file that takes every page
-- leaves each page in that file as opening the log's file before it would show it, and a page that
-- the log does not show as it was; opening the log's file after it succeeds and shows no page; and
-- memory and the empty log agree again.
pub checkpoint_reopens :
    (w : Wal) (fs : List Frame) (main : Pages)
    → Durable w fs
    → Distinct ℕ_discrete w.committed
    → w.frame_count < 2 ^ 32
    → (main' : Pages) × ((w' : Wal) × ((before : Wal) × ((after : Wal) × ((checkpoint store_page
                  main w
                ≡ ((main', true), w'))
              × (open_wal w.file ≡ some before)
              × (open_wal w'.file ≡ some after)
              × ((p : ℕ)
                  → lookup ℕ_discrete p main'
                    ≡ or_else (read_page p before) (lookup ℕ_discrete p main))
              × ((p : ℕ) → read_page p after ≡ none)
              × Durable w' []))))
unfolding checkpoint truncated lookup
checkpoint_reopens w fs main h distinct small =
    let (before, opened, _, reads) = open_wal-Durable w fs h small in
    let emptied = truncated-Durable w fs h in
    let (after, reopened, _, rereads) = open_wal-Durable (truncated w) [] emptied (omega arith) in
    (
      insert_all w.committed main,
      (
        truncated w,
        (
          before,
          (
            after,
            (
              rw (hand_over-all w.committed main) refl,
              opened,
              reopened,
              λ p.
                  lookup-insert_all w.committed main distinct p
                  ∙ ap (λ o. or_else o (lookup ℕ_discrete p main)) (sym (reads p)),
              rereads,
              emptied,
            ),
          ),
        ),
      ),
    )

-- A rollback whose saved originals are the committed pages keeps the agreement.
pub rollback-Durable :
    (w : Wal) (fs : List Frame)
    → Durable w fs
    → Distinct ℕ_discrete w.pre_image
    → ((p : ℕ)
        → or_else (lookup ℕ_discrete p w.pre_image) (lookup ℕ_discrete p w.committed)
          ≡ lookup ℕ_discrete p w.committed)
    → Durable (rollback w) fs
unfolding rollback
rollback-Durable w fs h d agree = record {
  holds = h.holds;
  settled = h.settled;
  same = λ p. lookup-insert_all w.pre_image w.committed d p ∙ agree p ∙ h.same p;
}

-- Where log and memory agree and no transaction is active, writing a whole page under 32-bit
-- numbers is logged as a transaction of its own, and log and memory agree again.
pub write_page-Durable :
    (k : ℕ) (v : Bytes) (w : Wal) (fs : List Frame)
    → Durable w fs
    → w.in_txn ≡ false
    → IsPage (k, v)
    → w.next_txn_id < 2 ^ 32
    → Durable (write_page k v w) (fs ++ txn_frames w.next_txn_id ((k, v) ∷ []))
write_page-Durable k v w fs h idle page number =
    subst (λ u. Durable u (fs ++ txn_frames w.next_txn_id ((k, v) ∷ [])))
      (sym (write_page_auto k v w idle)) (auto_commit-Durable k v w fs h page number)

commit-Holds :
    (w : Wal) (fs : List Frame)
    → Holds w.file w.frame_count fs
    → IsTxn w
    → Holds (commit w).file (commit w).frame_count (fs ++ txn_frames w.next_txn_id w.dirty)
unfolding commit_active next_txn
commit-Holds w fs h t =
    subst (λ v. Holds v.file v.frame_count (fs ++ txn_frames w.next_txn_id w.dirty))
      (sym (commit_when_active w t.active))
      (write_txn-Holds w.next_txn_id w.dirty (next_txn w) fs h t.number t.pages)

-- Suppose that behind settled frames the log holds data frames of a transaction that has no commit
-- frame, as a crash leaves them, each of a whole page and none twice, and that an active
-- transaction of the same number commits, with fewer than 2^32 frames in the log. Then the file
-- opens, and a page reads as the committed transaction wrote it, or else as the lost one wrote it,
-- or else as before.
pub orphan_comes_back :
    (w : Wal) (fs : List Frame) (lost : Pages) (p : ℕ)
    → Settled fs fs
    → Holds w.file w.frame_count (fs ++ data_frames w.next_txn_id lost)
    → IsTxn w
    → All IsPage lost
    → Distinct ℕ_discrete lost
    → (commit w).frame_count < 2 ^ 32
    → (w' : Wal) × (open_wal (commit w).file ≡ some w')
      × (read_page p w'
          ≡ or_else
              (lookup ℕ_discrete p w.dirty)
              (or_else (lookup ℕ_discrete p lost) (lookup ℕ_discrete p (recover fs))))
unfolding open_wal read_page lookup
orphan_comes_back w fs lost p settled holds t pages distinct small =
    let id = w.next_txn_id in
    let frames = (fs ++ data_frames id lost) ++ txn_frames id w.dirty in
    let (count, read) =
      read_frames-Holds frames (commit-Holds w (fs ++ data_frames id lost) holds t) small in
    (
      record {
        file = (commit w).file;
        frame_count = (commit w).frame_count;
        committed = recover frames;
        dirty = [];
        pre_image = [];
        next_txn_id = 1;
        in_txn = false;
      },
      rw (count, read),
      rw (
        recover_orphans fs id lost w.dirty settled,
        lookup-insert_all w.dirty (insert_all lost (recover fs)) t.distinct p,
        lookup-insert_all lost (recover fs) distinct p,
      ),
    )
