-- ===== src/Tests/Log.antt =====
-- A new log, and one transaction of one page.
use sql.Common.{
  ℕ, zero, suc, ◌^◌, ◌<◌, ◌≡◌, refl, arith, [], ◌∷◌, some, none, true, replicate, All,
  length-replicate, ℕ_discrete,
}
use sql.Common.Bytes.{Bytes, IsByte}
use sql.Common.Assoc.{lookup, insert}
use sql.Pager.Codec.{page_size}
use sql.Pager.Wal.Frames.{IsFrame, frame_type_data}
use sql.Pager.Wal.Log.{Holds}
use sql.Pager.Wal.Recover.{data_frames, txn_frames}
use sql.Pager.Wal.{
  Wal, Pages, frame_of, or_else, write_frame, write_data_frames, write_commit_frame, insert_all,
  next_txn, commit, commit_active, read_page, recover, is_committed, read_wal_frame_count,
  read_frames, open_wal, hand_over, checkpoint, create_wal, rollback, write_page,
}
use sql.Pager.Wal
use sql.Pager.Wal.Durable.{
  IsPage, Durable, IsTxn, commit-Durable, commit_survives, crash_before_commit, data-IsFrame,
  write_data_frames-Holds,
}
use sql.Pager.Wal.ReadWrite.{read_page-commit, read_page-rollback}
use sql.Pager.Wal.Session.{create_wal-Durable, store_page, checkpoint_reopens, orphan_comes_back}

abbrev page : Bytes
page = replicate page_size 7

all_sevens : (n : ℕ) → All IsByte (replicate n 7)
all_sevens zero = tt
all_sevens (suc n) = (omega arith, all_sevens n)

page-IsPage : IsPage (5, page)
page-IsPage = (omega arith, all_sevens page_size, length-replicate {A = ℕ} page_size 7)

-- A new log in a transaction that has written page 5.
abbrev begun : Wal
begun = Wal.begin create_wal

abbrev wrote : Wal
wrote = record begun { dirty = (5, page) ∷ [] }

wrote-IsTxn : IsTxn wrote
unfolding lookup create_wal Wal.begin
wrote-IsTxn = record {
  active = refl;
  pages = (page-IsPage, tt);
  distinct = (refl, tt);
  number = omega arith;
}

wrote-Durable : Durable wrote []
unfolding Wal.begin
wrote-Durable = record {
  holds = create_wal-Durable.holds;
  settled = tt;
  same = create_wal-Durable.same;
}

wrote-committed : Durable (commit wrote) (txn_frames 1 ((5, page) ∷ []))
unfolding Wal.begin create_wal
wrote-committed = commit-Durable wrote [] wrote-Durable wrote-IsTxn

two_frames : (commit wrote).frame_count < 2 ^ 32
unfolding commit commit_active write_commit_frame write_frame write_data_frames next_txn create_wal
    Wal.begin
two_frames = omega arith

commit_survives_example :
    (w' : Wal) × (open_wal (commit wrote).file ≡ some w')
    × ((p : ℕ) → read_page p w' ≡ read_page p wrote)
commit_survives_example = commit_survives wrote [] wrote-Durable wrote-IsTxn two_frames

crash_before_commit_example :
    (w' : Wal) × (open_wal
        (write_data_frames wrote.next_txn_id ((5, page) ∷ []) (next_txn wrote)).file
      ≡ some w')
    × ((p : ℕ) → read_page p w' ≡ lookup ℕ_discrete p wrote.committed)
unfolding create_wal Wal.begin is_committed write_data_frames write_frame next_txn
crash_before_commit_example =
    crash_before_commit wrote [] ((5, page) ∷ []) wrote-Durable (omega arith) (page-IsPage, tt) refl
      (omega arith)

read_page-commit_example : read_page 5 (commit wrote) ≡ read_page 5 wrote
unfolding Wal.begin lookup
read_page-commit_example = read_page-commit wrote 5 refl (refl, tt)

abbrev saved : Wal
saved = record wrote { pre_image = (5, 1 ∷ []) ∷ [] }

read_page-rollback_example :
    read_page 5 (rollback saved)
    ≡ or_else (lookup ℕ_discrete 5 saved.pre_image) (lookup ℕ_discrete 5 saved.committed)
unfolding lookup
read_page-rollback_example = read_page-rollback saved 5 (refl, tt)

checkpoint_reopens_example :
    (main' : Pages) × ((w' : Wal) × ((before : Wal) × ((after : Wal) × ((checkpoint store_page
                ((1, []) ∷ [])
                (commit wrote)
              ≡ ((main', true), w'))
            × (open_wal (commit wrote).file ≡ some before)
            × (open_wal w'.file ≡ some after)
            × ((p : ℕ)
                → lookup ℕ_discrete p main'
                  ≡ or_else (read_page p before) (lookup ℕ_discrete p ((1, []) ∷ [])))
            × ((p : ℕ) → read_page p after ≡ none)
            × Durable w' []))))
unfolding commit commit_active write_commit_frame write_frame write_data_frames next_txn create_wal
    Wal.begin insert_all insert lookup
checkpoint_reopens_example =
    checkpoint_reopens (commit wrote) (txn_frames 1 ((5, page) ∷ [])) ((1, []) ∷ []) wrote-committed
      (refl, tt) two_frames

-- The page that the transaction wrote is handed over.
handed_over_test : lookup ℕ_discrete 5 (checkpoint store_page [] (commit wrote)).0.0 ≡ some page
unfolding lookup checkpoint hand_over commit commit_active write_commit_frame write_frame
    write_data_frames next_txn create_wal Wal.begin insert_all insert ℕ_discrete
handed_over_test = refl

page-IsFrame : IsFrame (frame_of 5 frame_type_data 1 page)
page-IsFrame = data-IsFrame (5, page) 1 page-IsPage (omega arith)

-- The log after a crash in the first transaction, which was to write page 6, with page 5 written in
-- the next session.
abbrev crashed : Wal
crashed = write_data_frames 1 ((6, page) ∷ []) create_wal

abbrev reopened : Wal
reopened = record crashed { dirty = (5, page) ∷ []; in_txn = true }

six-IsPage : IsPage (6, page)
six-IsPage = (omega arith, all_sevens page_size, length-replicate {A = ℕ} page_size 7)

crashed-Holds : Holds crashed.file crashed.frame_count (data_frames 1 ((6, page) ∷ []))
crashed-Holds =
    write_data_frames-Holds 1 ((6, page) ∷ []) create_wal [] create_wal-Durable.holds (omega arith)
      (six-IsPage, tt)

reopened-IsTxn : IsTxn reopened
unfolding lookup create_wal write_data_frames write_frame
reopened-IsTxn = record {
  active = refl;
  pages = (page-IsPage, tt);
  distinct = (refl, tt);
  number = omega arith;
}

orphan_comes_back_example :
    (w' : Wal) × (open_wal (commit reopened).file ≡ some w')
    × (read_page 6 w'
        ≡ or_else
            (lookup ℕ_discrete 6 reopened.dirty)
            (or_else (lookup ℕ_discrete 6 ((6, page) ∷ [])) (lookup ℕ_discrete 6 (recover []))))
unfolding lookup create_wal commit commit_active write_commit_frame write_frame write_data_frames
    next_txn
orphan_comes_back_example =
    orphan_comes_back reopened [] ((6, page) ∷ []) 6 tt crashed-Holds reopened-IsTxn
      (six-IsPage, tt) (refl, tt) (omega arith)
