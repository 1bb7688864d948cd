-- ===== src/Pager/Wal/Recover.antt =====
-- What `replay` makes of the frames of a log (src/pager/wal.rs).
use sql.Common.{
  ℕ, ◌≡◌, refl, arith, List, [], ◌∷◌, ◌++◌, append_assoc, true, false, ◌||◌, ==_refl, All,
  All-append, replicate,
}
use sql.Pager.Codec.{page_size}
use sql.Pager.Wal.Frames.{Frame, frame_type_data, frame_type_commit}
use sql.Pager.Wal.{Pages, u32_max, frame_of, insert_all, is_committed, apply_frames, recover}

-- The frames that a transaction writes.
unfoldable pub data_frames : ℕ → Pages → List Frame
data_frames t [] = []
data_frames t ((page_id, content) ∷ pages) =
    frame_of page_id frame_type_data t content ∷ data_frames t pages

abbrev pub commit_frame : ℕ → Frame
commit_frame t = frame_of u32_max frame_type_commit t (replicate page_size 0)

-- No frame belongs to a transaction without a commit frame.
abbrev pub Settled : List Frame → List Frame → Type 0
Settled known fs = All (λ f. is_committed f.txn_id known ≡ true) fs

is_committed-append :
    (t : ℕ) (fs gs : List Frame)
    → is_committed t (fs ++ gs) ≡ (is_committed t fs || is_committed t gs)
unfolding is_committed
is_committed-append t [] gs = refl
is_committed-append t (f ∷ fs) gs = ground (arith, is_committed-append t fs gs)

data_frames-uncommitted : (t u : ℕ) (pages : Pages) → is_committed u (data_frames t pages) ≡ false
unfolding is_committed data_frames frame_of
data_frames-uncommitted t u [] = refl
data_frames-uncommitted t u ((p, c) ∷ pages) = data_frames-uncommitted t u pages

data_frames-append :
    (t : ℕ) (xs ys : Pages) → data_frames t (xs ++ ys) ≡ data_frames t xs ++ data_frames t ys
unfolding data_frames
data_frames-append t [] ys = refl
data_frames-append t ((p, c) ∷ xs) ys = rw (data_frames-append t xs ys)

apply_frames-append :
    (known fs gs : List Frame) (m : Pages)
    → apply_frames known (fs ++ gs) m ≡ apply_frames known gs (apply_frames known fs m)
unfolding apply_frames
apply_frames-append known [] gs m = refl
apply_frames-append known (f ∷ fs) gs m = apply_frames-append known fs gs _

-- Only the answers about the transactions of the frames matter.
apply_frames_same :
    (known more fs : List Frame) (m : Pages)
    → All (λ f. is_committed f.txn_id more ≡ is_committed f.txn_id known) fs
    → apply_frames more fs m ≡ apply_frames known fs m
unfolding apply_frames
apply_frames_same known more [] m h = refl
apply_frames_same known more (f ∷ fs) m h =
    rw (h.0, apply_frames) (apply_frames_same known more fs _ h.1)

apply-data_frames :
    (known : List Frame) (t : ℕ) (pages : Pages) (m : Pages)
    → is_committed t known ≡ true
    → apply_frames known (data_frames t pages) m ≡ insert_all pages m
unfolding apply_frames data_frames frame_of insert_all
apply-data_frames known t [] m h = refl
apply-data_frames known t ((p, c) ∷ pages) m h =
    rw (h, apply_frames) (apply-data_frames known t pages _ h)

apply-data_frames_uncommitted :
    (known : List Frame) (t : ℕ) (pages : Pages) (m : Pages)
    → is_committed t known ≡ false
    → apply_frames known (data_frames t pages) m ≡ m
unfolding apply_frames data_frames frame_of
apply-data_frames_uncommitted known t [] m h = refl
apply-data_frames_uncommitted known t ((p, c) ∷ pages) m h =
    rw (h, apply_frames) (apply-data_frames_uncommitted known t pages m h)

-- The answers for a settled log stay when frames are added.
Settled-answers :
    (known gs fs : List Frame)
    → Settled known fs
    → All (λ f. is_committed f.txn_id (known ++ gs) ≡ is_committed f.txn_id known) fs
Settled-answers known gs [] h = tt
Settled-answers known gs (f ∷ fs) h =
    (rw (is_committed-append f.txn_id known gs, h.0), Settled-answers known gs fs h.1)

-- So do the answers for any log when data frames alone are added.
data_answers :
    (known fs : List Frame) (t : ℕ) (pages : Pages)
    → All
        (λ f. is_committed f.txn_id (known ++ data_frames t pages) ≡ is_committed f.txn_id known)
        fs
data_answers known [] t pages = tt
data_answers known (f ∷ fs) t pages = (
  rw
      (
        is_committed-append f.txn_id known (data_frames t pages),
        data_frames-uncommitted t f.txn_id pages,
      )
      (ground arith),
  data_answers known fs t pages,
)

-- The frames of a whole transaction.
abbrev pub txn_frames : ℕ → Pages → List Frame
txn_frames t pages = data_frames t pages ++ (commit_frame t ∷ [])

is_committed-txn_frames : (t : ℕ) (pages : Pages) → is_committed t (txn_frames t pages) ≡ true
unfolding is_committed frame_of
is_committed-txn_frames t pages = rw (
  is_committed-append t (data_frames t pages) (commit_frame t ∷ []),
  data_frames-uncommitted t t pages,
  ==_refl t,
)

committed_after :
    (t : ℕ) (fs : List Frame) (pages : Pages) → is_committed t (fs ++ txn_frames t pages) ≡ true
committed_after t fs pages =
    rw (is_committed-append t fs (txn_frames t pages), is_committed-txn_frames t pages)
      (ground arith)

-- A whole transaction behind a settled log: its pages replace those that were there.
pub recover-commit :
    (fs : List Frame) (t : ℕ) (pages : Pages)
    → Settled fs fs
    → recover (fs ++ txn_frames t pages) ≡ insert_all pages (recover fs)
unfolding recover apply_frames frame_of
recover-commit fs t pages h =
    let known = fs ++ txn_frames t pages in
    rw (
      apply_frames-append known fs (txn_frames t pages) [],
      apply_frames_same fs known fs [] (Settled-answers fs (txn_frames t pages) fs h),
      apply_frames-append known (data_frames t pages) (commit_frame t ∷ []) (apply_frames fs fs []),
      apply-data_frames known t pages (apply_frames fs fs []) (committed_after t fs pages),
    )

-- Data frames without a commit frame, as a crash leaves them: nothing changes.
pub recover-crash :
    (fs : List Frame) (t : ℕ) (pages : Pages)
    → is_committed t fs ≡ false
    → recover (fs ++ data_frames t pages) ≡ recover fs
unfolding recover
recover-crash fs t pages h =
    let known = fs ++ data_frames t pages in
    let none_of_t : is_committed t known ≡ false =
      rw (is_committed-append t fs (data_frames t pages), h, data_frames-uncommitted t t pages) in
    rw (
      apply_frames-append known fs (data_frames t pages) [],
      apply_frames_same fs known fs [] (data_answers fs fs t pages),
      apply-data_frames_uncommitted known t pages (apply_frames fs fs []) none_of_t,
    )

Settled-more : (known gs fs : List Frame) → Settled known fs → Settled (known ++ gs) fs
Settled-more known gs [] h = tt
Settled-more known gs (f ∷ fs) h =
    (rw (is_committed-append f.txn_id known gs, h.0), Settled-more known gs fs h.1)

data_frames-Settled :
    (known : List Frame) (t : ℕ) (pages : Pages)
    → is_committed t known ≡ true
    → Settled known (data_frames t pages)
unfolding data_frames frame_of
data_frames-Settled known t [] h = tt
data_frames-Settled known t ((p, c) ∷ pages) h = (h, data_frames-Settled known t pages h)

-- A settled log stays settled when a whole transaction is added.
pub commit-Settled :
    (fs : List Frame) (t : ℕ) (pages : Pages)
    → Settled fs fs
    → Settled (fs ++ txn_frames t pages) (fs ++ txn_frames t pages)
unfolding frame_of
commit-Settled fs t pages h =
    let known = fs ++ txn_frames t pages in
    let now : is_committed t known ≡ true = committed_after t fs pages in
    All-append (λ f. is_committed f.txn_id known ≡ true) fs (txn_frames t pages)
      (Settled-more fs (txn_frames t pages) fs h)
      (All-append (λ f. is_committed f.txn_id known ≡ true) (data_frames t pages)
        (commit_frame t ∷ []) (data_frames-Settled known t pages now) (now, tt))

insert_all-append : (xs ys m : Pages) → insert_all (xs ++ ys) m ≡ insert_all ys (insert_all xs m)
unfolding insert_all
insert_all-append [] ys m = refl
insert_all-append ((p, c) ∷ xs) ys m = insert_all-append xs ys _

-- Data frames that a crash has left are counted in with a later transaction of the same number.
pub recover_orphans :
    (fs : List Frame) (t : ℕ) (lost pages : Pages)
    → Settled fs fs
    → recover ((fs ++ data_frames t lost) ++ txn_frames t pages)
      ≡ insert_all pages (insert_all lost (recover fs))
recover_orphans fs t lost pages h = rw (
  append_assoc fs (data_frames t lost) (txn_frames t pages),
  ← append_assoc (data_frames t lost) (data_frames t pages) (commit_frame t ∷ []),
  ← data_frames-append t lost pages,
  recover-commit fs t (lost ++ pages) h,
  insert_all-append lost pages (recover fs),
)
