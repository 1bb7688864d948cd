-- ===== src/Pager/Wal.antt =====
-- src/pager/wal.rs: the write-ahead log. The log file is a list of bytes and the operations of the
-- operating system succeed; a map is an association list whose order stands for the order in which
-- the source iterates. `next_txn_id` wraps as an unchecked `u32` does.
pub mod File
pub mod Frames
pub mod Log
pub mod Recover
pub mod Durable
pub mod ReadWrite
pub mod Session
use sql.Common.{
  ℕ, zero, suc, ◌+◌, ◌*◌, ◌%◌, ◌^◌, List, [], ◌∷◌, ◌++◌, Option, none, some, Bool, true, false,
  ◌&&◌, ◌||◌, leb, ◌==◌, if◌then◌else◌, ◌>>=◌, ite, ℕ_discrete, replicate,
}
use sql.Common.Bytes.{Bytes, le_bytes, read_u32, codes}
use sql.Common.Assoc.{lookup, insert}
use sql.Table.Schema.{Bytes-discrete}
use sql.Pager.Codec.{page_size}
use sql.Pager.Wal.File.{set_len, write_at, read_at}
use sql.Pager.Wal.Frames.{
  Frame, frame_size, frame_type_data, frame_type_commit, compute_checksum, encode, decode,
}

abbrev pub wal_header_size : ℕ
wal_header_size = 32

abbrev pub checkpoint_threshold : ℕ
checkpoint_threshold = 100

-- `u32::MAX`, the page id of a commit frame.
abbrev pub u32_max : ℕ
u32_max = 0xffff_ffff

abbrev pub wal_magic : Bytes
wal_magic = codes "SQL4WAL" ++ (0 ∷ [])

-- The header that `write_wal_header` builds.
unfoldable pub wal_header : ℕ → Bytes
wal_header frame_count =
    wal_magic
    ++ (le_bytes 4 1
        ++ (le_bytes 4 page_size ++ (le_bytes 4 (frame_count % 2 ^ 32) ++ replicate 12 0)))

unfoldable pub write_wal_header : ℕ → Bytes → Bytes
write_wal_header frame_count file = write_at 0 (wal_header frame_count) file

-- `none` is the error of a file that is too short for a header.
unfoldable pub read_wal_frame_count : Bytes → Option ℕ
read_wal_frame_count file = do
  hdr ← read_at 0 wal_header_size file
  magic ← read_at 0 8 hdr
  ite (Bytes-discrete magic wal_magic) (read_u32 hdr 16) (some 0)

abbrev pub Pages : Type 0
Pages = List (ℕ × Bytes)

pub record Wal : Type 0 where
  pub file : Bytes
  pub frame_count : ℕ
  pub committed : Pages
  pub dirty : Pages
  pub pre_image : Pages
  pub next_txn_id : ℕ
  pub in_txn : Bool

unfoldable pub frame_of : ℕ → ℕ → ℕ → Bytes → Frame
frame_of page_id frame_type txn_id content = record {
  page_id = page_id;
  frame_type = frame_type;
  txn_id = txn_id;
  checksum = compute_checksum content;
  content = content;
}

unfoldable pub write_frame : ℕ → ℕ → ℕ → Bytes → Wal → Wal
write_frame page_id frame_type txn_id content w =
    let encoded = encode (frame_of page_id frame_type txn_id content) in
    let grown = set_len (wal_header_size + (w.frame_count + 1) * frame_size) w.file in
    let written = write_at (wal_header_size + w.frame_count * frame_size) encoded grown in
    record w {
      file = write_wal_header (w.frame_count + 1) written;
      frame_count = w.frame_count + 1;
    }

unfoldable pub write_data_frames : ℕ → Pages → Wal → Wal
write_data_frames txn_id [] w = w
write_data_frames txn_id ((page_id, content) ∷ pages) w =
    write_data_frames txn_id pages (write_frame page_id frame_type_data txn_id content w)

unfoldable pub write_commit_frame : ℕ → Wal → Wal
write_commit_frame txn_id w = write_frame u32_max frame_type_commit txn_id (replicate page_size 0) w

-- `committed.insert` for each page of a map that is drained.
unfoldable pub insert_all : Pages → Pages → Pages
insert_all [] m = m
insert_all ((page_id, content) ∷ pages) m = insert_all pages (insert ℕ_discrete page_id content m)

unfoldable pub begin : Wal → Wal
begin w = record w { dirty = []; pre_image = []; in_txn = true }

unfoldable pub next_txn : Wal → Wal
next_txn w = record w { next_txn_id = (w.next_txn_id + 1) % 2 ^ 32 }

-- `commit` behind its early return.
unfoldable pub commit_active : Wal → Wal
commit_active w =
    let logged =
      write_commit_frame w.next_txn_id (write_data_frames w.next_txn_id w.dirty (next_txn w)) in
    record logged { committed = insert_all w.dirty w.committed; dirty = []; in_txn = false }

unfoldable pub commit : Wal → Wal
commit w = if w.in_txn then commit_active w else w

unfoldable pub rollback : Wal → Wal
rollback w = record w {
  committed = insert_all w.pre_image w.committed;
  pre_image = [];
  dirty = [];
  in_txn = false;
}

-- `entry(page_id).or_insert(original_data)`.
unfoldable pub or_insert : ℕ → Bytes → Pages → Pages
or_insert page_id content m = elim (lookup ℕ_discrete page_id m) [
  | none ↦ insert ℕ_discrete page_id content m
  | some _ ↦ m
]

unfoldable pub save_original : ℕ → Bytes → Wal → Wal
unfolding or_insert
save_original page_id original w =
    if w.in_txn then record w { pre_image = or_insert page_id original w.pre_image } else w

unfoldable pub get_original : ℕ → Wal → Option Bytes
get_original page_id w = lookup ℕ_discrete page_id w.pre_image

-- `self.dirty.get(&page_id).or_else(|| self.committed.get(&page_id))`.
unfoldable pub or_else : Option Bytes → Option Bytes → Option Bytes
or_else (some v) o = some v
or_else none o = o

unfoldable pub get_committed_copy : ℕ → Wal → Option Bytes
unfolding or_else
get_committed_copy page_id w =
    or_else (lookup ℕ_discrete page_id w.dirty) (lookup ℕ_discrete page_id w.committed)

unfoldable pub read_page : ℕ → Wal → Option Bytes
unfolding or_else
read_page page_id w =
    or_else (lookup ℕ_discrete page_id w.dirty) (lookup ℕ_discrete page_id w.committed)

-- The branch of `write_page` outside a transaction.
unfoldable pub auto_commit : ℕ → Bytes → Wal → Wal
auto_commit page_id content w =
    let stored = record w { committed = insert ℕ_discrete page_id content w.committed } in
    write_commit_frame w.next_txn_id
      (write_frame page_id frame_type_data w.next_txn_id content (next_txn stored))

unfoldable pub write_page : ℕ → Bytes → Wal → Wal
write_page page_id content w =
    if w.in_txn
    then record w { dirty = insert ℕ_discrete page_id content w.dirty }
    else auto_commit page_id content w

-- The auto-commit loop of `write_batch` keeps the map and the log in step, page by page.
unfoldable pub store_pages : ℕ → Pages → Wal → Wal
store_pages txn_id [] w = w
store_pages txn_id ((page_id, content) ∷ pages) w = store_pages txn_id pages (
    write_frame page_id frame_type_data txn_id content
      (record w { committed = insert ℕ_discrete page_id content w.committed }))

unfoldable pub write_batch : Pages → Wal → Wal
write_batch pages w =
    if w.in_txn
    then record w { dirty = insert_all pages w.dirty }
    else write_commit_frame w.next_txn_id (store_pages w.next_txn_id pages (next_txn w))

unfoldable pub frame_total : Wal → ℕ
frame_total w = w.frame_count

unfoldable pub is_in_txn : Wal → Bool
is_in_txn w = w.in_txn

unfoldable pub needs_checkpoint : Wal → Bool
needs_checkpoint w = leb checkpoint_threshold w.frame_count

-- The loop that hands the pages to `write_back`, which answers with the main file and whether it
-- succeeded; the first error ends it.
unfoldable pub hand_over : {M : Type 0} → (ℕ → Bytes → M → M × Bool) → Pages → M → M × Bool
hand_over write_back [] m = (m, true)
hand_over write_back ((page_id, content) ∷ pages) m =
    let (m', fine) = write_back page_id content m in
    elim fine [ true ↦ hand_over write_back pages m' | false ↦ (m', false) ]

-- The log cut back to its header.
unfoldable pub truncated : Wal → Wal
truncated w = record w {
  file = write_wal_header 0 (set_len wal_header_size w.file);
  frame_count = 0;
  committed = [];
}

-- The main file with the answer, and the log.
unfoldable pub checkpoint : {M : Type 0} → (ℕ → Bytes → M → M × Bool) → M → Wal → (M × Bool) × Wal
unfolding hand_over truncated
checkpoint write_back m w =
    let (m', fine) = hand_over write_back w.committed m in
    ((m', fine), if fine then truncated w else w)

-- The loop over the frames of a log: it ends at the first that the file does not hold, and passes
-- over one that does not decode.
unfoldable pub read_frames : ℕ → ℕ → Bytes → List Frame
read_frames zero i file = []
read_frames (suc n) i file =
    let rest = read_frames n (i + 1) file in
    elim (read_at (wal_header_size + i * frame_size) frame_size file) [
      | none ↦ []
      | some buf ↦ elim (decode buf) [ none ↦ rest | some f ↦ f ∷ rest ]
    ]

-- `committed_txns.contains(&txn_id)`.
unfoldable pub is_committed : ℕ → List Frame → Bool
is_committed txn_id [] = false
is_committed txn_id (f ∷ fs) =
    (f.frame_type == frame_type_commit && f.txn_id == txn_id) || is_committed txn_id fs

-- The second loop of `replay`: the data frames of the transactions that `known` has a commit for.
unfoldable pub apply_frames : List Frame → List Frame → Pages → Pages
apply_frames known [] m = m
apply_frames known (f ∷ fs) m = apply_frames known fs (
    if f.frame_type == frame_type_data && is_committed f.txn_id known
    then insert ℕ_discrete f.page_id f.content m
    else m)

unfoldable pub recover : List Frame → Pages
recover frames = apply_frames frames frames []

-- `Wal::open` and `replay` on the file that is there; `none` is an I/O error.
unfoldable pub open_wal : Bytes → Option Wal
open_wal file = do
  frame_count ← read_wal_frame_count file
  some (record {
    file = file;
    frame_count = frame_count;
    committed = recover (read_frames frame_count 0 file);
    dirty = [];
    pre_image = [];
    next_txn_id = 1;
    in_txn = false;
  })

-- `Wal::open` where there is no file yet.
unfoldable pub create_wal : Wal
create_wal = record {
  file = write_wal_header 0 [];
  frame_count = 0;
  committed = [];
  dirty = [];
  pre_image = [];
  next_txn_id = 1;
  in_txn = false;
}
