-- ===== src/Pager/Wal/Log.antt =====
-- What the log file holds: a header with the number of frames, and the frames one behind the other
-- (src/pager/wal.rs, `write_frame` and `replay`).
use sql.Common.{
  ℕ, ◌+◌, ◌-◌, ◌*◌, ◌%◌, ◌<◌, ◌^◌, ◌≡◌, refl, ap, arith, List, [], ◌∷◌, ◌++◌, append-nil,
  append_assoc, some, length, replicate, length-append, length-replicate, All, All-append, if_pos,
}
use sql.Common.Bytes.{
  Bytes, le_bytes, length-le_bytes, slice, slice-append, read_u32, read_u32-append,
}
use sql.Table.Schema.{Bytes-discrete}
use sql.Pager.Codec.{page_size}
use sql.Pager.Wal.File.{set_len, write_at, read_at, set_len-longer, set_len-shorter, write_at-over}
use sql.Pager.Wal.Frames.{Frame, IsFrame, frame_size, encode, decode-encode, length-encode}
use sql.Pager.Wal.{
  Wal, wal_magic, wal_header, wal_header_size, write_wal_header, read_wal_frame_count, frame_of,
  write_frame, read_frames,
}

unfoldable pub frames_bytes : List Frame → Bytes
frames_bytes [] = []
frames_bytes (f ∷ fs) = encode f ++ frames_bytes fs

-- The file holds exactly these frames, each written from a whole page.
pub record Holds (file : Bytes) (frame_count : ℕ) (frames : List Frame) : Type 0 where
  pub layout : file ≡ wal_header frame_count ++ frames_bytes frames
  pub counted : frame_count ≡ length frames
  pub valid : All IsFrame frames

pub length-wal_header : (n : ℕ) → length (wal_header n) ≡ wal_header_size
unfolding wal_header
length-wal_header n = omega (
  arith,
  length-append (le_bytes 4 (n % 2 ^ 32)) (replicate 12 0),
  length-append (le_bytes 4 page_size) (le_bytes 4 (n % 2 ^ 32) ++ replicate 12 0),
  length-append (le_bytes 4 1)
      (le_bytes 4 page_size ++ (le_bytes 4 (n % 2 ^ 32) ++ replicate 12 0)),
  length-le_bytes 4 1,
  length-le_bytes 4 page_size,
  length-le_bytes 4 (n % 2 ^ 32),
)

frames_bytes-append :
    (fs gs : List Frame) → frames_bytes (fs ++ gs) ≡ frames_bytes fs ++ frames_bytes gs
unfolding frames_bytes
frames_bytes-append [] gs = refl
frames_bytes-append (f ∷ fs) gs = rw (frames_bytes-append fs gs, append_assoc)

length-frames_bytes :
    (fs : List Frame) → All IsFrame fs → length (frames_bytes fs) ≡ length fs * frame_size
unfolding frames_bytes
length-frames_bytes [] h = omega arith
length-frames_bytes (f ∷ fs) h = omega (
  arith,
  length-append (encode f) (frames_bytes fs),
  length-encode f h.0,
  length-frames_bytes fs h.1,
)

-- The number of bytes of a log.
size_of_log :
    {file : Bytes} {n : ℕ} (fs : List Frame)
    → Holds file n fs
    → length file ≡ wal_header_size + n * frame_size
size_of_log {file} {n} fs h = omega (
  arith,
  ap length h.layout,
  length-append (wal_header n) (frames_bytes fs),
  length-wal_header n,
  length-frames_bytes fs h.valid,
  ap (λ (k : ℕ). k * frame_size) h.counted,
)

-- A new header over the old one.
header_over :
    (n m : ℕ) (rest : Bytes) → write_wal_header m (wal_header n ++ rest) ≡ wal_header m ++ rest
unfolding write_wal_header
header_over n m rest =
    write_at-over [] (wal_header n) rest (wal_header m) 0 refl
      (omega (arith, length-wal_header n, length-wal_header m))

append_frame :
    (file : Bytes) (n : ℕ) (fs : List Frame) (f : Frame)
    → Holds file n fs
    → IsFrame f
    → Holds
        (write_wal_header (n + 1) (
          write_at
            (wal_header_size + n * frame_size)
            (encode f)
            (set_len (wal_header_size + (n + 1) * frame_size) file)))
        (n + 1)
        (fs ++ (f ∷ []))
unfolding frames_bytes
append_frame file n fs f h ok =
    let size = size_of_log fs h in
    let end = wal_header_size + n * frame_size in
    let room = wal_header_size + (n + 1) * frame_size - length file in
    let grown =
      set_len-longer file (wal_header_size + (n + 1) * frame_size) (omega (arith, size)) in
    let written =
      write_at-over file (replicate room 0) [] (encode f) end (omega (arith, size))
        (omega (arith, size, length-encode f ok, length-replicate {A = ℕ} room 0)) in
    let placed : write_at end (encode f) (file ++ replicate room 0) ≡ file ++ encode f =
      simp append-nil at written in
    record {
      layout = rw (
        grown,
        placed,
        h.layout,
        append_assoc (wal_header n) (frames_bytes fs) (encode f),
        header_over n (n + 1) (frames_bytes fs ++ encode f),
        frames_bytes-append fs (f ∷ []),
        append-nil,
      );
      counted = omega (arith, h.counted, length-append fs (f ∷ []));
      valid = All-append IsFrame fs (f ∷ []) h.valid (ok, tt);
    }

-- Where a file holds exactly some frames behind its header, write_frame of a whole page adds its
-- frame at the end, and counts it in memory and in the header.
pub write_frame-Holds :
    (page_id frame_type txn_id : ℕ) (content : Bytes) (w : Wal) (fs : List Frame)
    → Holds w.file w.frame_count fs
    → IsFrame (frame_of page_id frame_type txn_id content)
    → Holds
        (write_frame page_id frame_type txn_id content w).file
        (write_frame page_id frame_type txn_id content w).frame_count
        (fs ++ (frame_of page_id frame_type txn_id content ∷ []))
unfolding write_frame
write_frame-Holds page_id frame_type txn_id content w fs h ok =
    append_frame w.file w.frame_count fs (frame_of page_id frame_type txn_id content) h ok

-- The loop of `replay` over frames that stand on the file, from the `i`-th on.
read_frames_at :
    (gs : List Frame) (front rest : Bytes) (i : ℕ)
    → All IsFrame gs
    → wal_header_size + i * frame_size ≡ length front
    → read_frames (length gs) i (front ++ (frames_bytes gs ++ rest)) ≡ gs
unfolding read_frames frames_bytes read_at
read_frames_at [] front rest i h e = refl
read_frames_at (g ∷ gs) front rest i h e =
    let tail = frames_bytes gs ++ rest in
    let n = length-encode g h.0 in
    let found : slice (front ++ (encode g ++ tail)) (wal_header_size + i * frame_size)
          (wal_header_size + i * frame_size + frame_size)
        ≡ some (encode g) =
      slice-append front (encode g) tail _ _ e (omega (arith, n, e)) in
    let later =
      read_frames_at gs (front ++ encode g) rest (i + 1) h.1
        (omega (arith, n, e, length-append front (encode g))) in
    rw (append_assoc (encode g) (frames_bytes gs) rest, found, decode-encode g h.0, read_frames)
      (ap (◌∷◌ g) (
        rw (append_assoc (encode g) (frames_bytes gs) rest, ← append_assoc front (encode g) tail)
          later))

header_magic : (n : ℕ) → slice (wal_header n) 0 8 ≡ some wal_magic
unfolding wal_header
header_magic n =
    slice-append [] wal_magic
      (le_bytes 4 1 ++ (le_bytes 4 page_size ++ (le_bytes 4 (n % 2 ^ 32) ++ replicate 12 0))) 0 8
      refl refl

header_count : (n : ℕ) → n < 2 ^ 32 → read_u32 (wal_header n) 16 ≡ some n
unfolding wal_header le_bytes
header_count n h =
    let fits : n % 2 ^ 32 ≡ n = omega arith in
    rw fits (
      read_u32-append (wal_magic ++ (le_bytes 4 1 ++ le_bytes 4 page_size)) (replicate 12 0) 16 n
        refl h)

-- The header gives the number of frames back.
read_wal_frame_count-header :
    (n : ℕ) (rest : Bytes) → n < 2 ^ 32 → read_wal_frame_count (wal_header n ++ rest) ≡ some n
unfolding read_wal_frame_count read_at
read_wal_frame_count-header n rest h = rw (
  slice-append [] (wal_header n) rest 0 wal_header_size refl (omega (arith, length-wal_header n)),
  header_magic n,
  if_pos (Bytes-discrete wal_magic wal_magic) refl,
  header_count n h,
)

-- Where a file holds exactly some frames behind its header, fewer than 2^32, their number and all
-- of them in order are read back from the file.
pub read_frames-Holds :
    {file : Bytes} {n : ℕ} (fs : List Frame)
    → Holds file n fs
    → n < 2 ^ 32
    → (read_wal_frame_count file ≡ some n) × (read_frames n 0 file ≡ fs)
read_frames-Holds {file} {n} fs h small = (
  rw h.layout (read_wal_frame_count-header n (frames_bytes fs) small),
  rw (h.layout, h.counted, ← append-nil (frames_bytes fs))
      (read_frames_at fs (wal_header (length fs)) [] 0 h.valid
        (omega (arith, length-wal_header (length fs)))),
)

-- Cutting the log back leaves a log with no frames.
pub Holds-cut :
    (file : Bytes) (n : ℕ) (fs : List Frame)
    → Holds file n fs
    → Holds (write_wal_header 0 (set_len wal_header_size file)) 0 []
unfolding frames_bytes
Holds-cut file n fs h = record {
  layout =
      rw
        (
          h.layout,
          set_len-shorter (wal_header n) (frames_bytes fs) wal_header_size
              (omega (arith, length-wal_header n)),
          ← append-nil (wal_header n),
        )
        (header_over n 0 []);
  counted = refl;
  valid = tt;
}
