-- ===== src/Pager/Wal/File.antt =====
-- The file operations of src/pager/wal.rs on a file that is a list of bytes: `set_len`, a write and
-- a read at an offset.
use sql.Common.{
  ℕ, ◌+◌, ◌-◌, ◌≤◌, ◌≡◌, arith, ◌++◌, append-nil, append_assoc, Option, length, take, drop,
  replicate, length-append, take_of_length-le, take-append, drop-append,
}
use sql.Common.Bytes.{Bytes, slice}

-- `file.set_len(n)`: cut off, or filled up with zeros.
unfoldable pub set_len : ℕ → Bytes → Bytes
set_len n file = take n file ++ replicate (n - length file) 0

-- `file.seek(SeekFrom::Start(off))` and `file.write_all(data)`: a gap is filled up with zeros.
unfoldable pub write_at : ℕ → Bytes → Bytes → Bytes
unfolding set_len
write_at off bytes file = set_len off file ++ (bytes ++ drop (off + length bytes) file)

-- `seek` and `read_exact` of `n` bytes; `none` where the file ends too early.
unfoldable pub read_at : ℕ → ℕ → Bytes → Option Bytes
read_at off n file = slice file off (off + n)

pub set_len-shorter :
    (file rest : Bytes) (n : ℕ) → n ≡ length file → set_len n (file ++ rest) ≡ file
unfolding set_len
set_len-shorter file rest n e =
    let none_over : length file - length (file ++ rest) ≡ 0 =
      omega (arith, length-append file rest) in
    rw (e, none_over, take-append file rest, append-nil)

pub set_len-longer :
    (file : Bytes) (n : ℕ)
    → length file ≤ n
    → set_len n file ≡ file ++ replicate (n - length file) 0
unfolding set_len
set_len-longer file n h = rw (take_of_length-le n file h)

-- A write at the end of what stands before it, over as many bytes as it has.
pub write_at-over :
    (front old rest bytes : Bytes) (off : ℕ)
    → off ≡ length front
    → length bytes ≡ length old
    → write_at off bytes (front ++ (old ++ rest)) ≡ front ++ (bytes ++ rest)
unfolding write_at
write_at-over front old rest bytes off e n =
    let past : off + length bytes ≡ length (front ++ old) =
      omega (arith, length-append front old) in
    rw (
      set_len-shorter front (old ++ rest) off e,
      past,
      ← append_assoc front old rest,
      drop-append (front ++ old) rest,
    )
