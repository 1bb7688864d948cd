-- ===== src/Common/Bytes.antt =====
-- Byte buffers: little-endian words, slices, and UTF-8. A slice of bytes is a list of numbers below
-- 256; indexing that panics in the source gives `none`.
use Prim.Native.Nat.{ℕ, zero, suc, ◌+◌, ◌-◌, ◌*◌, ◌/◌, ◌%◌, ◌≤◌, ◌<◌, ◌^◌}
use mathlib.Core.Path.{◌≡◌, refl, ap}
use mathlib.Core.Bool.{Bool, true, false, ◌&&◌}
use mathlib.Core.Option.{Option, none, some}
use mathlib.Core.List.{List, [], ◌∷◌, ◌++◌, append_assoc}
use Prim.Native.Char.{code}
use Prim.Native.String.{String}
use native.Mathlib.Omega.{arith}
use sql.Common.Tests.{ltb, leb, ◌==◌, if◌then◌else◌, le→leb, ◌>>=◌}
use sql.Common.Lists.{length, take, drop, All, length-append, drop-append, take-append}

abbrev pub IsByte : ℕ → Type 0
IsByte b = b < 256

abbrev pub Bytes : Type 0
Bytes = List ℕ

-- `v.to_le_bytes()` of a word of `w` bytes, and `from_le_bytes`.
unfoldable pub le_bytes : ℕ → ℕ → Bytes
le_bytes zero v = []
le_bytes (suc w) v = (v % 256) ∷ le_bytes w (v / 256)

unfoldable pub from_le : Bytes → ℕ
from_le [] = 0
from_le (b ∷ bs) = b + 256 * from_le bs

pub length-le_bytes : (w v : ℕ) → length (le_bytes w v) ≡ w
unfolding le_bytes
length-le_bytes zero v = refl
length-le_bytes (suc w) v = ap suc (length-le_bytes w (v / 256))

pub le_bytes-IsByte : (w v : ℕ) → All IsByte (le_bytes w v)
unfolding le_bytes
le_bytes-IsByte zero v = tt
le_bytes-IsByte (suc w) v = (omega arith, le_bytes-IsByte w (v / 256))

-- Four bytes hold a word below 2 ^ 32, and eight a word below 2 ^ 64.
pub from_le-u32 : (v : ℕ) → v < 2 ^ 32 → from_le (le_bytes 4 v) ≡ v
unfolding le_bytes from_le
from_le-u32 v h = omega arith

pub from_le-u64 : (v : ℕ) → v < 2 ^ 64 → from_le (le_bytes 8 v) ≡ v
unfolding le_bytes from_le
from_le-u64 v h = omega arith

-- `&buf[a..]` and `&buf[a..b]`.
unfoldable pub slice_from : Bytes → ℕ → Option Bytes
slice_from buf a = if leb a (length buf) then some (drop a buf) else none

unfoldable pub slice : Bytes → ℕ → ℕ → Option Bytes
slice buf a b = if leb a b && leb b (length buf) then some (take (b - a) (drop a buf)) else none

pub slice_from-append :
    (pre rest : Bytes) (a : ℕ) → a ≡ length pre → slice_from (pre ++ rest) a ≡ some rest
unfolding slice_from
slice_from-append pre rest a e = rw (
  e,
  le→leb (length pre) (length (pre ++ rest)) (omega (arith, length-append pre rest)),
  drop-append pre rest,
)

pub slice-append :
    (pre x rest : Bytes) (a b : ℕ)
    → a ≡ length pre
    → b ≡ length pre + length x
    → slice (pre ++ (x ++ rest)) a b ≡ some x
unfolding slice
slice-append pre x rest a b ea eb =
    let n : length pre + length x - length pre ≡ length x = omega arith in
    let fits : length pre + length x ≤ length (pre ++ (x ++ rest)) =
      omega (arith, length-append pre (x ++ rest), length-append x rest) in
    rw (
      ea,
      eb,
      le→leb (length pre) (length pre + length x) (omega arith),
      le→leb _ _ fits,
      drop-append pre (x ++ rest),
      n,
      take-append x rest,
    )

-- `u32::from_le_bytes(buf[a..a + 4])`, and the eight-byte word.
unfoldable pub read_u32 : Bytes → ℕ → Option ℕ
unfolding slice
read_u32 buf a = do w ← slice buf a (a + 4); some (from_le w)

unfoldable pub read_u64 : Bytes → ℕ → Option ℕ
unfolding slice
read_u64 buf a = do w ← slice buf a (a + 8); some (from_le w)

pub read_u32-append :
    (pre rest : Bytes) (a v : ℕ)
    → a ≡ length pre
    → v < 2 ^ 32
    → read_u32 (pre ++ (le_bytes 4 v ++ rest)) a ≡ some v
unfolding read_u32
read_u32-append pre rest a v e h = rw (
  slice-append pre (le_bytes 4 v) rest a (a + 4) e (omega (arith, length-le_bytes 4 v)),
  from_le-u32 v h,
)

pub read_u64-append :
    (pre rest : Bytes) (a v : ℕ)
    → a ≡ length pre
    → v < 2 ^ 64
    → read_u64 (pre ++ (le_bytes 8 v ++ rest)) a ≡ some v
unfolding read_u64
read_u64-append pre rest a v e h = rw (
  slice-append pre (le_bytes 8 v) rest a (a + 8) e (omega (arith, length-le_bytes 8 v)),
  from_le-u64 v h,
)

-- The next state of UTF-8 validation: the continuation bytes still due, and the bounds of the next.
abbrev Due : Type 0
Due = ℕ × ℕ × ℕ

utf8_lead : ℕ → Option Due
utf8_lead b =
    if ltb b 0x80
    then some (0, 0x80, 0xbf)
    else if leb 0xc2 b && leb b 0xdf
    then some (1, 0x80, 0xbf)
    else if b == 0xe0
    then some (2, 0xa0, 0xbf)
    else if b == 0xed
    then some (2, 0x80, 0x9f)
    else if leb 0xe1 b && leb b 0xef
    then some (2, 0x80, 0xbf)
    else if b == 0xf0
    then some (3, 0x90, 0xbf)
    else if b == 0xf4
    then some (3, 0x80, 0x8f)
    else if leb 0xf1 b && leb b 0xf3
    then some (3, 0x80, 0xbf)
    else none

utf8_next : Due → ℕ → Option Due
utf8_next (zero, lo, hi) b = utf8_lead b
utf8_next (suc n, lo, hi) b = if leb lo b && leb b hi then some (n, 0x80, 0xbf) else none

utf8_run : Option Due → Bytes → Bool
utf8_run none bs = false
utf8_run (some (n, lo, hi)) [] = n == 0
utf8_run (some d) (b ∷ bs) = utf8_run (utf8_next d b) bs

-- `std::str::from_utf8(buf).is_ok()`.
unfoldable pub is_utf8 : Bytes → Bool
unfolding utf8_run utf8_next utf8_lead
is_utf8 = utf8_run (some (0, 0x80, 0xbf))

-- `std::str::from_utf8(buf).unwrap()`. A `String` is the list of its UTF-8 bytes.
unfoldable pub from_utf8 : Bytes → Option Bytes
from_utf8 bs = if is_utf8 bs then some bs else none

-- What the type `String` of the source says: the bytes are UTF-8, and bytes.
pub record IsText (s : Bytes) : Type 0 where
  pub utf8 : is_utf8 s ≡ true
  pub bytes : All IsByte s

pub from_utf8_text : (s : Bytes) → IsText s → from_utf8 s ≡ some s
unfolding from_utf8
from_utf8_text s h = rw h.utf8

-- A length in four bytes, and that many bytes: how the source stores a text or a value.
abbrev pub counted : Bytes → Bytes
counted s = le_bytes 4 (length s % 2 ^ 32) ++ s

pub length-counted : (s : Bytes) → length (counted s) ≡ 4 + length s
length-counted s =
    omega (
      arith,
      length-append (le_bytes 4 (length s % 2 ^ 32)) s,
      length-le_bytes 4 (length s % 2 ^ 32),
    )

pub read_u32-counted :
    (pre s rest : Bytes) (a : ℕ)
    → a ≡ length pre
    → length s < 2 ^ 32
    → read_u32 (pre ++ (counted s ++ rest)) a ≡ some (length s)
read_u32-counted pre s rest a e h =
    let fits : length s % 2 ^ 32 ≡ length s = omega arith in
    rw (fits, append_assoc (le_bytes 4 (length s)) s rest)
      (read_u32-append pre (s ++ rest) a (length s) e h)

pub slice-counted :
    (pre s rest : Bytes) (a b : ℕ)
    → a ≡ length pre + 4
    → b ≡ a + length s
    → slice (pre ++ (counted s ++ rest)) a b ≡ some s
slice-counted pre s rest a b e e' =
    let prefix = le_bytes 4 (length s % 2 ^ 32) in
    let n : length (pre ++ prefix) ≡ length pre + 4 =
      omega (arith, length-append pre prefix, length-le_bytes 4 (length s % 2 ^ 32)) in
    rw (append_assoc prefix s rest, ← append_assoc pre prefix (s ++ rest))
      (slice-append (pre ++ prefix) s rest a b (omega arith) (omega arith))

-- The bytes of a text literal, which the source's literals are in ASCII.
abbrev pub codes : String → Bytes
codes String.[] = []
codes (String.◌∷◌ c s) = code c ∷ codes s
