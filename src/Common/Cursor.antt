-- ===== src/Common/Cursor.antt =====
-- A cursor into a buffer: `At page cur rest` says that `rest` is what stands at `cur`. The decoders
-- of src/pager/codec.rs, src/table/serialize.rs and src/catalog/meta.rs move such a cursor.
use sql.Common.Lists.{length, get_elem?, length-append, get_elem?-append}
use sql.Common.Bytes.{
  Bytes, le_bytes, slice_from, slice, read_u32, read_u64, slice_from-append, slice-append,
  read_u32-append, read_u64-append,
}
use Prim.Native.Nat.{ℕ, ◌+◌, ◌<◌, ◌^◌}
use mathlib.Core.Path.{◌≡◌, refl}
use mathlib.Core.List.{[], ◌∷◌, ◌++◌, append_assoc}
use mathlib.Core.Option.{some}
use native.Mathlib.Omega.{arith}

pub record At (page : Bytes) (cur : ℕ) (rest : Bytes) : Type 0 where
  pub front : Bytes
  pub layout : page ≡ front ++ rest
  pub size : cur ≡ length front

pub At-start : (page : Bytes) → At page 0 page
At-start page = record { front = []; layout = refl; size = refl }

-- The cursor moves over a piece.
pub At-over :
    {page : Bytes} {cur : ℕ} (x rest : Bytes)
    → At page cur (x ++ rest)
    → (n : ℕ) → n ≡ cur + length x
    → At page n rest
At-over x rest a n e = record {
  front = a.front ++ x;
  layout = rw append_assoc a.layout;
  size = omega (arith, a.size, length-append a.front x);
}

pub get_elem?-At :
    {page : Bytes} {cur b : ℕ} {rest : Bytes} → At page cur (b ∷ rest) → get_elem? page cur ≡ some b
get_elem?-At {page} {cur} {b} {rest} a = rw a.layout (get_elem?-append a.front rest b cur a.size)

pub slice_from-At :
    {page : Bytes} {cur : ℕ} {rest : Bytes} → At page cur rest → slice_from page cur ≡ some rest
slice_from-At {page} {cur} {rest} a = rw a.layout (slice_from-append a.front rest cur a.size)

pub slice-At :
    {page : Bytes} {cur : ℕ} (x rest : Bytes) (b : ℕ)
    → At page cur (x ++ rest)
    → b ≡ cur + length x
    → slice page cur b ≡ some x
slice-At {page} {cur} x rest b a e =
    rw a.layout (slice-append a.front x rest cur b a.size (omega (arith, a.size)))

pub read_u32-At :
    {page : Bytes} {cur : ℕ} (v : ℕ) (rest : Bytes)
    → At page cur (le_bytes 4 v ++ rest)
    → v < 2 ^ 32
    → read_u32 page cur ≡ some v
read_u32-At {page} {cur} v rest a h = rw a.layout (read_u32-append a.front rest cur v a.size h)

pub read_u64-At :
    {page : Bytes} {cur : ℕ} (v : ℕ) (rest : Bytes)
    → At page cur (le_bytes 8 v ++ rest)
    → v < 2 ^ 64
    → read_u64 page cur ≡ some v
read_u64-At {page} {cur} v rest a h = rw a.layout (read_u64-append a.front rest cur v a.size h)
