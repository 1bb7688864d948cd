-- ===== src/Pager/Bloom.antt =====
-- src/pager/cache.rs, `BloomFilter`. Words are 64 bits wide. A filter of no bytes panics on its first
-- key, which `% 0` does not show; in any other, each bit that is touched is in range.
pub mod Membership
use Prim.Native.Nat.{bit_and, bit_or, bit_xor}
use sql.Common.{
  ℕ, zero, suc, ◌*◌, ◌/◌, ◌%◌, ◌^◌, List, [], ◌∷◌, Option, none, some, Bool, true, false, not, ◌&&◌,
  ◌==◌, get_elem?, set, replicate,
}
use sql.Common.Bytes.{Bytes}

pub record BloomFilter : Type 0 where
  pub bits : Bytes
  pub size : ℕ
  pub hashes : ℕ

unfoldable pub new : ℕ → ℕ → BloomFilter
new size hashes = record { bits = replicate size 0; size = size; hashes = hashes }

-- The loop of `hash`: a wrapping product with the FNV prime, and the next byte.
unfoldable pub hash_from : ℕ → Bytes → ℕ
hash_from h [] = h
hash_from h (b ∷ key) = hash_from (bit_xor (h * 1099511628211 % 2 ^ 64) b) key

unfoldable pub hash : BloomFilter → Bytes → ℕ → ℕ
unfolding hash_from
hash f key seed = hash_from (bit_xor 14695981039346656037 seed) key % f.size

-- The bit of the `i`-th hash.
unfoldable pub index : BloomFilter → Bytes → ℕ → ℕ
unfolding hash
index f key i = hash f key i % f.size

abbrev pub byte_at : Option ℕ → ℕ
byte_at none = 0
byte_at (some b) = b

unfoldable pub set_bit : ℕ → Bytes → Bytes
set_bit idx bits = set bits (idx / 8) (bit_or (byte_at (get_elem? bits (idx / 8))) (2 ^ (idx % 8)))

unfoldable pub test_bit : ℕ → Bytes → Bool
test_bit idx bits = not (bit_and (byte_at (get_elem? bits (idx / 8))) (2 ^ (idx % 8)) == 0)

-- The loops over the hashes `0 .. n`. The order in which bits are set or tested does not show.
unfoldable pub insert_hashes : ℕ → BloomFilter → Bytes → Bytes → Bytes
insert_hashes zero f key bits = bits
insert_hashes (suc n) f key bits = set_bit (index f key n) (insert_hashes n f key bits)

unfoldable pub insert : Bytes → BloomFilter → BloomFilter
unfolding insert_hashes
insert key f = record f { bits = insert_hashes f.hashes f key f.bits }

unfoldable pub contains_hashes : ℕ → BloomFilter → Bytes → Bytes → Bool
contains_hashes zero f key bits = true
contains_hashes (suc n) f key bits = contains_hashes n f key bits && test_bit (index f key n) bits

unfoldable pub might_contain : BloomFilter → Bytes → Bool
unfolding contains_hashes
might_contain f key = contains_hashes f.hashes f key f.bits
