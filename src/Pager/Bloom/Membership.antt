-- ===== src/Pager/Bloom/Membership.antt =====
-- Membership in the filter of src/pager/cache.rs, `BloomFilter`.
use Prim.Native.Nat.{bit_and, bit_or}
use sql.Common.{
  ℕ, zero, suc, ◌/◌, ◌%◌, ◌^◌, ◌<◌, ◌≡◌, refl, sym, ap, ◌∙◌, arith, List, [], ◌∷◌, ◌++◌, Bool, true,
  false, not, ◌&&◌, ◌||◌, ◌==◌, ltb, ltb→lt, get_elem?, length, replicate, All, length-set, All-set,
  get_elem?-set_self, get_elem?-set_ne, ℕ_discrete,
}
use sql.Common.Bytes.{Bytes, IsByte}
use sql.Pager.Bloom.{
  BloomFilter, new, hash, index, byte_at, set_bit, test_bit, insert_hashes, insert, contains_hashes,
  might_contain,
}

every : (ℕ → Bool) → ℕ → Bool
every test zero = true
every test (suc bound) = every test bound && test bound

every_below : (test : ℕ → Bool) (bound k : ℕ) → k < bound → every test bound ≡ true → test k ≡ true
unfolding every
every_below test zero k lt h = elim lt [ ]
every_below test (suc bound) k lt h = ground (arith, every_below test bound k)

-- What `|=` with one bit does to a byte: it stays a byte, the bit is set, and set bits stay set.
or_bit : ℕ → ℕ → ℕ → Bool
or_bit i j b =
    ltb (bit_or b (2 ^ i)) 256
    && (not (bit_and (bit_or b (2 ^ i)) (2 ^ i) == 0)
        && (bit_and b (2 ^ j) == 0 || not (bit_and (bit_or b (2 ^ i)) (2 ^ j) == 0)))

or_bit_table : every (λ i. every (λ j. every (or_bit i j) 256) 8) 8 ≡ true
unfolding every or_bit
or_bit_table = refl

or_bit-true : (i j b : ℕ) → i < 8 → j < 8 → b < 256 → or_bit i j b ≡ true
or_bit-true i j b hi hj hb =
    let row = every_below (λ i. every (λ j. every (or_bit i j) 256) 8) 8 i hi or_bit_table in
    every_below (or_bit i j) 256 b hb (every_below (λ j. every (or_bit i j) 256) 8 j hj row)

IsSound : ℕ → Bytes → Type 0
IsSound size bits = (length bits ≡ size) × All IsByte bits

byte_at-IsByte : (bits : Bytes) (n : ℕ) → All IsByte bits → byte_at (get_elem? bits n) < 256
byte_at-IsByte [] n h = omega arith
byte_at-IsByte (b ∷ bits) zero h = h.0
byte_at-IsByte (b ∷ bits) (suc n) h = byte_at-IsByte bits n h.1

abbrev old_byte : ℕ → Bytes → ℕ
old_byte idx bits = byte_at (get_elem? bits (idx / 8))

abbrev new_byte : ℕ → Bytes → ℕ
new_byte idx bits = bit_or (old_byte idx bits) (2 ^ (idx % 8))

or_bit_at :
    (idx j : ℕ) (bits : Bytes)
    → All IsByte bits
    → or_bit (idx % 8) (j % 8) (old_byte idx bits) ≡ true
or_bit_at idx j bits h =
    or_bit-true (idx % 8) (j % 8) (old_byte idx bits) (omega arith) (omega arith)
      (byte_at-IsByte bits (idx / 8) h)

and_left : (a b : Bool) → (a && b) ≡ true → a ≡ true
and_left true b h = refl
and_left false b h = h

and_intro : (a b : Bool) → a ≡ true → b ≡ true → (a && b) ≡ true
and_intro true b h k = k
and_intro false b h k = absurd (ground arith)

and_right : (a b : Bool) → (a && b) ≡ true → b ≡ true
and_right true b h = h
and_right false b h = absurd (ground arith)

or_elim : (a b : Bool) → a ≡ false → (a || b) ≡ true → b ≡ true
or_elim true b e h = absurd (ground arith)
or_elim false b e h = h

not-true : (a : Bool) → not a ≡ true → a ≡ false
not-true true h = absurd (ground arith)
not-true false h = refl

new_byte-IsByte : (idx : ℕ) (bits : Bytes) → All IsByte bits → new_byte idx bits < 256
unfolding or_bit
new_byte-IsByte idx bits h =
    ltb→lt (new_byte idx bits) 256
      (and_left (ltb (new_byte idx bits) 256) _ (or_bit_at idx idx bits h))

-- The bit that is set, and the bits that were set.
new_bit :
    (idx j : ℕ) (bits : Bytes)
    → All IsByte bits
    → (not (bit_and (new_byte idx bits) (2 ^ (idx % 8)) == 0)
        && (bit_and (old_byte idx bits) (2 ^ (j % 8)) == 0
            || not (bit_and (new_byte idx bits) (2 ^ (j % 8)) == 0)))
      ≡ true
unfolding or_bit
new_bit idx j bits h = and_right (ltb (new_byte idx bits) 256) _ (or_bit_at idx j bits h)

set_bit-IsSound :
    (idx size : ℕ) (bits : Bytes) → IsSound size bits → IsSound size (set_bit idx bits)
unfolding set_bit IsSound
set_bit-IsSound idx size bits h = (
  length-set bits (idx / 8) (new_byte idx bits) ∙ h.0,
  All-set IsByte bits (idx / 8) (new_byte idx bits) h.1 (new_byte-IsByte idx bits h.1),
)

byte-set_bit :
    (idx j : ℕ) (bits : Bytes)
    → idx < length bits
    → j / 8 ≡ idx / 8
    → old_byte j (set_bit idx bits) ≡ new_byte idx bits
unfolding set_bit
byte-set_bit idx j bits h e =
    rw (e, get_elem?-set_self bits (idx / 8) (new_byte idx bits) (omega arith)) refl

test_bit-set_bit_self :
    (idx size : ℕ) (bits : Bytes)
    → IsSound size bits
    → idx < size
    → test_bit idx (set_bit idx bits) ≡ true
unfolding test_bit IsSound
test_bit-set_bit_self idx size bits h lt =
    rw (byte-set_bit idx idx bits (omega (arith, h.0)) refl) (
      and_left (not (bit_and (new_byte idx bits) (2 ^ (idx % 8)) == 0)) _
        (new_bit idx idx bits h.1))

test_bit-set_bit :
    (idx j size : ℕ) (bits : Bytes)
    → IsSound size bits
    → idx < size
    → test_bit j bits ≡ true
    → test_bit j (set_bit idx bits) ≡ true
unfolding test_bit IsSound set_bit
test_bit-set_bit idx j size bits h lt t = elim (ℕ_discrete (j / 8) (idx / 8)) [
  | yes e ↦ rw (byte-set_bit idx j bits (omega (arith, h.0)) e) (
      or_elim (bit_and (old_byte idx bits) (2 ^ (j % 8)) == 0) _
        (not-true (bit_and (old_byte idx bits) (2 ^ (j % 8)) == 0) (rw (sym e) t))
        (and_right (not (bit_and (new_byte idx bits) (2 ^ (idx % 8)) == 0)) _
          (new_bit idx j bits h.1)))
  | no ne ↦ rw (get_elem?-set_ne bits (idx / 8) (j / 8) (new_byte idx bits) (λ q. ne (sym q))) t
]

index-lt : (f : BloomFilter) (key : Bytes) (i : ℕ) → 0 < f.size → index f key i < f.size
unfolding index
index-lt f key i h = omega arith

insert_hashes-IsSound :
    (n : ℕ) (f : BloomFilter) (key bits : Bytes)
    → IsSound f.size bits
    → IsSound f.size (insert_hashes n f key bits)
unfolding insert_hashes
insert_hashes-IsSound zero f key bits h = h
insert_hashes-IsSound (suc n) f key bits h =
    set_bit-IsSound (index f key n) f.size (insert_hashes n f key bits)
      (insert_hashes-IsSound n f key bits h)

-- Setting bits loses no key, whichever key they are set for.
contains-set_bit :
    (n : ℕ) (f : BloomFilter) (key bits : Bytes) (idx : ℕ)
    → IsSound f.size bits
    → idx < f.size
    → contains_hashes n f key bits ≡ true
    → contains_hashes n f key (set_bit idx bits) ≡ true
unfolding contains_hashes
contains-set_bit zero f key bits idx h lt t = refl
contains-set_bit (suc n) f key bits idx h lt t =
    and_intro (contains_hashes n f key (set_bit idx bits)) _
      (contains-set_bit n f key bits idx h lt (and_left (contains_hashes n f key bits) _ t))
      (test_bit-set_bit idx (index f key n) f.size bits h lt
        (and_right (contains_hashes n f key bits) _ t))

contains-insert_hashes :
    (n m : ℕ) (f : BloomFilter) (key j bits : Bytes)
    → IsSound f.size bits
    → 0 < f.size
    → contains_hashes m f key bits ≡ true
    → contains_hashes m f key (insert_hashes n f j bits) ≡ true
unfolding insert_hashes
contains-insert_hashes zero m f key j bits h pos t = t
contains-insert_hashes (suc n) m f key j bits h pos t =
    contains-set_bit m f key (insert_hashes n f j bits) (index f j n)
      (insert_hashes-IsSound n f j bits h) (index-lt f j n pos)
      (contains-insert_hashes n m f key j bits h pos t)

contains-insert_self :
    (n : ℕ) (f : BloomFilter) (key bits : Bytes)
    → IsSound f.size bits
    → 0 < f.size
    → contains_hashes n f key (insert_hashes n f key bits) ≡ true
unfolding insert_hashes contains_hashes
contains-insert_self zero f key bits h pos = refl
contains-insert_self (suc n) f key bits h pos =
    let before = insert_hashes n f key bits in
    let idx = index f key n in
    let sound = insert_hashes-IsSound n f key bits h in
    and_intro (contains_hashes n f key (set_bit idx before)) _
      (contains-set_bit n f key before idx sound (index-lt f key n pos)
        (contains-insert_self n f key bits h pos))
      (test_bit-set_bit_self idx f.size before sound (index-lt f key n pos))

-- The filters that a run of the program reaches: a new one and the keys inserted, last one first.
unfoldable pub filled : ℕ → ℕ → List Bytes → BloomFilter
filled size hashes [] = new size hashes
filled size hashes (k ∷ ks) = insert k (filled size hashes ks)

filled_size : (size hashes : ℕ) (ks : List Bytes) → (filled size hashes ks).size ≡ size
unfolding filled new insert
filled_size size hashes [] = refl
filled_size size hashes (k ∷ ks) = filled_size size hashes ks

replicate-IsSound : (n : ℕ) → IsSound n (replicate n 0)
unfolding IsSound
replicate-IsSound zero = (refl, tt)
replicate-IsSound (suc n) = let h = replicate-IsSound n in (ap suc h.0, (omega arith, h.1))

filled-IsSound :
    (size hashes : ℕ) (ks : List Bytes)
    → IsSound (filled size hashes ks).size (filled size hashes ks).bits
unfolding filled new insert
filled-IsSound size hashes [] = replicate-IsSound size
filled-IsSound size hashes (k ∷ ks) =
    insert_hashes-IsSound (filled size hashes ks).hashes (filled size hashes ks) k
      (filled size hashes ks).bits (filled-IsSound size hashes ks)

index_other_bits :
    (f : BloomFilter) (other key : Bytes) (i : ℕ)
    → index (record f { bits = other }) key i ≡ index f key i
unfolding index hash
index_other_bits f other key i = refl

contains_other_bits :
    (n : ℕ) (f : BloomFilter) (other key bits : Bytes)
    → contains_hashes n (record f { bits = other }) key bits ≡ contains_hashes n f key bits
unfolding contains_hashes
contains_other_bits zero f other key bits = refl
contains_other_bits (suc n) f other key bits =
    rw (contains_other_bits n f other key bits, index_other_bits f other key n) refl

-- The filter has no false negatives: in a filter of at least one byte that is new but for the keys
-- inserted into it, each of those keys is found, however many keys went in before and after it.
pub might_contain-filled :
    (size hashes : ℕ) (before after : List Bytes) (key : Bytes)
    → 0 < size
    → might_contain (filled size hashes (after ++ (key ∷ before))) key ≡ true
unfolding filled might_contain insert
might_contain-filled size hashes before [] key pos =
    let f = filled size hashes before in
    contains_other_bits f.hashes f (insert_hashes f.hashes f key f.bits) key
      (insert_hashes f.hashes f key f.bits)
    ∙ contains-insert_self f.hashes f key f.bits (filled-IsSound size hashes before)
        (omega (arith, filled_size size hashes before))
might_contain-filled size hashes before (k ∷ after) key pos =
    let f = filled size hashes (after ++ (key ∷ before)) in
    contains_other_bits f.hashes f (insert_hashes f.hashes f k f.bits) key
      (insert_hashes f.hashes f k f.bits)
    ∙ contains-insert_hashes f.hashes f.hashes f key k f.bits
        (filled-IsSound size hashes (after ++ (key ∷ before)))
        (omega (arith, filled_size size hashes (after ++ (key ∷ before))))
        (might_contain-filled size hashes before after key pos)
