-- ===== src/Pager/Codec/Oversize.antt =====
-- A leaf that does not fit its page (src/pager/codec.rs, `encode_node`).
use mathlib.Core.Bool.{and-false}
use native.Mathlib.Nat.{zero-add}
use sql.Common.{
  ℕ, suc, ◌+◌, ◌-◌, ◌%◌, ◌≤◌, ◌<◌, ◌^◌, ◌≡◌, refl, sym, ap, arith, List, [], ◌∷◌, ◌++◌,
  append_assoc, append-nil, none, Option, length, take, length-append, length-take, All, leb-false,
}
use sql.Common.Bytes.{Bytes, le_bytes, length-le_bytes, slice_from-append, slice, read_u32-append}
use sql.Btree.Node.{Key, Record, Node, leaf}
use sql.Pager.Codec.{
  page_size, encode_body, encode_bytes, encode_keys, encode_records, node_bytes, resize,
  encode_node, decode_bytes, decode_records, decode_body, decode_node,
}
use sql.Pager.Codec.Pieces.{IsKey}
use sql.Pager.Codec.RoundTrip.{decode_node_upto, IsNext, header, length-header, node_bytes-header}

take-append-ge {ℓ} :
    {A : Type ℓ} (xs ys : List A) (n m : ℕ)
    → n ≡ length xs + m
    → take n (xs ++ ys) ≡ xs ++ take m ys
take-append-ge [] ys n m e = rw (e, zero-add)
take-append-ge (x ∷ xs) ys n m e =
    let n' : n ≡ suc (length xs + m) = omega arith in
    rw n' (ap (◌∷◌ x) (take-append-ge xs ys (length xs + m) m refl))

-- The first record starts on the page, and its value does not end on it.
pub record RunsOver (keys : List Key) (value : Bytes) : Type 0 where
  pub starts : 13 + length (encode_keys keys) ≤ page_size
  pub ends : page_size < 13 + length (encode_keys keys) + length value
  pub short : length value < 2 ^ 32

module _ (k : Key) (ks : List Key) (r : Record) (rs : List Record) (next : Option ℕ) where
  abbrev pub keys : List Key
  keys = k ∷ ks

  -- The leaf, and the leaf without its records.
  abbrev pub full_leaf : Node
  full_leaf = record {
    node_type = leaf;
    keys = keys;
    children = [];
    records = r ∷ rs;
    next_leaf = next;
  }

  abbrev bare_leaf : Node
  bare_leaf = record {
    node_type = leaf;
    keys = keys;
    children = [];
    records = [];
    next_leaf = next;
  }

  -- What the page holds of the records.
  abbrev cut : Bytes
  cut =
      le_bytes 4 (length r.value % 2 ^ 32)
      ++ take (page_size - (13 + length (encode_keys keys))) (r.value ++ encode_records rs)

  full_leaf_bytes :
      node_bytes full_leaf
      ≡ (node_bytes bare_leaf ++ le_bytes 4 (length r.value % 2 ^ 32))
        ++ (r.value ++ encode_records rs)
  unfolding node_bytes encode_body encode_records encode_bytes
  full_leaf_bytes = simp (append_assoc, append-nil)

  length-bare_leaf : length (node_bytes bare_leaf) ≡ 9 + length (encode_keys keys)
  unfolding encode_body encode_records
  length-bare_leaf = omega (
    arith,
    ap length (node_bytes-header bare_leaf),
    length-header bare_leaf,
    length-append (header bare_leaf) (encode_keys keys ++ []),
    length-append (encode_keys keys) [],
  )

  cut_page : RunsOver keys r.value → encode_node full_leaf ≡ node_bytes bare_leaf ++ cut
  unfolding encode_node resize
  cut_page h =
      let front : Bytes = node_bytes bare_leaf ++ le_bytes 4 (length r.value % 2 ^ 32) in
      let back : Bytes = r.value ++ encode_records rs in
      let room = page_size - (13 + length (encode_keys keys)) in
      let size : length front ≡ 13 + length (encode_keys keys) = omega (
        arith,
        length-bare_leaf,
        length-append (node_bytes bare_leaf) (le_bytes 4 (length r.value % 2 ^ 32)),
        length-le_bytes 4 (length r.value % 2 ^ 32),
      ) in
      let over : page_size - length (front ++ back) ≡ 0 =
        omega
          (arith, h.ends, length-append front back, length-append r.value (encode_records rs)) in
      let full : page_size ≡ length front + room = omega (arith, h.starts) in
      rw (full_leaf_bytes, over, take-append-ge front back page_size room full)
        (simp (append-nil, append_assoc))

  -- The value's length is read, and the slice of that length runs over the page.
  decode_bytes-cut : RunsOver keys r.value → decode_bytes cut ≡ none
  unfolding decode_bytes slice
  decode_bytes-cut h =
      let small : length r.value % 2 ^ 32 ≡ length r.value = omega (arith, h.short) in
      let room = page_size - (13 + length (encode_keys keys)) in
      let back : Bytes = take room (r.value ++ encode_records rs) in
      let short : length (le_bytes 4 (length r.value) ++ back) < 4 + length r.value = omega (
        arith,
        h.ends,
        h.starts,
        length-append (le_bytes 4 (length r.value)) back,
        length-le_bytes 4 (length r.value),
        length-take room (r.value ++ encode_records rs),
      ) in
      rw (
        small,
        read_u32-append [] back 0 (length r.value) refl h.short,
        leb-false (4 + length r.value) (length (le_bytes 4 (length r.value) ++ back)) short,
        and-false,
      )

  -- A leaf of valid keys whose first record starts on its page and ends past it is written without
  -- an error, and reading its page back panics.
  pub decode_node-full_leaf :
      All IsKey keys
      → IsNext next
      → length keys < 2 ^ 32
      → RunsOver keys r.value
      → decode_node (encode_node full_leaf) ≡ none
  unfolding decode_body decode_records
  decode_node-full_leaf valid n count h = rw (
    cut_page h,
    decode_node_upto bare_leaf cut valid n count,
    slice_from-append (node_bytes bare_leaf) cut (9 + length (encode_keys keys))
        (sym length-bare_leaf),
    decode_bytes-cut h,
  )
