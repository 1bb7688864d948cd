-- ===== src/Pager/Codec.antt =====
-- src/pager/codec.rs: a node as a page of 4096 bytes. A step that panics in the source, such as a
-- slice out of range or text that is not UTF-8, gives `none`.
pub mod Oversize
pub mod Pieces
pub mod RoundTrip
use sql.Common.{
  ℕ, zero, suc, ◌+◌, ◌-◌, ◌%◌, ◌^◌, List, [], ◌∷◌, ◌++◌, Option, none, some, length, get_elem?,
  take, replicate, ◌==◌, if◌then◌else◌, ◌>>=◌,
}
use sql.Common.Int.{i64_bits, i64_of_bits}
use sql.Common.Bytes.{Bytes, le_bytes, slice_from, slice, read_u32, read_u64, from_utf8}
use sql.Btree.Node.{
  NodeType, internal, leaf, Key, integer, text, Record, Node, is_leaf_type, is_leaf,
}

abbrev pub page_size : ℕ
page_size = 4096

abbrev pub none_page : ℕ
none_page = 0xffff_ffff

-- `v as u32`.
abbrev pub as_u32 : ℕ → ℕ
as_u32 v = v % 2 ^ 32

-- The bytes that `encode_key` appends to the buffer.
unfoldable pub encode_key : Key → Bytes
encode_key (integer v) = 0 ∷ le_bytes 8 (i64_bits v)
encode_key (text s) = 1 ∷ (le_bytes 4 (as_u32 (length s)) ++ s)

-- The bytes that `encode_bytes` appends to the buffer.
unfoldable pub encode_bytes : Bytes → Bytes
encode_bytes bytes = le_bytes 4 (as_u32 (length bytes)) ++ bytes

-- The loops over keys, records and children.
unfoldable pub encode_keys : List Key → Bytes
encode_keys [] = []
encode_keys (k ∷ ks) = encode_key k ++ encode_keys ks

unfoldable pub encode_records : List Record → Bytes
encode_records [] = []
encode_records (r ∷ rs) = encode_bytes r.value ++ encode_records rs

unfoldable pub encode_children : List ℕ → Bytes
encode_children [] = []
encode_children (c ∷ cs) = le_bytes 4 (as_u32 c) ++ encode_children cs

unfoldable pub type_tag : NodeType → ℕ
type_tag internal = 0
type_tag leaf = 1

unfoldable pub next_raw : Option ℕ → ℕ
next_raw none = none_page
next_raw (some v) = as_u32 v

unfoldable pub encode_body : NodeType → Node → Bytes
encode_body leaf node = encode_records node.records
encode_body internal node = encode_children node.children

-- The buffer before it is resized.
unfoldable pub node_bytes : Node → Bytes
node_bytes node =
    type_tag node.node_type
    ∷ (le_bytes 4 (as_u32 (length node.keys))
        ++ (le_bytes 4 (next_raw node.next_leaf)
            ++ (encode_keys node.keys ++ encode_body node.node_type node)))

-- `Vec::resize`.
unfoldable pub resize : ℕ → ℕ → Bytes → Bytes
resize n v buf = take n buf ++ replicate (n - length buf) v

unfoldable pub encode_node : Node → Bytes
encode_node node = resize page_size 0 (node_bytes node)

unfoldable pub decode_key : Bytes → Option (Key × ℕ)
decode_key buf = do
  tag ← get_elem? buf 0
  if tag == 0 then (do v ← read_u64 buf 1; some (integer (i64_of_bits v), 9)) else (do
    len ← read_u32 buf 1
    bytes ← slice buf 5 (5 + len)
    s ← from_utf8 bytes
    some (text s, 5 + len))

unfoldable pub decode_bytes : Bytes → Option (Bytes × ℕ)
decode_bytes buf = do len ← read_u32 buf 0; bytes ← slice buf 4 (4 + len); some (bytes, 4 + len)

-- The loops: what is left of the count, the page, and the cursor, which they return moved on.
unfoldable pub decode_keys : ℕ → Bytes → ℕ → Option (List Key × ℕ)
decode_keys zero page cur = some ([], cur)
decode_keys (suc n) page cur = do
  buf ← slice_from page cur
  (key, consumed) ← decode_key buf
  (keys, end) ← decode_keys n page (cur + consumed)
  some (key ∷ keys, end)

unfoldable pub decode_records : List Key → Bytes → ℕ → Option (List Record)
decode_records [] page cur = some []
decode_records (k ∷ keys) page cur = do
  buf ← slice_from page cur
  (value, consumed) ← decode_bytes buf
  records ← decode_records keys page (cur + consumed)
  some (record { key = k; value = value } ∷ records)

unfoldable pub decode_children : ℕ → Bytes → ℕ → Option (List ℕ)
decode_children zero page cur = some []
decode_children (suc n) page cur = do
  child ← read_u32 page cur
  children ← decode_children n page (cur + 4)
  some (child ∷ children)

unfoldable pub decode_body : NodeType → ℕ → List Key → Option ℕ → Bytes → ℕ → Option Node
decode_body leaf key_count keys next_leaf page cur = do
  records ← decode_records keys page cur
  some (record {
    node_type = leaf;
    keys = keys;
    children = [];
    records = records;
    next_leaf = next_leaf;
  })
decode_body internal key_count keys next_leaf page cur = do
  children ← decode_children (key_count + 1) page cur
  some (record {
    node_type = internal;
    keys = keys;
    children = children;
    records = [];
    next_leaf = next_leaf;
  })

unfoldable pub decode_node : Bytes → Option Node
decode_node page = do
  tag ← get_elem? page 0
  key_count ← read_u32 page 1
  next_raw ← read_u32 page 5
  (keys, cur) ← decode_keys key_count page 9
  decode_body (if tag == 0 then internal else leaf) key_count keys
      (if next_raw == none_page then none else some next_raw) page cur
