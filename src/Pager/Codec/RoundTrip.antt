-- ===== src/Pager/Codec/RoundTrip.antt =====
-- Nodes written to a page and read back (src/pager/codec.rs).
use sql.Common.{
  ℕ, ◌+◌, ◌-◌, ◌≤◌, ◌<◌, ◌^◌, ◌≡◌, refl, sym, ap, subst, arith, List, [], ◌∷◌, ◌++◌, append_assoc,
  none, some, Option, length, take, replicate, get_elem?, length-append, length-take,
  length-replicate, take_of_length-le, All, map, ◌%◌, if◌then◌else◌, ◌==◌,
}
use sql.Common.Bytes.{Bytes, le_bytes, length-le_bytes, read_u32, read_u32-append}
use sql.Btree.Node.{Key, integer, text, Node, NodeType, internal, leaf}
use sql.Pager.Codec.{
  page_size, none_page, as_u32, type_tag, next_raw, encode_body, encode_key, encode_keys,
  encode_records, encode_children, node_bytes, resize, encode_node, decode_keys, decode_records,
  decode_children, decode_body, decode_node,
}
use sql.Pager.Codec.Pieces.{
  IsKey, decode_keys-encode_keys, decode_records-encode_records, decode_children-encode_children,
}

-- A next leaf that is told apart from `None` on the page.
abbrev pub IsNext : Option ℕ → Type 0
IsNext none = Unit
IsNext (some v) = v < none_page

-- A leaf pairs its keys with its records; an internal node has a child more than keys.
abbrev pub HasShape : NodeType → Node → Type 0
HasShape leaf node =
    (map (λ r. r.key) node.records ≡ node.keys)
    × (node.children ≡ [])
    × All (λ r. length r.value < 2 ^ 32) node.records
HasShape internal node =
    (length node.children ≡ length node.keys + 1)
    × (node.records ≡ [])
    × All (λ c. c < 2 ^ 32) node.children

pub record IsStorable (node : Node) : Type 0 where
  pub fits : length (node_bytes node) ≤ page_size
  pub keys : All IsKey node.keys
  pub next : IsNext node.next_leaf
  pub shape : HasShape node.node_type node

-- Every encoded node has the length of a page, whatever the node.
pub length-encode_node : (node : Node) → length (encode_node node) ≡ page_size
unfolding encode_node resize
length-encode_node node = omega (
  arith,
  length-append (take page_size (node_bytes node))
      (replicate (page_size - length (node_bytes node)) 0),
  length-take page_size (node_bytes node),
  length-replicate {A = ℕ} (page_size - length (node_bytes node)) 0,
)

encode_node_padded :
    (node : Node)
    → length (node_bytes node) ≤ page_size
    → encode_node node ≡ node_bytes node ++ replicate (page_size - length (node_bytes node)) 0
unfolding encode_node resize
encode_node_padded node h = rw (take_of_length-le page_size (node_bytes node) h)

-- What stands on the page before the keys.
unfoldable pub header : Node → Bytes
header node =
    type_tag node.node_type
    ∷ (le_bytes 4 (as_u32 (length node.keys)) ++ le_bytes 4 (next_raw node.next_leaf))

pub length-header : (node : Node) → length (header node) ≡ 9
unfolding header
length-header node = omega (
  arith,
  length-append (le_bytes 4 (as_u32 (length node.keys))) (le_bytes 4 (next_raw node.next_leaf)),
  length-le_bytes 4 (as_u32 (length node.keys)),
  length-le_bytes 4 (next_raw node.next_leaf),
)

pub node_bytes-header :
    (node : Node)
    → node_bytes node ≡ header node ++ (encode_keys node.keys ++ encode_body node.node_type node)
unfolding node_bytes header
node_bytes-header node = rw (append_assoc (le_bytes 4 (as_u32 (length node.keys))))

-- Each key takes a byte at least.
length-encode_keys : (ks : List Key) → length ks ≤ length (encode_keys ks)
unfolding encode_keys encode_key
length-encode_keys [] = omega arith
length-encode_keys (integer v ∷ ks) =
    omega (arith, length-append (encode_key (integer v)) (encode_keys ks), length-encode_keys ks)
length-encode_keys (text s ∷ ks) =
    omega (arith, length-append (encode_key (text s)) (encode_keys ks), length-encode_keys ks)

length-keys-lt : (node : Node) → IsStorable node → length node.keys < 2 ^ 32
length-keys-lt node h = omega (
  arith,
  h.fits,
  ap length (node_bytes-header node),
  length-append (header node) (encode_keys node.keys ++ encode_body node.node_type node),
  length-append (encode_keys node.keys) (encode_body node.node_type node),
  length-encode_keys node.keys,
)

decode_header :
    (tag count next : ℕ) (rest : Bytes)
    → count < 2 ^ 32
    → next < 2 ^ 32
    → (read_u32 (tag ∷ (le_bytes 4 count ++ (le_bytes 4 next ++ rest))) 1 ≡ some count)
      × (read_u32 (tag ∷ (le_bytes 4 count ++ (le_bytes 4 next ++ rest))) 5 ≡ some next)
decode_header tag count next rest h k = (
  read_u32-append (tag ∷ []) (le_bytes 4 next ++ rest) 1 count refl h,
  read_u32-append (tag ∷ le_bytes 4 count) rest 5 next (omega (arith, length-le_bytes 4 count)) k,
)

next_raw-lt : (next : Option ℕ) → next_raw next < 2 ^ 32
unfolding next_raw
next_raw-lt none = omega arith
next_raw-lt (some v) = omega arith

-- What the page says of the next leaf, read back.
next_of_raw :
    (next : Option ℕ)
    → IsNext next
    → (if next_raw next == none_page then none else some (next_raw next)) ≡ next
unfolding next_raw
next_of_raw none h = refl
next_of_raw (some v) h = ground arith

-- The page laid out from the left, the key count written as it is.
page_layout :
    (node : Node) (pad : Bytes)
    → length node.keys < 2 ^ 32
    → node_bytes node ++ pad
      ≡ type_tag node.node_type
        ∷ (le_bytes 4 (length node.keys)
            ++ (le_bytes 4 (next_raw node.next_leaf)
                ++ (encode_keys node.keys ++ (encode_body node.node_type node ++ pad))))
unfolding node_bytes
page_layout node pad h =
    let small : length node.keys % 2 ^ 32 ≡ length node.keys = omega arith in
    rw small (simp append_assoc)

-- The keys on the page.
decode_page_keys :
    (node : Node) (pad : Bytes)
    → length node.keys < 2 ^ 32
    → All IsKey node.keys
    → decode_keys (length node.keys) (node_bytes node ++ pad) 9
      ≡ some (node.keys, 9 + length (encode_keys node.keys))
decode_page_keys node pad h keys =
    rw
      (
        node_bytes-header node,
        append_assoc (header node) (encode_keys node.keys ++ encode_body node.node_type node) pad,
        append_assoc (encode_keys node.keys) (encode_body node.node_type node) pad,
      )
      (decode_keys-encode_keys node.keys (header node) (encode_body node.node_type node ++ pad) 9
        keys (sym (length-header node)))

type_of_tag : (t : NodeType) → (if type_tag t == 0 then internal else leaf) ≡ t
unfolding type_tag
type_of_tag internal = refl
type_of_tag leaf = refl

-- Everything up to the body, with `pad` behind it.
pub decode_node_upto :
    (node : Node) (pad : Bytes)
    → All IsKey node.keys
    → IsNext node.next_leaf
    → length node.keys < 2 ^ 32
    → decode_node (node_bytes node ++ pad)
      ≡ decode_body node.node_type
          (length node.keys)
          node.keys
          node.next_leaf
          (node_bytes node ++ pad)
          (9 + length (encode_keys node.keys))
unfolding decode_node
decode_node_upto node pad keys next count =
    let rest = encode_keys node.keys ++ (encode_body node.node_type node ++ pad) in
    let (one, five) =
      decode_header (type_tag node.node_type) (length node.keys) (next_raw node.next_leaf) rest
        count (next_raw-lt node.next_leaf) in
    let layout = page_layout node pad count in
    let zero : get_elem? (node_bytes node ++ pad) 0 ≡ some (type_tag node.node_type) = rw layout in
    let one' : read_u32 (node_bytes node ++ pad) 1 ≡ some (length node.keys) = rw layout one in
    let five' : read_u32 (node_bytes node ++ pad) 5 ≡ some (next_raw node.next_leaf) =
      rw layout five in
    rw (
      zero,
      one',
      five',
      decode_page_keys node pad count keys,
      type_of_tag node.node_type,
      next_of_raw node.next_leaf next,
    )

-- Where the body stands.
body_place :
    (node : Node) (pad : Bytes)
    → node_bytes node ++ pad
      ≡ (header node ++ encode_keys node.keys) ++ (encode_body node.node_type node ++ pad)
body_place node pad = rw node_bytes-header (simp append_assoc)

length-upto :
    (node : Node)
    → 9 + length (encode_keys node.keys) ≡ length (header node ++ encode_keys node.keys)
length-upto node =
    omega (arith, length-header node, length-append (header node) (encode_keys node.keys))

leaf_records :
    (node : Node) (pad : Bytes)
    → encode_body node.node_type node ≡ encode_records node.records
    → HasShape leaf node
    → decode_records node.keys (node_bytes node ++ pad) (9 + length (encode_keys node.keys))
      ≡ some node.records
leaf_records node pad body shape =
    let cur = 9 + length (encode_keys node.keys) in
    let pre = header node ++ encode_keys node.keys in
    rw (body_place node pad, body)
      (subst
        (λ ks.
          decode_records ks (pre ++ (encode_records node.records ++ pad)) cur ≡ some node.records)
        shape.0 (decode_records-encode_records node.records pre pad cur shape.2 (length-upto node)))

internal_children :
    (node : Node) (pad : Bytes)
    → encode_body node.node_type node ≡ encode_children node.children
    → HasShape internal node
    → decode_children
        (length node.keys + 1)
        (node_bytes node ++ pad)
        (9 + length (encode_keys node.keys))
      ≡ some node.children
internal_children node pad body shape =
    let cur = 9 + length (encode_keys node.keys) in
    let pre = header node ++ encode_keys node.keys in
    rw (body_place node pad, body, ← shape.0)
      (decode_children-encode_children node.children pre pad cur shape.2 (length-upto node))

decode_storable :
    (t : NodeType) (node : Node) (pad : Bytes)
    → node.node_type ≡ t
    → HasShape t node
    → decode_body t
        (length node.keys)
        node.keys
        node.next_leaf
        (node_bytes node ++ pad)
        (9 + length (encode_keys node.keys))
      ≡ some node
unfolding decode_body encode_body
decode_storable leaf node pad e shape =
    rw (leaf_records node pad (ap (λ t. encode_body t node) e) shape)
      λ i. some (record node { node_type = sym e i; children = sym shape.1 i })
decode_storable internal node pad e shape =
    rw (internal_children node pad (ap (λ t. encode_body t node) e) shape)
      λ i. some (record node { node_type = sym e i; records = sym shape.1 i })

-- A node that fits a page and is storable is read back from its page as it was: its keys are 64-bit
-- integers or UTF-8 texts, its next leaf is below the mark for none, a leaf pairs its keys with its
-- records, and an internal node has one 32-bit child more than keys.
pub decode_node-encode_node :
    (node : Node) → IsStorable node → decode_node (encode_node node) ≡ some node
decode_node-encode_node node h =
    let pad : Bytes = replicate (page_size - length (node_bytes node)) 0 in
    rw (
      encode_node_padded node h.fits,
      decode_node_upto node pad h.keys h.next (length-keys-lt node h),
      decode_storable node.node_type node pad refl h.shape,
    )
