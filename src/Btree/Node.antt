-- ===== src/Btree/Node.antt =====
-- src/btree/node.rs: keys with their derived order, records and nodes.
pub mod Order
use Prim.Native.Nat.{compare, Ordering}
use sql.Common.{ℕ, ◌+◌, ◌-◌, List, [], ◌∷◌, Option, none, Bool, true, false, length, leb}
use sql.Common.Int.{ℤ, pos, negsuc}
use sql.Common.Bytes.{Bytes}

pub data NodeType : Type 0 where
  internal leaf : NodeType

-- A text is the list of its UTF-8 bytes.
pub data Key : Type 0 where
  integer : ℤ → Key
  text : Bytes → Key

pub record Record : Type 0 where
  pub key : Key
  pub value : Bytes

pub record Node : Type 0 where
  pub node_type : NodeType
  pub keys : List Key
  pub children : List ℕ
  pub records : List Record
  pub next_leaf : Option ℕ

unfoldable pub new_internal : Node
new_internal = record {
  node_type = internal;
  keys = [];
  children = [];
  records = [];
  next_leaf = none;
}

unfoldable pub new_leaf : Node
new_leaf = record { node_type = leaf; keys = []; children = []; records = []; next_leaf = none }

abbrev pub is_leaf_type : NodeType → Bool
is_leaf_type internal = false
is_leaf_type leaf = true

unfoldable pub is_leaf : Node → Bool
is_leaf node = is_leaf_type node.node_type

-- `order - 1` would wrap at 0; a tree is made with an order of at least 3.
unfoldable pub is_full : Node → ℕ → Bool
is_full node order = leb (order - 1) (length node.keys)

-- `i64::cmp`.
unfoldable pub int_compare : ℤ → ℤ → Ordering
int_compare (pos a) (pos b) = compare a b
int_compare (pos a) (negsuc b) = Ordering.gt
int_compare (negsuc a) (pos b) = Ordering.lt
int_compare (negsuc a) (negsuc b) = compare b a

-- `Ordering::then`.
unfoldable pub then_with : Ordering → Ordering → Ordering
then_with Ordering.eq o = o
then_with Ordering.lt o = Ordering.lt
then_with Ordering.gt o = Ordering.gt

-- `str::cmp`: the lexicographic order of the bytes.
unfoldable pub bytes_compare : Bytes → Bytes → Ordering
unfolding then_with
bytes_compare [] [] = Ordering.eq
bytes_compare [] (b ∷ t) = Ordering.lt
bytes_compare (a ∷ s) [] = Ordering.gt
bytes_compare (a ∷ s) (b ∷ t) = then_with (compare a b) (bytes_compare s t)

-- The derived `Ord`: the variants in the order of their declaration, then their values.
unfoldable pub key_compare : Key → Key → Ordering
unfolding int_compare bytes_compare
key_compare (integer a) (integer b) = int_compare a b
key_compare (integer a) (text b) = Ordering.lt
key_compare (text a) (integer b) = Ordering.gt
key_compare (text a) (text b) = bytes_compare a b

abbrev pub key_lt : Key → Key → Bool
key_lt a b = elim (key_compare a b) [ Ordering.lt ↦ true | _ ↦ false ]

abbrev pub key_le : Key → Key → Bool
key_le a b = elim (key_compare a b) [ Ordering.gt ↦ false | _ ↦ true ]

abbrev pub key_eq : Key → Key → Bool
key_eq a b = elim (key_compare a b) [ Ordering.eq ↦ true | _ ↦ false ]
