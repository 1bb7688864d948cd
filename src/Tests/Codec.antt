-- ===== src/Tests/Codec.antt =====
-- Nodes, rows and descriptions that are stored and read back.
use sql.Common.{ℕ, ◌≡◌, refl, arith, [], ◌∷◌, ◌++◌, none, some, true, replicate, length-replicate}
use sql.Common.Int.{pos, negsuc}
use sql.Common.Bytes.{Bytes, codes, is_utf8, le_bytes}
use sql.Btree.Node.{Key, Record, Node, NodeType}
use sql.Pager.Codec.{
  node_bytes, encode_node, decode_node, encode_keys, encode_key, encode_records, encode_bytes,
  encode_body, type_tag, next_raw,
}
use sql.Pager.Codec.RoundTrip.{IsStorable, decode_node-encode_node}
use sql.Pager.Codec.Oversize.{full_leaf, decode_node-full_leaf}
use sql.Table.Schema.{DataType, Column, Schema, column}
use sql.Table.Row.{Value, Row}
use sql.Table.Serialize.{serialize, deserialize}
use sql.Table.Serialize.RoundTrip.{deserialize-serialize}
use sql.Catalog.Meta.{TableMeta, TriggerMeta, after, update}
use sql.Catalog.Meta.Encode.{encode_meta, encode_trigger}
use sql.Catalog.Meta.Decode.{decode_meta, decode_trigger}
use sql.Catalog.Meta.Strings.{IsShort}
use sql.Catalog.Meta.Tables.{IsMeta, without_defaults, decode_meta-encode_meta}
use sql.Catalog.Meta.Triggers.{IsTrigger, decode_trigger-encode_trigger}

abbrev small_leaf : Node
small_leaf = record {
  node_type = NodeType.leaf;
  keys = Key.integer (pos 3) ∷ [];
  children = [];
  records = record { key = Key.integer (pos 3); value = 1 ∷ 2 ∷ [] } ∷ [];
  next_leaf = some 9;
}

small_leaf-IsStorable : IsStorable small_leaf
unfolding node_bytes encode_keys encode_key encode_body encode_records encode_bytes type_tag
    next_raw le_bytes
small_leaf-IsStorable = record {
  fits = omega arith;
  keys = (omega arith, tt);
  next = omega arith;
  shape = (refl, refl, (omega arith, tt));
}

decode_node-encode_node_example : decode_node (encode_node small_leaf) ≡ some small_leaf
decode_node-encode_node_example = decode_node-encode_node small_leaf small_leaf-IsStorable

abbrev big_record : Record
big_record = record { key = Key.integer (pos 3); value = replicate 5000 1 }

decode_node-full_leaf_example :
    decode_node (encode_node (full_leaf (Key.integer (pos 3)) [] big_record [] none)) ≡ none
unfolding encode_keys encode_key le_bytes
decode_node-full_leaf_example =
    decode_node-full_leaf (Key.integer (pos 3)) [] big_record [] none (omega arith, tt) tt
      (omega arith)
      (record {
        starts = omega arith;
        ends = omega (arith, length-replicate {A = ℕ} 5000 1);
        short = omega (arith, length-replicate {A = ℕ} 5000 1);
      })

-- A schema of two columns, over a type of expressions that does not matter here.
abbrev id_column : Column ℕ
unfolding column
id_column = column (codes "id") DataType.integer

abbrev two_columns : Schema ℕ
two_columns = record { columns = id_column ∷ (record id_column { default = some 5 } ∷ []) }

abbrev two_values : Row
two_values = record { values = Value.integer (negsuc 1) ∷ (Value.boolean true ∷ []) }

deserialize-serialize_example :
    (bytes : Bytes) × (serialize two_columns two_values ≡ some bytes)
    × (deserialize two_columns (bytes ++ (77 ∷ [])) ≡ some two_values)
deserialize-serialize_example =
    deserialize-serialize two_columns two_values (77 ∷ []) refl (omega arith, (tt, tt))

abbrev two_letters : Bytes
two_letters = 105 ∷ 100 ∷ []

letters-IsShort : IsShort two_letters
unfolding is_utf8
letters-IsShort = record {
  text = record { utf8 = refl; bytes = (omega arith, (omega arith, tt)) };
  short = omega arith;
}

abbrev small_table : TableMeta ℕ
small_table = record {
  name = two_letters;
  schema = record { columns = record id_column { name = two_letters; default = some 5 } ∷ [] };
  root_page = 4;
  row_count = 2;
  autoinc_last = 0;
}

small_table-IsMeta : IsMeta small_table
small_table-IsMeta = record {
  name = letters-IsShort;
  columns = (letters-IsShort, tt);
  few = omega arith;
  root = omega arith;
  rows = omega arith;
  last = omega arith;
}

decode_meta-encode_meta_example :
    decode_meta (encode_meta small_table ++ (1 ∷ [])) ≡ some (without_defaults small_table)
decode_meta-encode_meta_example = decode_meta-encode_meta small_table (1 ∷ []) small_table-IsMeta

abbrev small_trigger : TriggerMeta
small_trigger = record {
  name = two_letters;
  table = two_letters;
  timing = after;
  event = update (some (two_letters ∷ []));
  for_each_row = true;
  when = some two_letters;
  body = two_letters;
}

small_trigger-IsTrigger : IsTrigger small_trigger
small_trigger-IsTrigger = record {
  name = letters-IsShort;
  table = letters-IsShort;
  event = ((letters-IsShort, tt), omega arith);
  when = (letters-IsShort, omega arith);
  body = letters-IsShort;
}

decode_trigger-encode_trigger_example :
    decode_trigger (encode_trigger small_trigger ++ []) ≡ some small_trigger
decode_trigger-encode_trigger_example =
    decode_trigger-encode_trigger small_trigger [] small_trigger-IsTrigger
