-- ===== src/Parser/Token.antt =====
-- src/parser/lexer.rs: tokens and keywords. The constructors of keywords are prefixed by `kw_`; a
-- text is the list of its code points, a float its bit pattern.
use sql.Common.{ℕ, List, [], ◌∷◌, Bool, true, false, Option, none, some, chars_eq, if◌then◌else◌}
use sql.Common.Bytes.{codes}
use sql.Common.Int.{ℤ}

pub data Token : Type 0 where
  kw_select kw_from kw_where kw_insert kw_into kw_values kw_update kw_set kw_delete : Token
  kw_create kw_drop kw_table kw_index kw_on kw_primary kw_key kw_not kw_null : Token
  kw_unique kw_and kw_or kw_is kw_in kw_like kw_between kw_order kw_by kw_asc kw_desc : Token
  kw_limit kw_offset kw_join kw_inner kw_left kw_right kw_outer kw_cross kw_natural : Token
  kw_using kw_group kw_having kw_distinct kw_all kw_as kw_if kw_exists kw_begin : Token
  kw_commit kw_rollback kw_transaction kw_virtual kw_match kw_with kw_recursive : Token
  kw_references kw_integer kw_text kw_real kw_blob kw_boolean kw_true kw_false : Token
  kw_pragma kw_explain kw_alter kw_rename kw_to kw_add kw_column kw_do kw_of kw_view : Token
  kw_reindex kw_analyze kw_temp kw_conflict kw_nothing kw_union kw_check kw_cast : Token
  kw_default kw_glob kw_trigger kw_before kw_after kw_instead kw_each kw_row kw_for : Token
  kw_when kw_end kw_auto_increment kw_attach kw_detach kw_database kw_vacuum : Token
  ident : List ℕ → Token
  lit_int : ℤ → Token
  lit_float : ℕ → Token
  lit_str : List ℕ → Token
  lit_null : Token
  eq not_eq lt lt_eq gt gt_eq plus minus star slash percent concat : Token
  l_paren r_paren comma semicolon dot : Token
  eof : Token

unfoldable pub is_ident : Token → Bool
is_ident (ident s) = true
is_ident _ = false

unfoldable pub is_eof : Token → Bool
is_eof eof = true
is_eof _ = false

-- The arms of `keyword`, in their order.
abbrev pub keywords : List (List ℕ × Token)
keywords =
    (codes "SELECT", kw_select)
    ∷ (codes "FROM", kw_from)
    ∷ (codes "WHERE", kw_where)
    ∷ (codes "INSERT", kw_insert)
    ∷ (codes "INTO", kw_into)
    ∷ (codes "VALUES", kw_values)
    ∷ (codes "UPDATE", kw_update)
    ∷ (codes "SET", kw_set)
    ∷ (codes "DELETE", kw_delete)
    ∷ (codes "CREATE", kw_create)
    ∷ (codes "DROP", kw_drop)
    ∷ (codes "TABLE", kw_table)
    ∷ (codes "INDEX", kw_index)
    ∷ (codes "ON", kw_on)
    ∷ (codes "PRIMARY", kw_primary)
    ∷ (codes "KEY", kw_key)
    ∷ (codes "REFERENCES", kw_references)
    ∷ (codes "NOT", kw_not)
    ∷ (codes "NULL", lit_null)
    ∷ (codes "UNIQUE", kw_unique)
    ∷ (codes "AND", kw_and)
    ∷ (codes "OR", kw_or)
    ∷ (codes "IS", kw_is)
    ∷ (codes "IN", kw_in)
    ∷ (codes "LIKE", kw_like)
    ∷ (codes "BETWEEN", kw_between)
    ∷ (codes "ORDER", kw_order)
    ∷ (codes "BY", kw_by)
    ∷ (codes "ASC", kw_asc)
    ∷ (codes "DESC", kw_desc)
    ∷ (codes "LIMIT", kw_limit)
    ∷ (codes "OFFSET", kw_offset)
    ∷ (codes "JOIN", kw_join)
    ∷ (codes "INNER", kw_inner)
    ∷ (codes "LEFT", kw_left)
    ∷ (codes "RIGHT", kw_right)
    ∷ (codes "OUTER", kw_outer)
    ∷ (codes "CROSS", kw_cross)
    ∷ (codes "NATURAL", kw_natural)
    ∷ (codes "USING", kw_using)
    ∷ (codes "GROUP", kw_group)
    ∷ (codes "HAVING", kw_having)
    ∷ (codes "DISTINCT", kw_distinct)
    ∷ (codes "ALL", kw_all)
    ∷ (codes "AS", kw_as)
    ∷ (codes "IF", kw_if)
    ∷ (codes "EXISTS", kw_exists)
    ∷ (codes "BEGIN", kw_begin)
    ∷ (codes "COMMIT", kw_commit)
    ∷ (codes "ROLLBACK", kw_rollback)
    ∷ (codes "TRANSACTION", kw_transaction)
    ∷ (codes "VIRTUAL", kw_virtual)
    ∷ (codes "MATCH", kw_match)
    ∷ (codes "WITH", kw_with)
    ∷ (codes "RECURSIVE", kw_recursive)
    ∷ (codes "INTEGER", kw_integer)
    ∷ (codes "INT", kw_integer)
    ∷ (codes "TEXT", kw_text)
    ∷ (codes "VARCHAR", kw_text)
    ∷ (codes "REAL", kw_real)
    ∷ (codes "FLOAT", kw_real)
    ∷ (codes "BLOB", kw_blob)
    ∷ (codes "BOOLEAN", kw_boolean)
    ∷ (codes "BOOL", kw_boolean)
    ∷ (codes "TRUE", kw_true)
    ∷ (codes "FALSE", kw_false)
    ∷ (codes "PRAGMA", kw_pragma)
    ∷ (codes "EXPLAIN", kw_explain)
    ∷ (codes "ALTER", kw_alter)
    ∷ (codes "RENAME", kw_rename)
    ∷ (codes "TO", kw_to)
    ∷ (codes "ADD", kw_add)
    ∷ (codes "COLUMN", kw_column)
    ∷ (codes "DO", kw_do)
    ∷ (codes "VIEW", kw_view)
    ∷ (codes "REINDEX", kw_reindex)
    ∷ (codes "ANALYZE", kw_analyze)
    ∷ (codes "TEMP", kw_temp)
    ∷ (codes "TEMPORARY", kw_temp)
    ∷ (codes "CONFLICT", kw_conflict)
    ∷ (codes "NOTHING", kw_nothing)
    ∷ (codes "UNION", kw_union)
    ∷ (codes "CHECK", kw_check)
    ∷ (codes "CAST", kw_cast)
    ∷ (codes "DEFAULT", kw_default)
    ∷ (codes "GLOB", kw_glob)
    ∷ (codes "TRIGGER", kw_trigger)
    ∷ (codes "BEFORE", kw_before)
    ∷ (codes "AFTER", kw_after)
    ∷ (codes "INSTEAD", kw_instead)
    ∷ (codes "OF", kw_of)
    ∷ (codes "FOR", kw_for)
    ∷ (codes "EACH", kw_each)
    ∷ (codes "ROW", kw_row)
    ∷ (codes "WHEN", kw_when)
    ∷ (codes "END", kw_end)
    ∷ (codes "AUTOINCREMENT", kw_auto_increment)
    ∷ (codes "ATTACH", kw_attach)
    ∷ (codes "DETACH", kw_detach)
    ∷ (codes "DATABASE", kw_database)
    ∷ (codes "VACUUM", kw_vacuum)
    ∷ []

unfoldable pub find_keyword : List ℕ → List (List ℕ × Token) → Option Token
find_keyword s [] = none
find_keyword s ((w, t) ∷ rest) = if chars_eq w s then some t else find_keyword s rest
