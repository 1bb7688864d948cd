-- ===== src/Tests/Plans.antt =====
-- Plans, constraints and the catalog at work on small inputs.
use sql.Common.{
  ℕ, ◌≤◌, if◌then◌else◌, chars_eq, subst, List, [], ◌∷◌, Bool, true, false, none, some, ◌≡◌, ◌≢◌,
  ◌↔◌, refl, arith, All, ℕ_discrete,
}
use sql.Common.Bytes.{Bytes, codes, is_utf8}
use sql.Common.Int.{pos}
use sql.Common.Result.{Result, ok, err}
use sql.Common.Assoc.{lookup, insert}
use sql.Btree.Node.{Key, Node, new_leaf, key_compare, bytes_compare, is_leaf}
use sql.Btree.Tree.{BPlusTree, search, find_record}
use sql.Pager.Storage.{MemoryInner, memory_storage}
use sql.Pager.Storage.Coherent.{memory_contents, memory_storage-IsStore}
use sql.Table.Schema.{Bytes-discrete, Schema, Column, DataType}
use sql.Table.Row.{Row, Value}
use sql.Catalog.Meta.{TableMeta, ViewMeta}
use sql.Catalog.State.{Catalog, view_exists, is_some, create_view}
use sql.Catalog.State.Named.{Call, IsNamed, apply, apply-IsNamed}
use sql.Catalog.State.Named
use sql.Catalog.State.{changed_meta, last_or, update_table_meta_full, rename_table}
use sql.Catalog.State.Stored.{update_table_meta_full-stored, rename_table-keeps_old}
use sql.Catalog.Meta.Decode.{decode_meta}
use sql.Catalog.Meta.Strings.{IsShort}
use sql.Catalog.Meta.Tables.{IsMeta, without_defaults}
use sql.Parser.Ast
use sql.Parser.Ast.{
  Expr, SelectStmt, Statement, TableRef, select_stmt, fields, no_ctes, cons_item, no_items,
  no_joins, cons_join, cons_cte, from_subquery, some_union, bin_op, lit_int, CreateViewStmt,
  no_expr, some_expr, no_exprs, no_keys, no_union, some_from, from_table,
}
use sql.Planner.Plan
use sql.Planner.Plan.{Plan}
use sql.Planner.Select.{
  plan_select, plan_ctes, plan_from, plan_rest, plan_view, view_text, view_query, exhausted, done,
  plan_table_scan,
}
use sql.Planner.Select.Ending.{IsRanked, select_depth, plan_select-ends}
use sql.Planner.Select.Steps.{is_view}
use sql.Planner.Select.Views.{plan_select-view_ignores}
use sql.Parser.Token.{Token}
use sql.Planner.Constraints.{TableConstraints, check_row, unique, not_null}
use sql.Planner.Constraints.Meaning.{Holds, check_row-Holds}

abbrev id_column : Column Expr
id_column = record {
  name = codes "id";
  data_type = DataType.integer;
  nullable = true;
  autoinc = false;
  default = none;
}

abbrev users : TableMeta Expr
users = record {
  name = codes "users";
  schema = record { columns = id_column ∷ [] };
  root_page = 7;
  row_count = 0;
  autoinc_last = 0;
}

abbrev one_view : ViewMeta
one_view = record { name = codes "v"; query = codes "SELECT * FROM users" }

abbrev small_catalog : Catalog Expr MemoryInner
small_catalog = record {
  sys_tree = record {
    order = 64;
    storage = record { pages = (0, new_leaf) ∷ []; next_page = 1 };
    root = 0;
    size = 0;
  };
  cache = (codes "users", users) ∷ [];
  index_cache = [];
  view_cache = (codes "v", one_view) ∷ [];
  trigger_cache = [];
}

abbrev plain_from : Bytes → SelectStmt
plain_from name =
    select_stmt no_ctes false (cons_item Ast.star no_items)
      (some_from (from_table (record { name = name; alias = none }))) no_joins no_expr no_exprs
      no_expr no_keys no_expr no_expr no_union

-- A parser that knows one text.
abbrev parse_view : Bytes → Result (Unit {0}) (List Statement)
parse_view text =
    if chars_eq text (codes "SELECT * FROM users")
    then ok (Ast.select (plain_from (codes "users")) ∷ [])
    else err tt

abbrev always : Expr → Expr → Bool
always a b = true

abbrev rank : Bytes → ℕ
rank name = if view_exists name small_catalog then 1 else 0

known_text :
    (b : Bool) (known q : SelectStmt) (rest : List Statement)
    → ◌≡◌ {A = Result (Unit {0}) (List Statement)}
        (if b then ok (Ast.select known ∷ []) else err tt)
        (ok (Ast.select q ∷ rest))
    → known ≡ q
known_text true known q rest e = cc
known_text false known q rest e = absurd cc

users_depth : select_depth rank (plain_from (codes "users")) ≤ 1
unfolding select_depth view_exists lookup is_some Bytes-discrete ℕ_discrete
users_depth = omega arith

small_catalog-IsRanked : IsRanked small_catalog parse_view rank
unfolding IsRanked view_exists is_some
small_catalog-IsRanked name view q rest got text =
    let same =
      known_text (chars_eq view.query (codes "SELECT * FROM users")) (plain_from (codes "users")) q
        rest text in
    rw got (subst (λ x. select_depth rank x ≤ 1) same users_depth)

-- A SELECT with a CTE, a subquery that reads the view, and a union.
abbrev deep_select : SelectStmt
deep_select =
    select_stmt (cons_cte (codes "c") (plain_from (codes "users")) no_ctes) false
      (cons_item Ast.star no_items) (some_from (from_subquery (plain_from (codes "v")) (codes "s")))
      no_joins no_expr no_exprs no_expr no_keys no_expr no_expr
      (some_union (plain_from (codes "v")) true)

plan_select-ends_example : plan_select small_catalog parse_view always 3 deep_select ≢ exhausted
unfolding select_depth view_exists lookup is_some Bytes-discrete ℕ_discrete
plan_select-ends_example =
    plan_select-ends small_catalog parse_view always rank 3 deep_select small_catalog-IsRanked
      (omega arith)

abbrev find_user : Expr
find_user = bin_op (Ast.column none (codes "id")) Ast.eq (lit_int (pos 5))

-- One user and all orders.
abbrev joined_select : SelectStmt
joined_select =
    select_stmt no_ctes false (cons_item Ast.star no_items)
      (some_from (from_table (record { name = codes "users"; alias = none })))
      (cons_join Ast.inner (record { name = codes "orders"; alias = none }) Ast.no_condition
        no_joins)
      (some_expr find_user) no_exprs no_expr no_keys no_expr no_expr no_union

-- The WHERE is in the lookup and above the join.
abbrev joined_plan : Plan
joined_plan =
    Plan.projection
      (Plan.filter
        (Plan.join (Plan.index_scan (codes "users") none (codes "id") (lit_int (pos 5)))
          (Plan.seq_scan (codes "orders") none no_expr) no_expr Plan.inner)
        find_user)
      (cons_item Ast.star no_items)

-- Everything from the view, and one user from the view.
abbrev one_of_view : SelectStmt
one_of_view =
    select_stmt no_ctes true (cons_item (Ast.expr find_user none) no_items)
      (some_from (from_table (record { name = codes "v"; alias = none }))) no_joins
      (some_expr find_user) no_exprs no_expr no_keys (some_expr (lit_int (pos 1))) no_expr no_union

plan_select-view_ignores_example :
    plan_select small_catalog parse_view always 2 one_of_view
    ≡ plan_select small_catalog parse_view always 2 (plain_from (codes "v"))
unfolding is_view view_exists lookup is_some fields Bytes-discrete ℕ_discrete
plan_select-view_ignores_example =
    plan_select-view_ignores small_catalog parse_view always 2 (plain_from (codes "v")) one_of_view
      refl refl refl

view_plan_test :
    plan_select small_catalog parse_view always 2 one_of_view
    ≡ done (
        Plan.subquery_scan
          (Plan.projection
            (Plan.seq_scan (codes "users") none no_expr)
            (cons_item Ast.star no_items))
          (codes "v"))
unfolding plan_select plan_ctes plan_from plan_view view_text view_query plan_rest plan_table_scan
    view_exists lookup is_some Bytes-discrete ℕ_discrete fields chars_eq
view_plan_test = refl

abbrev create_w : CreateViewStmt
create_w = record {
  if_not_exists = false;
  temp = false;
  name = codes "w";
  query = plain_from (codes "users");
}

-- A text as the derived Debug writes it, cut after the brace.
abbrev debug_text : SelectStmt → Bytes
debug_text s = codes "SelectStmt { with: []"

abbrev with_w : Catalog Expr MemoryInner
with_w = record small_catalog {
  view_cache =
      (codes "v", one_view)
      ∷ ((codes "w", record { name = codes "w"; query = codes "SelectStmt { with: []" }) ∷ []);
}

abbrev no_parser : List Token → Result (Unit {0}) (List Statement)
no_parser tokens = err tt

abbrev two_columns : Schema Expr
two_columns = record { columns = id_column ∷ [] }

abbrev id_constraints : TableConstraints
id_constraints = record { constraints = not_null (codes "id") ∷ (unique (codes "id" ∷ []) ∷ []) }

abbrev one_row : Row
one_row = record { values = Value.integer (pos 1) ∷ [] }

check_row-Holds_example :
    (check_row
        (λ e r names. none)
        (λ v. true)
        (λ v w. false)
        one_row
        two_columns
        id_constraints
        (one_row ∷ [])
      ≡ ok tt)
    ↔ All
        (Holds (λ e r names. none) (λ v. true) (λ v w. false) one_row two_columns (one_row ∷ []))
        id_constraints.constraints
check_row-Holds_example =
    check_row-Holds (λ e r names. none) (λ v. true) (λ v w. false) one_row two_columns
      (one_row ∷ []) id_constraints

small_catalog-IsNamed : IsNamed small_catalog
unfolding IsNamed
small_catalog-IsNamed = ((refl, tt), tt, (refl, tt))

abbrev second_view : ViewMeta
second_view = record { name = codes "w"; query = codes "SELECT 1" }

abbrev two_views : Catalog Expr MemoryInner
two_views = record small_catalog {
  view_cache = (codes "v", one_view) ∷ ((codes "w", second_view) ∷ []);
}

apply-IsNamed_example : IsNamed two_views
unfolding apply create_view view_exists lookup is_some Bytes-discrete ℕ_discrete insert
apply-IsNamed_example =
    apply-IsNamed memory_storage 1 (Named.create_view (codes "w") (codes "SELECT 1")) small_catalog
      two_views small_catalog-IsNamed refl

-- A catalog whose tree holds one record, for the table.
abbrev users_leaf : Node
users_leaf = record new_leaf {
  keys = Key.text (codes "users") ∷ [];
  records = record { key = Key.text (codes "users"); value = 1 ∷ (2 ∷ []) } ∷ [];
}

abbrev stored_catalog : Catalog Expr MemoryInner
stored_catalog = record small_catalog {
  sys_tree = record {
    order = 64;
    storage = record { pages = (0, users_leaf) ∷ []; next_page = 1 };
    root = 0;
    size = 1;
  };
}

users_name-IsShort : IsShort (codes "users")
unfolding is_utf8
users_name-IsShort = record {
  text = record {
    utf8 = refl;
    bytes = (omega arith, (omega arith, (omega arith, (omega arith, (omega arith, tt)))));
  };
  short = omega arith;
}

id_name-IsShort : IsShort (codes "id")
unfolding is_utf8
id_name-IsShort = record {
  text = record { utf8 = refl; bytes = (omega arith, (omega arith, tt)) };
  short = omega arith;
}

users-IsMeta : IsMeta (changed_meta 9 4 none users)
unfolding changed_meta last_or
users-IsMeta = record {
  name = users_name-IsShort;
  columns = (id_name-IsShort, tt);
  few = omega arith;
  root = omega arith;
  rows = omega arith;
  last = omega arith;
}

update_table_meta_full-stored_example :
    (c' : Catalog Expr MemoryInner) × (bytes : Bytes) × (t : BPlusTree MemoryInner)
    × (update_table_meta_full memory_storage 1 (codes "users") 9 4 none stored_catalog
        ≡ some (ok c'))
    × (search memory_storage 1 (Key.text (codes "users")) c'.sys_tree ≡ some (some bytes, t))
    × (decode_meta bytes ≡ some (without_defaults (changed_meta 9 4 none users)))
unfolding lookup is_leaf ℕ_discrete new_leaf Bytes-discrete
update_table_meta_full-stored_example =
    update_table_meta_full-stored memory_storage memory_contents memory_storage-IsStore 1 0 9 4 none
      users stored_catalog 0 users_leaf refl users-IsMeta (omega arith) (refl, refl, refl) refl
      (omega arith)

rename_table-keeps_old_example :
    (c' : Catalog Expr MemoryInner) × (t : BPlusTree MemoryInner) × (rename_table memory_storage 1
        (codes "users")
        (codes "people")
        stored_catalog
      ≡ some (ok c'))
    × (search memory_storage 1 (Key.text (codes "users")) c'.sys_tree
        ≡ some (some (1 ∷ (2 ∷ [])), t))
unfolding lookup is_leaf ℕ_discrete new_leaf Bytes-discrete find_record key_compare bytes_compare
rename_table-keeps_old_example =
    rename_table-keeps_old memory_storage memory_contents memory_storage-IsStore 1 0 0
      (codes "people") (1 ∷ (2 ∷ [])) users stored_catalog 0 0 users_leaf users_leaf refl
      (λ e. absurd cc) (omega arith) (omega arith) (refl, refl, refl) (refl, refl, refl) refl
      (omega arith) refl
