-- ===== src/Parser/Ast.antt =====
-- src/parser/ast.rs: statements and expressions. The types that hold lists, options or boxes of one
-- another stand in one block, and there a `Vec` of them is a type with constructors `no_..` and
-- `cons_..`, an `Option` a type with `no_..` and `some_..`. A string is the list of its codes, a float its bit pattern.
use sql.Common.{ℕ, List, Bool, Option}
use sql.Common.Bytes.{Bytes}
use sql.Common.Int.{ℤ}
use sql.Catalog.Meta.{TriggerTiming, TriggerEvent}

pub data JoinKind : Type 0 where
  inner left right full cross natural : JoinKind

pub data SqlType : Type 0 where
  integer real text blob boolean null : SqlType

pub data BinOp : Type 0 where
  eq not_eq lt lt_eq gt gt_eq : BinOp
  and or : BinOp
  add sub mul div mod_op : BinOp
  concat : BinOp

pub data UnaryOp : Type 0 where
  neg not_op : UnaryOp

pub record TableRef : Type 0 where
  pub name : Bytes
  pub alias : Option Bytes

mutual
  pub data Expr : Type 0 where
    lit_int : ℤ → Expr
    lit_float : ℕ → Expr
    lit_str : Bytes → Expr
    lit_bool : Bool → Expr
    lit_null : Expr
    column : (table : Option Bytes) (name : Bytes) → Expr
    function : (name : Bytes) (args : Exprs) (distinct : Bool) → Expr
    bin_op : (left : Expr) (op : BinOp) (right : Expr) → Expr
    unary_op : (op : UnaryOp) (expr : Expr) → Expr
    is_null : (expr : Expr) (negated : Bool) → Expr
    between : (expr low high : Expr) (negated : Bool) → Expr
    in_list : (expr : Expr) (list : Exprs) (negated : Bool) → Expr
    in_subquery : (expr : Expr) (query : SelectStmt) (negated : Bool) → Expr
    exists : (query : SelectStmt) (negated : Bool) → Expr
    scalar_subquery : SelectStmt → Expr
    like : (expr pattern : Expr) (negated : Bool) → Expr
    glob : (expr pattern : Expr) (negated : Bool) → Expr
    cast : (expr : Expr) (target : SqlType) → Expr
    subquery : SelectStmt → Expr

  pub data Exprs : Type 0 where
    no_exprs : Exprs
    cons_expr : Expr → Exprs → Exprs

  pub data MaybeExpr : Type 0 where
    no_expr : MaybeExpr
    some_expr : Expr → MaybeExpr

  pub data SelectItem : Type 0 where
    star : SelectItem
    table_star : Bytes → SelectItem
    expr : (expr : Expr) (alias : Option Bytes) → SelectItem

  pub data SelectItems : Type 0 where
    no_items : SelectItems
    cons_item : SelectItem → SelectItems → SelectItems

  pub data FromItem : Type 0 where
    from_table : TableRef → FromItem
    from_subquery : (query : SelectStmt) (alias : Bytes) → FromItem

  pub data MaybeFrom : Type 0 where
    no_from : MaybeFrom
    some_from : FromItem → MaybeFrom

  pub data Ctes : Type 0 where
    no_ctes : Ctes
    cons_cte : (name : Bytes) (query : SelectStmt) → Ctes → Ctes

  pub data JoinCondition : Type 0 where
    on : Expr → JoinCondition
    using : List Bytes → JoinCondition
    no_condition : JoinCondition

  pub data Joins : Type 0 where
    no_joins : Joins
    cons_join : (kind : JoinKind) (table : TableRef) (condition : JoinCondition) → Joins → Joins

  pub data OrderItems : Type 0 where
    no_keys : OrderItems
    cons_key : (expr : Expr) (asc : Bool) → OrderItems → OrderItems

  pub data MaybeUnion : Type 0 where
    no_union : MaybeUnion
    some_union : (query : SelectStmt) (all : Bool) → MaybeUnion

  pub data SelectStmt : Type 0 where
    select_stmt :
        (with_ : Ctes) (distinct : Bool) (columns : SelectItems) (from : MaybeFrom) (joins : Joins)
        (where_ : MaybeExpr) (group_by : Exprs) (having : MaybeExpr) (order_by : OrderItems)
        (limit offset : MaybeExpr) (union_with : MaybeUnion)
        → SelectStmt

-- The fields of a `SelectStmt`.
pub record SelectFields : Type 0 where
  pub with_ : Ctes
  pub distinct : Bool
  pub columns : SelectItems
  pub from : MaybeFrom
  pub joins : Joins
  pub where_ : MaybeExpr
  pub group_by : Exprs
  pub having : MaybeExpr
  pub order_by : OrderItems
  pub limit : MaybeExpr
  pub offset : MaybeExpr
  pub union_with : MaybeUnion

unfoldable pub fields : SelectStmt → SelectFields
fields
      (select_stmt with_ distinct columns from joins where_ group_by having order_by limit offset
        union_with) =
    record {
      with_ = with_;
      distinct = distinct;
      columns = columns;
      from = from;
      joins = joins;
      where_ = where_;
      group_by = group_by;
      having = having;
      order_by = order_by;
      limit = limit;
      offset = offset;
      union_with = union_with;
    }

pub data OnConflict : Type 0 where
  do_nothing : OnConflict
  do_update : (column : Bytes) (value : Expr) → OnConflict

pub record InsertStmt : Type 0 where
  pub table : Bytes
  pub columns : List Bytes
  pub values : List (List Expr)
  pub default_values : Bool
  pub on_conflict : Option OnConflict

pub record UpdateStmt : Type 0 where
  pub table : Bytes
  pub sets : List (Bytes × Expr)
  pub where_ : MaybeExpr

pub record DeleteStmt : Type 0 where
  pub table : Bytes
  pub where_ : MaybeExpr

pub data ColumnConstraint : Type 0 where
  not_null : ColumnConstraint
  primary_key : (autoincrement : Bool) → ColumnConstraint
  unique : ColumnConstraint
  default : Expr → ColumnConstraint
  check : Expr → ColumnConstraint
  references : (table : Bytes) (column : Option Bytes) → ColumnConstraint

pub data TableConstraint : Type 0 where
  primary_key : List Bytes → TableConstraint
  unique : List Bytes → TableConstraint

pub record ColumnDef : Type 0 where
  pub name : Bytes
  pub data_type : SqlType
  pub constraints : List ColumnConstraint

pub record CreateTableStmt : Type 0 where
  pub if_not_exists : Bool
  pub name : Bytes
  pub columns : List ColumnDef
  pub constraints : List TableConstraint

pub record DropTableStmt : Type 0 where
  pub if_exists : Bool
  pub name : Bytes

pub record CreateIndexStmt : Type 0 where
  pub unique : Bool
  pub name : Bytes
  pub table : Bytes
  pub columns : List Bytes

pub record DropIndexStmt : Type 0 where
  pub if_exists : Bool
  pub name : Bytes

pub data AlterTableOp : Type 0 where
  rename_to : Bytes → AlterTableOp
  add_column : (name : Bytes) (data_type : SqlType) → AlterTableOp

pub record AlterTableStmt : Type 0 where
  pub table : Bytes
  pub op : AlterTableOp

pub record PragmaStmt : Type 0 where
  pub name : Bytes
  pub value : MaybeExpr

pub record CreateViewStmt : Type 0 where
  pub if_not_exists : Bool
  pub temp : Bool
  pub name : Bytes
  pub query : SelectStmt

pub record DropViewStmt : Type 0 where
  pub if_exists : Bool
  pub name : Bytes

pub record CreateTriggerStmt : Type 0 where
  pub if_not_exists : Bool
  pub name : Bytes
  pub table : Bytes
  pub timing : TriggerTiming
  pub event : TriggerEvent
  pub for_each_row : Bool
  pub when : MaybeExpr
  pub body : Bytes

pub record DropTriggerStmt : Type 0 where
  pub if_exists : Bool
  pub name : Bytes

pub record ReindexStmt : Type 0 where
  pub name : Option Bytes

pub record AnalyzeStmt : Type 0 where
  pub name : Option Bytes

-- The source boxes the statement that EXPLAIN is about in a struct of its own.
pub data Statement : Type 0 where
  select : SelectStmt → Statement
  insert : InsertStmt → Statement
  update : UpdateStmt → Statement
  delete : DeleteStmt → Statement
  create_table : CreateTableStmt → Statement
  drop_table : DropTableStmt → Statement
  create_index : CreateIndexStmt → Statement
  drop_index : DropIndexStmt → Statement
  alter_table : AlterTableStmt → Statement
  pragma : PragmaStmt → Statement
  explain : (inner : Statement) → Statement
  create_view : CreateViewStmt → Statement
  drop_view : DropViewStmt → Statement
  create_trigger : CreateTriggerStmt → Statement
  drop_trigger : DropTriggerStmt → Statement
  reindex : ReindexStmt → Statement
  analyze : AnalyzeStmt → Statement
  attach : (path alias : Bytes) → Statement
  detach : (alias : Bytes) → Statement
  vacuum begin commit rollback : Statement
