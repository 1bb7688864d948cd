-- ===== src/Planner/Plan.antt =====
-- src/planner/plan.rs: logical plans. The list of a `cte` is a type of its own.
use sql.Common.{ℕ, List, Bool, Option}
use sql.Common.Bytes.{Bytes}
use sql.Parser.Ast.{
  Expr, Exprs, MaybeExpr, SelectItems, OrderItems, CreateTableStmt, CreateIndexStmt, AlterTableStmt,
  CreateViewStmt, CreateTriggerStmt,
}

pub data PlanJoinKind : Type 0 where
  inner left cross : PlanJoinKind

pub data TransactionOp : Type 0 where
  begin commit rollback : TransactionOp

pub data SetOp : Type 0 where
  union union_all : SetOp

pub data InsertSource : Type 0 where
  values : List (List Expr) → InsertSource

mutual
  pub data Plan : Type 0 where
    seq_scan : (table : Bytes) (alias : Option Bytes) (filter : MaybeExpr) → Plan
    index_scan : (table : Bytes) (alias : Option Bytes) (column : Bytes) (value : Expr) → Plan
    projection : (input : Plan) (columns : SelectItems) → Plan
    filter : (input : Plan) (expr : Expr) → Plan
    sort : (input : Plan) (keys : OrderItems) → Plan
    limit : (input : Plan) (limit : Option ℕ) (offset : ℕ) → Plan
    join : (left right : Plan) (condition : MaybeExpr) (kind : PlanJoinKind) → Plan
    aggregate :
        (input : Plan) (group_by : Exprs) (having : MaybeExpr) (outputs : SelectItems) → Plan
    distinct : (input : Plan) → Plan
    insert :
        (table : Bytes) (columns : List Bytes) (source : InsertSource) (default_values : Bool)
        → Plan
    update : (table : Bytes) (input : Plan) (sets : List (Bytes × Expr)) → Plan
    delete : (table : Bytes) (input : Plan) → Plan
    create_table : CreateTableStmt → Plan
    drop_table : (name : Bytes) (if_exists : Bool) → Plan
    create_index : CreateIndexStmt → Plan
    drop_index : (name : Bytes) (if_exists : Bool) → Plan
    alter_table : AlterTableStmt → Plan
    pragma : (name : Bytes) (value : MaybeExpr) → Plan
    explain : (inner : Plan) → Plan
    create_view : CreateViewStmt → Plan
    drop_view : (name : Bytes) (if_exists : Bool) → Plan
    create_trigger : CreateTriggerStmt → Plan
    drop_trigger : (name : Bytes) (if_exists : Bool) → Plan
    reindex : (name : Option Bytes) → Plan
    analyze : (name : Option Bytes) → Plan
    subquery_scan : (query : Plan) (alias : Bytes) → Plan
    cte : (definitions : CtePlans) (query : Plan) → Plan
    set_operation : (left right : Plan) (op : SetOp) → Plan
    transaction : TransactionOp → Plan
    attach : (path alias : Bytes) → Plan
    detach : (alias : Bytes) → Plan
    vacuum : Plan

  pub data CtePlans : Type 0 where
    no_plans : CtePlans
    cons_plan : (name : Bytes) (plan : Plan) → CtePlans → CtePlans
