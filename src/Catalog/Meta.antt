-- ===== src/Catalog/Meta.antt =====
-- src/catalog/meta.rs: the descriptions of tables, indexes, views and triggers, and the bytes in
-- which tables and triggers are stored. A step that panics in the source gives `none`.
pub mod Encode
pub mod Decode
pub mod Strings
pub mod Tables
pub mod Triggers
use sql.Common.{ℕ, List, Bool, Option, none, false}
use sql.Common.Bytes.{Bytes}
use sql.Table.Schema.{Schema}

pub record TableMeta (Expr : Type 0) : Type 0 where
  pub name : Bytes
  pub schema : Schema Expr
  pub root_page : ℕ
  pub row_count : ℕ
  pub autoinc_last : ℕ

pub record IndexMeta : Type 0 where
  pub name : Bytes
  pub table : Bytes
  pub columns : List Bytes
  pub unique : Bool

pub record ViewMeta : Type 0 where
  pub name : Bytes
  pub query : Bytes

pub data TriggerTiming : Type 0 where
  before after instead_of : TriggerTiming

pub data TriggerEvent : Type 0 where
  delete : TriggerEvent
  insert : TriggerEvent
  update : Option (List Bytes) → TriggerEvent

pub record TriggerMeta : Type 0 where
  pub name : Bytes
  pub table : Bytes
  pub timing : TriggerTiming
  pub event : TriggerEvent
  pub for_each_row : Bool
  pub when : Option Bytes
  pub body : Bytes

unfoldable pub table_meta : {Expr : Type 0} → Bytes → Schema Expr → ℕ → TableMeta Expr
table_meta name schema root_page = record {
  name = name;
  schema = schema;
  root_page = root_page;
  row_count = 0;
  autoinc_last = 0;
}
