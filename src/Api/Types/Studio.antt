-- ===== src/Api/Types/Studio.antt =====
-- The types of apps/web/src/lib/api.ts for the database studio.
use vexdock.Base.{Bool, Option, List}
use vexdock.Text.{Text}
use vexdock.Api.Call.{Number}

pub record DatabaseConnection : Type 0 where
  pub engine : Text
  pub image : Text
  pub host : Text
  pub port : Number
  pub database : Text
  pub user : Text
  pub password : Text
  pub url : Text
  pub node : Text
  pub replication_url : Text
  pub name : Text
  pub versions : List Text
  pub data_volume : Text

abbrev pub StudioCell : Type 0
StudioCell = Option Text

pub record StudioColumn : Type 0 where
  pub name : Text
  pub kind : Text
  pub nullable : Bool
  pub primary_key : Bool
  pub read_only : Bool

pub record StudioTable : Type 0 where
  pub name : Text
  pub view : Bool
  pub columns : List StudioColumn

pub record StudioSchema : Type 0 where
  pub name : Text
  pub tables : List StudioTable

pub data StudioFilterOp : Type 0 where
  is_eq neq gt gte lt lte contains starts_with is_null is_not_null : StudioFilterOp

pub record StudioFilter : Type 0 where
  pub column : Text
  pub op : StudioFilterOp
  pub value : Text

pub data StudioOrder : Type 0 where
  asc desc : StudioOrder

pub record StudioRowsQuery : Type 0 where
  pub schema : Text
  pub table : Text
  pub limit : Option Number
  pub offset : Option Number
  pub sort : Option Text
  pub order : Option StudioOrder
  pub conditions : Option (List StudioFilter)

pub record StudioRows : Type 0 where
  pub columns : List StudioColumn
  pub key : List Text
  pub rows : List (List StudioCell)
  pub total : Number
  pub truncated : Bool

abbrev pub StudioValues : Type 0
StudioValues = List (Text × StudioCell)

pub record StudioUpdate : Type 0 where
  pub key : List (Text × Text)
  pub values : StudioValues

pub record StudioDelete : Type 0 where
  pub key : List (Text × Text)

pub record StudioChanges : Type 0 where
  pub schema : Text
  pub table : Text
  pub updates : Option (List StudioUpdate)
  pub inserts : Option (List StudioValues)
  pub deletes : Option (List StudioDelete)

pub record StudioResult : Type 0 where
  pub columns : List Text
  pub rows : List (List StudioCell)
  pub affected : Number
  pub duration_ms : Number
  pub truncated : Bool
