-- ===== src/Proto.antt =====
-- The messages of the plugin SDK (grpc/proto) that this code reads and writes, with the fields that
-- it uses. They are data only: the SDK's code is not modelled.
use steampipe_postgres_fdw.Prelude.{ℕ, String, Bool, List, Option}
use steampipe_postgres_fdw.Prelude.GoMap.{GoMap}
use steampipe_postgres_fdw.Prelude.Int.{ℤ}

-- `KeyColumn.require` is a string, which the code compares with three constants.
pub data Require : Type 0 where
  required optional any_of : Require
  other : String → Require

pub record KeyColumn : Type 0 where
  pub name : String
  pub operators : List String
  pub require : Require

-- The key columns of a plugin of a legacy SDK. `all` is nil or a list.
pub record KeyColumnsSet : Type 0 where
  pub single : String
  pub any : List String
  pub all : Option (List String)

pub data ColumnType : Type 0 where
  bool int double string json datetime ipaddr cidr timestamp inet ltree : ColumnType
  unsupported : ℕ → ColumnType

pub data SortOrder : Type 0 where
  order_none order_asc order_desc order_all : SortOrder

pub record ColumnDefinition : Type 0 where
  pub name : String
  pub type : ColumnType
  pub sort_order : SortOrder

-- A slice that the code compares with nil is an `Option`.
pub record TableSchema : Type 0 where
  pub columns : List ColumnDefinition
  pub list_call_key_columns : Option KeyColumnsSet
  pub list_call_optional_key_columns : Option KeyColumnsSet
  pub list_call_key_column_list : Option (List KeyColumn)
  pub get_call_key_column_list : List KeyColumn

pub data SchemaMode : Type 0 where
  static dynamic : SchemaMode
  other_mode : String → SchemaMode

pub record Schema : Type 0 where
  pub mode : SchemaMode
  pub tables : GoMap String TableSchema

-- proto.QualValue. A double is its bit pattern, and a timestamp is seconds and nanoseconds.
-- An entry of a list may be nil.
mutual
  pub data QualValue : Type 0 where
    unset : QualValue
    string_value : String → QualValue
    int64_value : ℤ → QualValue
    double_value : ℕ → QualValue
    bool_value : Bool → QualValue
    inet_value : (mask : ℤ) (addr cidr protocol_version : String) → QualValue
    jsonb_value : String → QualValue
    timestamp_value : (seconds : ℤ) (nanos : ℕ) → QualValue
    list_value : QualValueList → QualValue

  pub data QualValueList : Type 0 where
    end : QualValueList
    null : QualValueList → QualValueList
    item : QualValue → QualValueList → QualValueList

-- A qual whose operator is a string. The value is nil for a comparison with NULL.
pub record Qual : Type 0 where
  pub field_name : String
  pub operator : String
  pub value : Option QualValue
