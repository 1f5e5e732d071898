-- ===== src/Fdw/Commands/Defs.antt =====
-- fdw.go: handleCommandInsert over the settings of the hub.
use steampipe_postgres_fdw.Prelude.{
  if◌then◌else◌, ◌==◌, nat_eq, string_eq, String, ◌≢◌, Option, none, some, List, [], ◌∷◌,
}
use steampipe_postgres_fdw.Prelude.Int.{ℤ}
use steampipe_postgres_fdw.Cache.Defs.{
  CacheSettings, SettingError, Outside, apply, handle_legacy_cache_command,
}

-- The names of the tables and columns, which Go takes for distinct cases.
pub record Names : Type 0 where
  pub cache_table : String
  pub settings_table : String
  pub key_column : String
  pub value_column : String
  pub tables_differ : cache_table ≢ settings_table
  pub columns_differ : key_column ≢ value_column

pub data InsertError : Type 0 where
  setting_failed : SettingError → InsertError
  key_or_value_missing : InsertError

-- An attribute of the slot: its name, and its text if it is not null.
abbrev pub Attribute : Type 0
Attribute = String × Option String

module _ (names : Names) where
  -- The switch that maps an attribute to one of key and value.
  unfoldable pub take_attribute :
      String → String → Option String × Option String → Option String × Option String
  take_attribute name text found =
      if name == names.key_column
      then (some text, found.1)
      else if name == names.value_column
      then (found.0, some text)
      else found

  unfoldable pub scan_attributes :
      List Attribute → Option String × Option String → Option String × Option String
  unfolding take_attribute
  scan_attributes [] found = found
  scan_attributes ((name, none) ∷ attributes) found = scan_attributes attributes found
  scan_attributes ((name, some text) ∷ attributes) found =
      scan_attributes attributes (take_attribute name text found)

  unfoldable pub reported : Option SettingError × CacheSettings → Option InsertError × CacheSettings
  reported (some e, s) = (some (setting_failed e), s)
  reported (none, s) = (none, s)

  unfoldable pub apply_found :
      Outside
      → ℤ
      → Option String
      → Option String
      → CacheSettings
      → Option InsertError × CacheSettings
  unfolding reported
  apply_found out now (some key) (some text) s = reported (apply out now key text s)
  apply_found out now none text s = (some key_or_value_missing, s)
  apply_found out now (some key) none s = (some key_or_value_missing, s)

  -- handleCommandInsert; `operation` is the text of the first column of the slot.
  unfoldable pub handle_command_insert :
      Outside
      → ℤ
      → (table operation : String) → List Attribute
      → CacheSettings
      → Option InsertError × CacheSettings
  unfolding scan_attributes apply_found
  handle_command_insert out now table operation attributes s =
      if table == names.cache_table
      then reported (handle_legacy_cache_command out now operation s)
      else if table == names.settings_table
      then (let found = scan_attributes attributes (none, none) in
          apply_found out now found.0 found.1 s)
      else (none, s)
