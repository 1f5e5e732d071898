-- ===== src/Fdw/Commands/Tests.antt =====
-- An insert of one setting.
use steampipe_postgres_fdw.Prelude.{
  if◌then◌else◌, ◌==◌, nat_eq, string_eq, Result, value, fail, String, ◌≡◌, refl, ◌≢◌, Bool, true,
  false, Option, none, some, List, [], ◌∷◌,
}
use steampipe_postgres_fdw.Prelude.Int.{ℤ, pos}
use steampipe_postgres_fdw.Cache.Defs.{CacheSettings, SettingError, Outside}
use steampipe_postgres_fdw.Fdw.Commands.Defs.{Names, Attribute}

differ : (a b : String) → (a == b) ≡ false → a ≢ b
differ a b h p = cc ((string_eq.same_iff a b).1 p, h)

abbrev names : Names
names = record {
  cache_table = "steampipe_cache";
  settings_table = "steampipe_settings";
  key_column = "name";
  value_column = "value";
  tables_differ = differ "steampipe_cache" "steampipe_settings" refl;
  columns_differ = differ "name" "value" refl;
}

abbrev parse_bool : String → Result String Bool
parse_bool text = if text == "false" then value false else value true

abbrev parse_int : String → Result String ℤ
parse_int text = fail "not an int"

abbrev clear_cache : String → Option SettingError
clear_cache c = none

abbrev outside : Outside
outside = record {
  unmarshal_bool = parse_bool;
  unmarshal_int = parse_int;
  clear_connection_cache = clear_cache;
  command_clear = "clear";
  command_on = "on";
  command_off = "off";
  clear_on = differ "clear" "on" refl;
  clear_off = differ "clear" "off" refl;
  on_off = differ "on" "off" refl;
}

abbrev session : CacheSettings
session = record {
  server_cache_enabled = true;
  client_cache_enabled = none;
  ttl = none;
  clear_time = pos 0;
}

abbrev cache_off : List Attribute
cache_off = ("value", some "false") ∷ ("comment", none) ∷ ("name", some "cache") ∷ []
