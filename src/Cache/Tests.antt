-- ===== src/Cache/Tests.antt =====
-- The cache settings of a few sessions.
use steampipe_postgres_fdw.Prelude.{
  if◌then◌else◌, ◌==◌, nat_eq, string_eq, contains, Result, value, fail, ℕ, String, ◌≡◌, refl, ◌≢◌,
  Bool, true, false, Option, none, some, arith,
}
use steampipe_postgres_fdw.Prelude.Int.{ℤ, pos, negsuc, ◌-ℤ◌, ◌≤ℤ◌}
use steampipe_postgres_fdw.Cache.Defs.{
  CacheSettings, SettingError, Outside, set_ttl, handle_legacy_cache_command, cache_ttl,
  configured_ttl, local_cache_enabled,
}
use steampipe_postgres_fdw.Cache.Ttl.{cache_ttl-fresh, set_ttl-negative}
use steampipe_postgres_fdw.Cache.Commands.{legacy_cache_commands}
use steampipe_postgres_fdw.Cache.Local.{local_cache_enabled_loops}

abbrev parse_bool : String → Result String Bool
parse_bool text =
    if text == "true"
    then value true
    else if text == "false"
    then value false
    else fail "not a bool"

abbrev parse_int : String → Result String ℤ
parse_int text =
    if text == "60"
    then value (pos 60)
    else if text == "10000000000"
    then value (pos 10000000000)
    else fail "not an int"

abbrev clear_cache : String → Option SettingError
clear_cache c = none

unequal : (a b : String) → (a == b) ≡ false → a ≢ b
unequal a b h p = cc ((string_eq.same_iff a b).1 p, h)

abbrev outside : Outside
outside = record {
  unmarshal_bool = parse_bool;
  unmarshal_int = parse_int;
  clear_connection_cache = clear_cache;
  command_clear = "clear";
  command_on = "on";
  command_off = "off";
  clear_on = unequal "clear" "on" refl;
  clear_off = unequal "clear" "off" refl;
  on_off = unequal "on" "off" refl;
}

abbrev session : CacheSettings
session = record {
  server_cache_enabled = true;
  client_cache_enabled = none;
  ttl = none;
  clear_time = pos 1000;
}

cache_ttl-fresh_example :
    (pos 1000 ≤ℤ (pos 5000 -ℤ cache_ttl (pos 5000) session))
    × (cache_ttl (pos 5000) session ≤ℤ configured_ttl session)
unfolding configured_ttl
cache_ttl-fresh_example =
    cache_ttl-fresh (pos 5000) session (omega arith, omega arith) (omega arith)

set_ttl-negative_example :
    (m : ℕ) × (set_ttl outside "10000000000" session
      ≡ (none, record session { ttl = some (negsuc m) }))
set_ttl-negative_example =
    set_ttl-negative outside "10000000000" 10000000000 session refl (omega arith) (omega arith)

legacy_cache_commands_example :
    handle_legacy_cache_command outside (pos 7) "off" session
    ≡ (none, record session { clear_time = pos 7 })
unfolding contains
legacy_cache_commands_example = legacy_cache_commands outside (pos 7) "off" session refl

local_cache_enabled_loops_example : local_cache_enabled outside (some "1") 1000 session ≡ none
local_cache_enabled_loops_example =
    local_cache_enabled_loops outside "1" "not a bool" 1000 session refl refl refl
