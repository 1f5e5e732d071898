-- ===== src/Cache/Defs.antt =====
-- settings/settings.go and settings/setter_func.go, and the functions of the hubs that read and
-- apply the settings. Times and durations are nanoseconds; `now` is the clock.
use steampipe_postgres_fdw.Prelude.{
  ltb, if◌then◌else◌, ◌==◌, nat_eq, string_eq, contains, Result, value, fail, ℕ, zero, suc, ◌-◌,
  ◌*◌, ◌%◌, String, ◌≢◌, Bool, true, false, not, Option, none, some, [], ◌∷◌,
}
use steampipe_postgres_fdw.Prelude.Int.{ℤ, pos, negsuc, ◌+ℤ◌, ◌+ℤ◌, ◌-ℤ◌, ltb_ℤ}

abbrev pub second : ℕ
second = 1000000000

-- The values of a 64-bit word, and the first that is negative.
abbrev pub word : ℕ
word = 18446744073709551616

abbrev pub half_word : ℕ
half_word = 9223372036854775808

-- An int64 from its word.
unfoldable pub signed : ℕ → ℤ
signed m = if ltb m half_word then pos m else negsuc (word - m - 1)

unfoldable pub wrap : ℤ → ℤ
unfolding signed
wrap (pos n) = signed (n % word)
wrap (negsuc n) = signed (word - 1 - n % word)

-- time.Duration(n) * time.Second
unfoldable pub duration_seconds : ℤ → ℤ
unfolding wrap
duration_seconds (pos n) = wrap (pos (n * second))
duration_seconds (negsuc n) = wrap (negsuc (suc n * second - 1))

pub record CacheSettings : Type 0 where
  pub server_cache_enabled : Bool
  pub client_cache_enabled : Option Bool
  pub ttl : Option ℤ
  pub clear_time : ℤ

unfoldable pub new_cache_settings : (zero_time : ℤ) → Bool → CacheSettings
new_cache_settings zero_time enabled = record {
  server_cache_enabled = enabled;
  client_cache_enabled = none;
  ttl = none;
  clear_time = zero_time;
}

-- What Apply and the cache commands fail with.
pub data SettingError : Type 0 where
  bad_json : String → SettingError
  plugin_error : String → SettingError
  invalid_command : String → SettingError

-- A setter returns an error, or none, and leaves the settings.
abbrev pub Setter : Type 0
Setter = String → CacheSettings → Option SettingError × CacheSettings

-- json.Unmarshal into a bool and an int, the plugin's clearConnectionCache, and the names of the
-- legacy cache commands, which Go takes for distinct cases.
pub record Outside : Type 0 where
  pub unmarshal_bool : String → Result String Bool
  pub unmarshal_int : String → Result String ℤ
  pub clear_connection_cache : String → Option SettingError
  pub command_clear : String
  pub command_on : String
  pub command_off : String
  pub clear_on : command_clear ≢ command_on
  pub clear_off : command_clear ≢ command_off
  pub on_off : command_on ≢ command_off

unfoldable pub enabled_from :
    Result String Bool → CacheSettings → Option SettingError × CacheSettings
enabled_from (fail e) s = (some (bad_json e), s)
enabled_from (value enable) s = (none, record s { client_cache_enabled = some enable })

unfoldable pub ttl_from : Result String ℤ → CacheSettings → Option SettingError × CacheSettings
unfolding duration_seconds
ttl_from (fail e) s = (some (bad_json e), s)
ttl_from (value seconds) s = (none, record s { ttl = some (duration_seconds seconds) })

-- HubLocal.cacheEnabled, with what its call of itself returns in `again`.
unfoldable pub local_enabled_answer :
    (server : Bool) (client : Option Bool) (variable : Option String) (s : CacheSettings)
    → Option (Bool × CacheSettings)
    → Option (Bool × CacheSettings)
local_enabled_answer false client variable s again = some (false, s)
local_enabled_answer true (some enabled) variable s again = some (enabled, s)
local_enabled_answer true none none s again = some (true, s)
local_enabled_answer true none (some text) s again = again

-- HubLocal.cacheTTL, in the same way.
unfoldable pub local_ttl_answer :
    (ttl : Option ℤ) (variable : Option String) (s : CacheSettings)
    → Option (ℤ × CacheSettings)
    → Option (ℤ × CacheSettings)
local_ttl_answer (some ttl) variable s again = some (ttl, s)
local_ttl_answer none none s again = some (pos (36000 * second), s)
local_ttl_answer none (some text) s again = again

module _ (out : Outside) where
  unfoldable pub set_enabled : Setter
  unfolding enabled_from
  set_enabled json s = enabled_from (out.unmarshal_bool json) s

  unfoldable pub set_ttl : Setter
  unfolding ttl_from
  set_ttl json s = ttl_from (out.unmarshal_int json) s

  unfoldable pub set_clear_time : (now : ℤ) → Setter
  set_clear_time now json s = (none, record s { clear_time = now })

  -- Apply, with the map of setters as its cases. An unknown key is logged and ignored.
  unfoldable pub apply : (now : ℤ) → String → Setter
  unfolding set_enabled set_ttl set_clear_time
  apply now key json s =
      if key == "cache"
      then set_enabled json s
      else if key == "cache_ttl"
      then set_ttl json s
      else if key == "cache_clear_time"
      then set_clear_time now json s
      else if key == "connection_cache_clear"
      then (out.clear_connection_cache json, s)
      else (none, s)

  -- hubBase.ValidateCacheCommand
  unfoldable pub validate_cache_command : String → Option SettingError
  unfolding contains
  validate_cache_command command =
      if not (contains (out.command_clear ∷ out.command_on ∷ out.command_off ∷ []) command)
      then some (invalid_command command)
      else none

  -- The switch of HandleLegacyCacheCommand, which drops the error of Apply.
  unfoldable pub legacy_command : (now : ℤ) → String → CacheSettings → CacheSettings
  unfolding apply
  legacy_command now command s =
      if command == out.command_clear
      then (apply now "cache_clear_time" "" s).1
      else if command == out.command_on
      then (apply now "cache" "true" s).1
      else if command == out.command_off
      then (apply now "cache_clear_time" "false" s).1
      else s

  unfoldable pub handle_validated :
      Option SettingError → (now : ℤ) → String → CacheSettings → Option SettingError × CacheSettings
  unfolding legacy_command
  handle_validated (some e) now command s = (some e, s)
  handle_validated none now command s = (none, legacy_command now command s)

  -- hubBase.HandleLegacyCacheCommand
  unfoldable pub handle_legacy_cache_command :
      (now : ℤ) → String → CacheSettings → Option SettingError × CacheSettings
  unfolding validate_cache_command handle_validated
  handle_legacy_cache_command now command s =
      handle_validated (validate_cache_command command) now command s

  -- The value of the environment variable is set, and an error of that is dropped.
  unfoldable pub enabled_from_variable : Option String → CacheSettings → CacheSettings
  unfolding set_enabled
  enabled_from_variable none s = s
  enabled_from_variable (some text) s = (set_enabled text s).1

  unfoldable pub ttl_from_variable : Option String → CacheSettings → CacheSettings
  unfolding set_ttl
  ttl_from_variable none s = s
  ttl_from_variable (some text) s = (set_ttl text s).1

  -- The fuel is the depth of the calls, and none is a call that has not returned yet.
  unfoldable pub local_cache_enabled :
      (variable : Option String) → ℕ → CacheSettings → Option (Bool × CacheSettings)
  unfolding enabled_from_variable local_enabled_answer
  local_cache_enabled variable zero s = none
  local_cache_enabled variable (suc fuel) s =
      let again = local_cache_enabled variable fuel (enabled_from_variable variable s) in
      local_enabled_answer s.server_cache_enabled s.client_cache_enabled variable s again

  unfoldable pub local_cache_ttl :
      (variable : Option String) → ℕ → CacheSettings → Option (ℤ × CacheSettings)
  unfolding ttl_from_variable local_ttl_answer
  local_cache_ttl variable zero s = none
  local_cache_ttl variable (suc fuel) s =
      let again = local_cache_ttl variable fuel (ttl_from_variable variable s) in
      local_ttl_answer s.ttl variable s again

-- RemoteHub.cacheEnabled
unfoldable pub cache_enabled : CacheSettings → Bool
cache_enabled s =
    if not s.server_cache_enabled
    then false
    else elim s.client_cache_enabled [ some enabled ↦ enabled | none ↦ true ]

-- The ttl of the settings, or five minutes.
unfoldable pub configured_ttl : CacheSettings → ℤ
configured_ttl s = elim s.ttl [ some ttl ↦ ttl | none ↦ pos (300 * second) ]

-- -ttl, in 64 bits.
unfoldable pub negated : ℤ → ℤ
unfolding wrap ◌-ℤ◌
negated d = wrap (pos 0 -ℤ d)

-- What Sub of two times gives for their distance: the nearest duration.
unfoldable pub saturated : ℤ → ℤ
saturated d =
    if ltb_ℤ (pos (half_word - 1)) d
    then pos (half_word - 1)
    else if ltb_ℤ d (negsuc (half_word - 1))
    then negsuc (half_word - 1)
    else d

-- RemoteHub.cacheTTL
unfoldable pub cache_ttl : (now : ℤ) → CacheSettings → ℤ
unfolding configured_ttl negated saturated
cache_ttl now s =
    let ttl = configured_ttl s in
    if ltb_ℤ (now +ℤ negated ttl) s.clear_time then saturated (now -ℤ s.clear_time) else ttl
