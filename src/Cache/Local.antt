-- ===== src/Cache/Local.antt =====
-- hub/hub_local.go: the cache settings that the local hub takes from the environment.
use steampipe_postgres_fdw.Prelude.{
  nat_eq, string_eq, value, fail, ℕ, zero, suc, String, ◌≡◌, refl, ap, ◌∙◌, Bool, true, false, ◌&&◌,
  Option, none, some,
}
use steampipe_postgres_fdw.Cache.Defs.{
  CacheSettings, Outside, set_enabled, enabled_from, enabled_from_variable, local_enabled_answer,
  local_cache_enabled,
}

-- The cache of the session, if it is set.
unfoldable pub client_or : Option Bool → Bool → Bool
client_or (some b) default = b
client_or none default = default

answer-again :
    {again : Option (Bool × CacheSettings)} (server : Bool) (client : Option Bool) (text : String)
    (s : CacheSettings)
    → server ≡ true
    → client ≡ none
    → local_enabled_answer server client (some text) s again ≡ again
unfolding local_enabled_answer
answer-again server client text s on unset = rw (on, unset) refl

answer-unset :
    (server : Bool) (client : Option Bool) (s : CacheSettings)
    (again : Option (Bool × CacheSettings))
    → local_enabled_answer server client none s again ≡ some (server && client_or client true, s)
unfolding local_enabled_answer client_or
answer-unset false client s again = refl
answer-unset true none s again = refl
answer-unset true (some c) s again = refl

abbrev answer_in : Option String → CacheSettings → Option (Bool × CacheSettings)
answer_in variable s =
    local_enabled_answer s.server_cache_enabled s.client_cache_enabled variable s none

module _ (out : Outside) where
  answer-set :
      (server : Bool) (client : Option Bool) (b : Bool) (text : String) (s : CacheSettings)
      → out.unmarshal_bool text ≡ value b
      → s.server_cache_enabled ≡ server
      → (after : CacheSettings) × (local_enabled_answer server client
            (some text)
            s
            (local_cache_enabled out (some text) 1 (enabled_from_variable out (some text) s))
          ≡ some (server && client_or client b, after))
  unfolding local_enabled_answer client_or local_cache_enabled enabled_from_variable set_enabled
      enabled_from
  answer-set false client b text s e q = (s, refl)
  answer-set true (some c) b text s e q = (s, refl)
  answer-set true none b text s e q =
      let set = record s { client_cache_enabled = some b } in
      (
        set,
        ap (λ r. answer_in (some text) (enabled_from r s).1) e
            ∙ ap (λ v. local_enabled_answer v (some b) (some text) set none) q,
      )

  -- If the environment variable of the cache is set to a text that is not a JSON boolean, and
  -- the server cache is on and the session has not set the cache, then cacheEnabled of the local
  -- hub calls itself for ever: no depth of calls is enough for it to return.
  pub local_cache_enabled_loops :
      (text e : String) (fuel : ℕ) (s : CacheSettings)
      → out.unmarshal_bool text ≡ fail e
      → s.server_cache_enabled ≡ true
      → s.client_cache_enabled ≡ none
      → local_cache_enabled out (some text) fuel s ≡ none
  unfolding local_cache_enabled enabled_from_variable set_enabled enabled_from
  local_cache_enabled_loops text e zero s f on unset = refl
  local_cache_enabled_loops text e (suc fuel) s f on unset =
      answer-again s.server_cache_enabled s.client_cache_enabled text s on unset
      ∙ ap (λ r. local_cache_enabled out (some text) fuel (enabled_from r s).1) f
      ∙ local_cache_enabled_loops text e fuel s f on unset

  -- If the environment variable of the cache is unset, or a JSON boolean, cacheEnabled of the
  -- local hub returns within two calls of itself: false if the server cache is off, else what the
  -- session has set, else the value of the variable, else true.
  pub local_cache_enabled_returns :
      (text : String) (b : Bool) (s : CacheSettings)
      → out.unmarshal_bool text ≡ value b
      → ((after : CacheSettings) × (local_cache_enabled out (some text) 2 s
            ≡ some (s.server_cache_enabled && client_or s.client_cache_enabled b, after)))
        × (local_cache_enabled out none 1 s
            ≡ some (s.server_cache_enabled && client_or s.client_cache_enabled true, s))
  unfolding local_cache_enabled enabled_from_variable set_enabled enabled_from
  local_cache_enabled_returns text b s e = (
    answer-set s.server_cache_enabled s.client_cache_enabled b text s e refl,
    answer-unset s.server_cache_enabled s.client_cache_enabled s _,
  )
