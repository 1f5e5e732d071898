-- ===== src/Cache/Commands.antt =====
-- settings/settings.go and hub/hub_base.go: what a setting and a legacy cache command change.
use steampipe_postgres_fdw.Prelude.{
  if◌then◌else◌, Bool-cases, ◌==◌, nat_eq, string_eq, ==_refl, not-==, In, contains, contains→In,
  In→contains, Result, value, fail, String, ◌≡◌, refl, sym, ap, ◌∙◌, subst, inl, inr, Bool, true,
  false, Option, none, some, List, [], ◌∷◌,
}
use steampipe_postgres_fdw.Prelude.Int.{ℤ}
use steampipe_postgres_fdw.Cache.Defs.{
  CacheSettings, SettingError, invalid_command, Outside, apply, set_enabled, set_ttl,
  set_clear_time, enabled_from, ttl_from, validate_cache_command, legacy_command, handle_validated,
  handle_legacy_cache_command,
}

module _ (out : Outside) where
  enabled_from-error :
      (r : Result String Bool) (s : CacheSettings) (e : SettingError)
      → (enabled_from r s).0 ≡ some e
      → (enabled_from r s).1 ≡ s
  unfolding enabled_from
  enabled_from-error (fail f) s e h = refl
  enabled_from-error (value b) s e h = cc

  ttl_from-error :
      (r : Result String ℤ) (s : CacheSettings) (e : SettingError)
      → (ttl_from r s).0 ≡ some e
      → (ttl_from r s).1 ≡ s
  unfolding ttl_from
  ttl_from-error (fail f) s e h = refl
  ttl_from-error (value b) s e h = cc

  abbrev KeepsOnError : Option SettingError × CacheSettings → CacheSettings → SettingError → Type 0
  KeepsOnError r s e = r.0 ≡ some e → r.1 ≡ s

  if-KeepsOnError :
      {s : CacheSettings} {e : SettingError} (b : Bool) (x y : Option SettingError × CacheSettings)
      → KeepsOnError x s e
      → KeepsOnError y s e
      → KeepsOnError (if b then x else y) s e
  if-KeepsOnError true x y f g = f
  if-KeepsOnError false x y f g = g

  -- A setting that Apply returns an error for is not set: whatever the key, the settings stay as
  -- they were.
  pub apply_error :
      (now : ℤ) (key json : String) (s : CacheSettings) (e : SettingError)
      → (apply out now key json s).0 ≡ some e
      → (apply out now key json s).1 ≡ s
  unfolding apply set_enabled set_ttl set_clear_time
  apply_error now key json s e =
      if-KeepsOnError (key == "cache") _ _ (enabled_from-error (out.unmarshal_bool json) s e) (
        if-KeepsOnError (key == "cache_ttl") _ _ (ttl_from-error (out.unmarshal_int json) s e) (
          if-KeepsOnError (key == "cache_clear_time") _ _ (λ h. cc)
            (if-KeepsOnError (key == "connection_cache_clear") _ _ (λ h. refl) (λ h. refl))))

  abbrev names : List String
  names = out.command_clear ∷ out.command_on ∷ out.command_off ∷ []

  validate-known : (command : String) → In command names → validate_cache_command out command ≡ none
  unfolding validate_cache_command
  validate-known command m = rw (In→contains names command m) refl

  validate-unknown :
      (command : String)
      → ¬ In command names
      → validate_cache_command out command ≡ some (invalid_command command)
  unfolding validate_cache_command
  validate-unknown command n = elim (Bool-cases (contains names command)) [
    | inl y ↦ absurd (n (contains→In names command y))
    | inr f ↦ rw f refl
  ]

  handle-known :
      (now : ℤ) (command : String) (s : CacheSettings)
      → In command names
      → handle_legacy_cache_command out now command s ≡ (none, legacy_command out now command s)
  unfolding handle_legacy_cache_command handle_validated
  handle-known now command s m =
      ap (λ o. handle_validated out o now command s) (validate-known command m)

  handle-unknown :
      (now : ℤ) (command : String) (s : CacheSettings)
      → ¬ In command names
      → handle_legacy_cache_command out now command s ≡ (some (invalid_command command), s)
  unfolding handle_legacy_cache_command handle_validated
  handle-unknown now command s n =
      ap (λ o. handle_validated out o now command s) (validate-unknown command n)

  legacy-clear :
      (now : ℤ) (s : CacheSettings)
      → legacy_command out now out.command_clear s ≡ record s { clear_time = now }
  unfolding legacy_command apply set_clear_time
  legacy-clear now s = rw (==_refl out.command_clear) refl

  legacy-on :
      (now : ℤ) (s : CacheSettings)
      → out.unmarshal_bool "true" ≡ value true
      → legacy_command out now out.command_on s ≡ record s { client_cache_enabled = some true }
  unfolding legacy_command apply set_enabled enabled_from
  legacy-on now s t =
      rw
        (
          not-== out.command_on out.command_clear (λ p. out.clear_on (sym p)),
          ==_refl out.command_on,
          t,
        )
        refl

  legacy-off :
      (now : ℤ) (s : CacheSettings)
      → legacy_command out now out.command_off s ≡ record s { clear_time = now }
  unfolding legacy_command apply set_clear_time
  legacy-off now s =
      rw
        (
          not-== out.command_off out.command_clear (λ p. out.clear_off (sym p)),
          not-== out.command_off out.command_on (λ p. out.on_off (sym p)),
          ==_refl out.command_off,
        )
        refl

  legacy-effect :
      (now : ℤ) (command : String) (s : CacheSettings)
      → out.unmarshal_bool "true" ≡ value true
      → In command names
      → legacy_command out now command s ≡ (
          if command == out.command_on
          then record s { client_cache_enabled = some true }
          else record s { clear_time = now })
  legacy-effect now command s t (inl p) =
      subst
        (λ c. legacy_command out now c s ≡ (
          if c == out.command_on
          then record s { client_cache_enabled = some true }
          else record s { clear_time = now }))
        p (legacy-clear now s ∙ rw (not-== out.command_clear out.command_on out.clear_on) refl)
  legacy-effect now command s t (inr (inl p)) =
      subst
        (λ c. legacy_command out now c s ≡ (
          if c == out.command_on
          then record s { client_cache_enabled = some true }
          else record s { clear_time = now }))
        p (legacy-on now s t ∙ rw (==_refl out.command_on) refl)
  legacy-effect now command s t (inr (inr (inl p))) =
      subst
        (λ c. legacy_command out now c s ≡ (
          if c == out.command_on
          then record s { client_cache_enabled = some true }
          else record s { clear_time = now }))
        p
        (legacy-off now s
          ∙ rw (not-== out.command_off out.command_on (λ q. out.on_off (sym q))) refl)
  legacy-effect now command s t (inr (inr (inr h))) = elim h [ ]

  -- HandleLegacyCacheCommand: an unknown command is an error and changes nothing; "on" enables
  -- the cache for the session; the two others set the clear time, and so "off" does not disable
  -- the cache but does what "clear" does. JSON's true is parsed as such.
  pub legacy_cache_commands :
      (now : ℤ) (command : String) (s : CacheSettings)
      → out.unmarshal_bool "true" ≡ value true
      → handle_legacy_cache_command out now command s ≡ (
          if contains (out.command_clear ∷ out.command_on ∷ out.command_off ∷ []) command
          then (
            none,
            if command == out.command_on
                then record s { client_cache_enabled = some true }
                else record s { clear_time = now },
          )
          else (some (invalid_command command), s))
  legacy_cache_commands now command s t = elim (Bool-cases (contains names command)) [
    | inr n ↦ rw n (handle-unknown now command s (λ m. cc (In→contains names command m, n)))
    | inl y ↦ rw y (
        handle-known now command s (contains→In names command y)
        ∙ ap (λ x. (none, x)) (legacy-effect now command s t (contains→In names command y)))
  ]
