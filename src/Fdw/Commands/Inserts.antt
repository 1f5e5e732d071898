-- ===== src/Fdw/Commands/Inserts.antt =====
-- fdw.go: an insert into the settings table applies the setting that its columns name.
use steampipe_postgres_fdw.Prelude.{
  if◌then◌else◌, Bool-cases, ◌==◌, nat_eq, string_eq, ==_iff, ==_refl, not-==, String, ◌≡◌, refl,
  sym, ap, ◌∙◌, inl, inr, Option, none, some, List, [], ◌∷◌,
}
use steampipe_postgres_fdw.Prelude.Int.{ℤ}
use steampipe_postgres_fdw.Cache.Defs.{CacheSettings, Outside}
use steampipe_postgres_fdw.Fdw.Commands.Defs.{
  Names, Attribute, take_attribute, scan_attributes, apply_found, handle_command_insert,
}

-- The last text of the column `name`, or what was found before.
unfoldable pub last_text : String → List Attribute → Option String → Option String
last_text name [] found = found
last_text name ((n, none) ∷ attributes) found = last_text name attributes found
last_text name ((n, some text) ∷ attributes) found =
    last_text name attributes (if n == name then some text else found)

module _ (names : Names) where
  scan_attributes-last_text :
      (attributes : List Attribute) (key text : Option String)
      → scan_attributes names attributes (key, text)
        ≡ (last_text names.key_column attributes key, last_text names.value_column attributes text)
  unfolding scan_attributes last_text take_attribute
  scan_attributes-last_text [] key text = refl
  scan_attributes-last_text ((n, none) ∷ attributes) key text =
      scan_attributes-last_text attributes key text
  scan_attributes-last_text ((n, some t) ∷ attributes) key text =
      elim (Bool-cases (n == names.key_column)) [
        | inl y ↦
            rw
              (
                y,
                not-== n names.value_column
                    (λ p. names.columns_differ (sym ((==_iff n names.key_column).0 y) ∙ p)),
              )
              (scan_attributes-last_text attributes (some t) text)
        | inr m ↦ elim (Bool-cases (n == names.value_column)) [
          | inl y ↦ rw (m, y) (scan_attributes-last_text attributes key (some t))
          | inr z ↦ rw (m, z) (scan_attributes-last_text attributes key text)
        ]
      ]

  -- An insert into the settings table applies the setting whose key and value are the last texts
  -- of the key and of the value column that are not null, wherever they stand in the row, and is
  -- an error that changes nothing if one of them is missing.
  pub insert_setting :
      (out : Outside) (now : ℤ) (operation : String) (attributes : List Attribute)
      (s : CacheSettings)
      → handle_command_insert names out now names.settings_table operation attributes s
        ≡ apply_found names out now
            (last_text names.key_column attributes none)
            (last_text names.value_column attributes none)
            s
  unfolding handle_command_insert
  insert_setting out now operation attributes s =
      rw
        (
          not-== names.settings_table names.cache_table (λ p. names.tables_differ (sym p)),
          ==_refl names.settings_table,
        )
        (ap (λ f. apply_found names out now f.0 f.1 s)
          (scan_attributes-last_text attributes none none))
