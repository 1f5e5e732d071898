-- ===== src/Hub/Local/Sync.antt =====
-- What the plugin of the local hub knows of the connections: the configs that it was told last.
use mathlib.Core.List.{foldl, foldl-append}
use steampipe_postgres_fdw.Prelude.{
  if◌then◌else◌, Bool-cases, Option-cases, ◌==◌, nat_eq, string_eq, ==_iff, ==_refl, In, String,
  ◌≡◌, refl, sym, ap, ◌∙◌, subst, ◌≢◌, inl, inr, Option, none, some, List, [], ◌∷◌, ◌++◌,
}
use steampipe_postgres_fdw.Prelude.GoMap.{
  GoMap, lookup, insert, keys, IsMap, IsMap-insert, lookup-insert, lookup-insert_self, lookup→In,
}
use steampipe_postgres_fdw.Hub.Local.Defs.{
  ConnectionConfig, Request, set_all, update, LocalHub, map_values, config_of, send, option_text,
  set_connection_config, update_connection_config, is_unchanged, write_config,
  process_import_foreign_schema_options,
}

abbrev pub add_configs : List ConnectionConfig → GoMap String String → GoMap String String
add_configs [] m = m
add_configs (c ∷ cs) m = add_configs cs (insert c.connection c.config m)

-- SetAllConnectionConfigs replaces what the plugin has, and UpdateConnectionConfigs adds to it.
abbrev pub told : GoMap String String → Request → GoMap String String
told m (set_all cs) = add_configs cs []
told m (update cs) = add_configs cs m

unfoldable pub plugin_configs : List Request → GoMap String String
plugin_configs requests = foldl told [] requests

abbrev pub config_at : Option ConnectionConfig → Option String
config_at none = none
config_at (some c) = some c.config

-- Each config stands under the name of its connection.
abbrev pub Keyed : GoMap String ConnectionConfig → Type 0
Keyed [] = Unit
Keyed ((name, c) ∷ m) = (c.connection ≡ name) × Keyed m

-- The plugin was told the config of each connection of the hub, and no other.
pub record IsSynced (l : LocalHub) : Type 0 where
  pub is_map : IsMap l.connections
  pub keyed : Keyed l.connections
  pub same :
      (name : String) → lookup name (plugin_configs l.sent) ≡ config_at (lookup name l.connections)

plugin_configs-append :
    (rs : List Request) (r : Request) → plugin_configs (rs ++ r ∷ []) ≡ told (plugin_configs rs) r
unfolding plugin_configs
plugin_configs-append rs r = foldl-append told [] rs (r ∷ [])

Keyed-insert :
    (name config : String) (m : GoMap String ConnectionConfig)
    → Keyed m
    → Keyed (insert name (config_of name config) m)
unfolding insert
Keyed-insert name config [] h = (refl, tt)
Keyed-insert name config ((k, c) ∷ m) h = elim (Bool-cases (k == name)) [
  | inl t ↦ rw t (sym ((==_iff k name).0 t), h.1)
  | inr f ↦ rw f (h.0, Keyed-insert name config m h.1)
]

config_at-insert :
    (name n config : String) (m : GoMap String ConnectionConfig)
    → config_at (lookup n (insert name (config_of name config) m))
      ≡ (if name == n then some config else config_at (lookup n m))
config_at-insert name n config m = elim (Bool-cases (name == n)) [
  | inl t ↦ rw (lookup-insert name n (config_of name config) m, t) refl
  | inr f ↦ rw (lookup-insert name n (config_of name config) m, f) refl
]

abbrev or_else : Option String → Option String → Option String
or_else none o = o
or_else (some x) o = some x

or_nothing : (o : Option String) → or_else o none ≡ o
or_nothing none = refl
or_nothing (some x) = refl

absent :
    (name : String) (m : GoMap String ConnectionConfig) → ¬ In name (keys m) → lookup name m ≡ none
absent name m h = elim (Option-cases (lookup name m)) [
  | inl e ↦ e
  | inr k ↦ absurd (h (lookup→In name k.0 m k.1))
]

lookup-add_configs :
    (n : String) (m : GoMap String ConnectionConfig) (acc : GoMap String String)
    → IsMap m
    → Keyed m
    → lookup n (add_configs (map_values m) acc) ≡ or_else (config_at (lookup n m)) (lookup n acc)
unfolding lookup
lookup-add_configs n [] acc d h = refl
lookup-add_configs n ((k, c) ∷ m) acc d h =
    lookup-add_configs n m (insert c.connection c.config acc) d.1 h.1
    ∙ rw (lookup-insert c.connection n c.config acc, h.0)
        (elim (Bool-cases (k == n)) [
          | inl t ↦
              let gone = absent n m (subst (λ x. ¬ In x (keys m)) ((==_iff k n).0 t) d.0) in
              rw (t, gone) refl
          | inr f ↦ rw f refl
        ])

module _ (answer : Request → Option String) where
  set-IsSynced :
      (connection config : String) (l : LocalHub)
      → IsSynced l
      → IsSynced (set_connection_config answer connection config l).1
  unfolding set_connection_config lookup
  set-IsSynced connection config l y =
      let m = insert connection (config_of connection config) l.connections in
      let is_map = IsMap-insert connection (config_of connection config) l.connections y.is_map in
      let keyed = Keyed-insert connection config l.connections y.keyed in
      record {
        is_map = is_map;
        keyed = keyed;
        same = λ n.
            rw (plugin_configs-append l.sent (set_all (map_values m)))
              (lookup-add_configs n m [] is_map keyed ∙ or_nothing (config_at (lookup n m)));
      }

  sent-IsSynced :
      (connection config : String) (l : LocalHub)
      → IsSynced l
      → IsSynced
          (send answer (update (config_of connection config ∷ [])) (record l {
            connections = insert connection (config_of connection config) l.connections;
          })).1
  unfolding send
  sent-IsSynced connection config l y = record {
    is_map = IsMap-insert connection (config_of connection config) l.connections y.is_map;
    keyed = Keyed-insert connection config l.connections y.keyed;
    same = λ n.
        rw
          (
            plugin_configs-append l.sent (update (config_of connection config ∷ [])),
            lookup-insert connection n config (plugin_configs l.sent),
            y.same n,
          )
          (sym (config_at-insert connection n config l.connections));
  }

  update-IsSynced :
      (connection config : String) (l : LocalHub)
      → IsSynced l
      → IsSynced (update_connection_config answer connection config l).1
  unfolding update_connection_config
  update-IsSynced connection config l y =
      elim (Bool-cases (is_unchanged answer (lookup connection l.connections) config)) [
        | inl t ↦ rw t y
        | inr f ↦ rw f (sent-IsSynced connection config l y)
      ]

  -- SetConnectionConfig and UpdateConnectionConfig keep the plugin in step with the hub: it was
  -- last told the config of each connection that the hub has, and of no other.
  pub set_update-IsSynced :
      (connection config : String) (l : LocalHub)
      → IsSynced l
      → IsSynced (set_connection_config answer connection config l).1
        × IsSynced (update_connection_config answer connection config l).1
  set_update-IsSynced connection config l y =
      (set-IsSynced connection config l y, update-IsSynced connection config l y)

  written_update :
      (connection config : String) (c : ConnectionConfig) (l : LocalHub)
      → update_connection_config answer connection config
          (write_config answer connection config c l)
        ≡ (none, write_config answer connection config c l)
  unfolding update_connection_config write_config
  written_update connection config c l =
      rw
        (lookup-insert_self connection (record c { config = config }) l.connections, ==_refl config)
        refl

  -- The import options of a connection that the hub has already are never sent to the plugin: the
  -- hub writes the new config through its pointer, finds it unchanged, and reports no error. If the
  -- config differs from the old one, the plugin is left with the old one.
  pub options_not_sent :
      (connection : String) (opts : GoMap String String) (c : ConnectionConfig) (l : LocalHub)
      → IsSynced l
      → lookup connection l.connections ≡ some c
      → c.config ≢ option_text (lookup "config" opts)
      → ((process_import_foreign_schema_options answer opts connection l).0 ≡ none)
        × ((process_import_foreign_schema_options answer opts connection l).1.sent ≡ l.sent)
        × (config_at (
              lookup connection
                (process_import_foreign_schema_options answer opts connection l).1.connections)
            ≡ some (option_text (lookup "config" opts)))
        × (lookup connection (
              plugin_configs
                (process_import_foreign_schema_options answer opts connection l).1.sent)
            ≡ some c.config)
        × ¬ IsSynced (process_import_foreign_schema_options answer opts connection l).1
  unfolding process_import_foreign_schema_options write_config
  options_not_sent connection opts c l y e ne =
      let new = option_text (lookup "config" opts) in
      let after = write_config answer connection new c l in
      let done : process_import_foreign_schema_options answer opts connection l ≡ (none, after) =
        rw e (written_update connection new c l) in
      let stored : config_at (lookup connection after.connections) ≡ some new =
        ap config_at (lookup-insert_self connection (record c { config = new }) l.connections) in
      let old : lookup connection (plugin_configs l.sent) ≡ some c.config =
        y.same connection ∙ ap config_at e in
      subst
        (λ r.
          (r.0 ≡ none)
          × (r.1.sent ≡ l.sent)
          × (config_at (lookup connection r.1.connections) ≡ some new)
          × (lookup connection (plugin_configs r.1.sent) ≡ some c.config)
          × ¬ IsSynced r.1)
        (sym done) (refl, refl, stored, old, λ z. ne (cc (z.same connection, stored, old)))
