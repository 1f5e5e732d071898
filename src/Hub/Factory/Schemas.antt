-- ===== src/Hub/Factory/Schemas.antt =====
-- getSchema of hub/connection_factory.go, and GetSchema of the remote hub, which only calls it.
use steampipe_postgres_fdw.Prelude.{
  Option-cases, nat_eq, string_eq, In, Go, ok, panic, Result, value, fail, String, ◌≡◌, refl, ap,
  ◌∙◌, inl, inr, false, Option, none, some,
}
use steampipe_postgres_fdw.Prelude.GoMap.{GoMap, keys, lookup, In→lookup}
use steampipe_postgres_fdw.Proto.{Schema}
use steampipe_postgres_fdw.Hub.Factory.Defs.{
  connection_plugin_key, ConnectionPlugin, FactoryError, Factory, Steampipe, if_running, get,
  got_or, create_connection_plugin, get_or_create,
}
use steampipe_postgres_fdw.Hub.Factory.Reuse.{get-created}

pub data SchemaError : Type 0 where
  no_plugin : FactoryError → SchemaError
  refetch_failed : String → SchemaError

unfoldable pub refetched : Result String Schema → Result SchemaError Schema
refetched (value s) = value s
refetched (fail e) = fail (refetch_failed e)

-- c.ConnectionMap[connectionName].Schema: a connection that is not in the map is a nil pointer.
unfoldable pub schema_of : Option Schema → Go (Result SchemaError Schema)
schema_of (some s) = ok (value s)
schema_of none = panic

unfoldable pub created_schema :
    String → Result FactoryError ConnectionPlugin → Go (Result SchemaError Schema)
unfolding schema_of lookup
created_schema name (fail e) = ok (fail (no_plugin e))
created_schema name (value c) = schema_of (lookup name c.connection_map)

-- `refetch` is GetSchema of a connection plugin.
module _ (sp : Steampipe) (refetch : ConnectionPlugin → String → Result String Schema) where
  unfoldable pub known_schema :
      String
      → Option ConnectionPlugin
      → Factory
      → Result FactoryError ConnectionPlugin × Factory
      → Go (Result SchemaError Schema) × Factory
  unfolding refetched created_schema
  known_schema name (some c) f created = (ok (refetched (refetch c name)), f)
  known_schema name none f created = (created_schema name created.0, created.1)

  unfoldable pub get_connection_schema :
      (plugin_fqn connection_name : String) → Factory → Go (Result SchemaError Schema) × Factory
  unfolding known_schema get create_connection_plugin
  get_connection_schema plugin_fqn connection_name f =
      known_schema connection_name (get sp plugin_fqn connection_name f) f
        (create_connection_plugin sp plugin_fqn connection_name f)

  same_factory :
      (name : String) (o : Option ConnectionPlugin) (f : Factory)
      (created : Result FactoryError ConnectionPlugin × Factory)
      → (known_schema name o f created).1 ≡ (got_or sp o f created).1
  unfolding known_schema got_or
  same_factory name (some c) f created = refl
  same_factory name none f created = refl

  -- getSchema leaves the plugins as getOrCreate does.
  pub get_connection_schema-get_or_create :
      (fqn name : String) (f : Factory)
      → (get_connection_schema fqn name f).1 ≡ (get_or_create sp fqn name f).1
  unfolding get_connection_schema get_or_create
  get_connection_schema-get_or_create fqn name f =
      same_factory name (get sp fqn name f) f (create_connection_plugin sp fqn name f)

-- The schema of a connection that is in the map of a plugin.
connected :
    (name : String) (m : GoMap String Schema)
    → In name (keys m)
    → (s : Schema) × (lookup name m ≡ some s)
connected name m h = elim (Option-cases (lookup name m)) [
  | inl e ↦ absurd (In→lookup name m h e)
  | inr s ↦ s
]

-- A connection is not in the map, and createConnectionPlugin makes a plugin of the right name that
-- serves it. Then getSchema returns the schema that came with the plugin, and later ones, while the
-- plugin runs, what its GetSchema returns then, and leave the map as it is.
pub get_schema_twice :
    (sp later : Steampipe) (refetch : ConnectionPlugin → String → Result String Schema)
    (name : String) (f g : Factory) (p : ConnectionPlugin)
    → create_connection_plugin sp p.plugin_name name f ≡ (value p, g)
    → In name (keys p.connection_map)
    → lookup (connection_plugin_key p.plugin_name name) f ≡ none
    → later.exited p.client ≡ false
    → ((s : Schema) × (lookup name p.connection_map ≡ some s)
        × (get_connection_schema sp refetch p.plugin_name name f ≡ (ok (value s), g)))
      × (get_connection_schema later refetch p.plugin_name name g
          ≡ (ok (refetched (refetch p name)), g))
unfolding get_connection_schema known_schema created_schema get if_running
get_schema_twice sp later refetch name f g p e m n x =
    let s = connected name p.connection_map m in
    (
      (
        s.0,
        s.1,
        ap
              (λ o.
                known_schema sp refetch name (if_running sp o) f
                  (create_connection_plugin sp p.plugin_name name f))
              n
            ∙ ap (λ c. (created_schema name c.0, c.1)) e
            ∙ ap (λ o. (schema_of o, g)) s.1,
      ),
      ap
          (λ o.
            known_schema later refetch name o g
              (create_connection_plugin later p.plugin_name name g))
          (get-created sp later name f g p e m n x),
    )
