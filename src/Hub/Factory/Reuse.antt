-- ===== src/Hub/Factory/Reuse.antt =====
-- hub/connection_factory.go: which plugins are found again, and which are made anew each time.
use steampipe_postgres_fdw.Prelude.{
  Bool-cases, Option-cases, ◌==◌, nat_eq, string_eq, ==_iff, In, Result, value, fail,
  value_injective, String, ◌≡◌, refl, sym, ap, ◌∙◌, subst, inl, inr, true, false, Option, none,
  some, List, [], ◌∷◌,
}
use steampipe_postgres_fdw.Prelude.GoMap.{
  GoMap, lookup, insert, keys, lookup-insert_self, lookup-insert_other,
}
use steampipe_postgres_fdw.Proto.{Schema}
use steampipe_postgres_fdw.Hub.Factory.Defs.{
  connection_plugin_key, ConnectionPlugin, FactoryError, Factory, Steampipe, add_connections, add,
  if_running, get, connection_config, add_created, from_created, from_config,
  create_connection_plugin, got_or, get_or_create,
}

-- The entry of a key that is there stays.
add_connections-keeps :
    (p : ConnectionPlugin) (l : GoMap String Schema) (f : Factory) (k : String)
    (old : ConnectionPlugin)
    → lookup k f ≡ some old
    → lookup k (add_connections p l f) ≡ some old
unfolding add_connections
add_connections-keeps p [] f k old e = e
add_connections-keeps p ((c, s) ∷ l) f k old e =
    elim (Option-cases (lookup (connection_plugin_key p.plugin_name c) f)) [
      | inr o ↦ rw (o.1, add_connections) (add_connections-keeps p l f k old e)
      | inl n ↦
          rw (n, add_connections)
            (add_connections-keeps p l _ k old (
              lookup-insert_other (connection_plugin_key p.plugin_name c) k p f (λ q. cc (q, n, e))
              ∙ e))
    ]

-- A key of the plugin that is not there is added.
add_connections-adds :
    (p : ConnectionPlugin) (l : GoMap String Schema) (f : Factory) (c : String)
    → In c (keys l)
    → lookup (connection_plugin_key p.plugin_name c) f ≡ none
    → lookup (connection_plugin_key p.plugin_name c) (add_connections p l f) ≡ some p
unfolding add_connections
add_connections-adds p [] f c m n = elim m [ ]
add_connections-adds p ((d, s) ∷ l) f c (inl e) n =
    let key = connection_plugin_key p.plugin_name in
    rw (subst (λ x. lookup (key x) f ≡ none) (sym e) n, add_connections)
      (add_connections-keeps p l _ (key c) p (
        subst (λ x. lookup (key c) (insert (key x) p f) ≡ some p) (sym e)
          (lookup-insert_self (key c) p f)))
add_connections-adds p ((d, s) ∷ l) f c (inr m) n =
    let key = connection_plugin_key p.plugin_name in
    elim (Option-cases (lookup (key d) f)) [
      | inr o ↦ rw (o.1, add_connections) (add_connections-adds p l f c m n)
      | inl z ↦
          rw (z, add_connections)
            (elim (Bool-cases (key d == key c)) [
              | inl y ↦ add_connections-keeps p l _ (key c) p (
                  subst (λ x. lookup x (insert (key d) p f) ≡ some p) ((==_iff (key d) (key c)).0 y)
                    (lookup-insert_self (key d) p f))
              | inr w ↦ add_connections-adds p l _ c m (
                  lookup-insert_other (key d) (key c) p f
                    (λ q. cc ((==_iff (key d) (key c)).1 q, w))
                  ∙ n)
            ])
    ]

-- What an operation may do to the map: add plugins.
abbrev Grows : Factory → Factory → Type 0
Grows f g = (k : String) (old : ConnectionPlugin) → lookup k f ≡ some old → lookup k g ≡ some old

add-Grows : (p : ConnectionPlugin) (f : Factory) → Grows f (add p f)
unfolding add
add-Grows p f k old e = add_connections-keeps p p.connection_map f k old e

module _ (sp : Steampipe) where
  add_created-Grows :
      (name : String) (o : Option ConnectionPlugin) (f : Factory)
      → Grows f (add_created sp name o f).1
  unfolding add_created
  add_created-Grows name none f k old e = e
  add_created-Grows name (some p) f k old e = add-Grows p f k old e

  from_created-Grows :
      (name : String) (r : Result String (GoMap String ConnectionPlugin)) (f : Factory)
      → Grows f (from_created sp name r f).1
  unfolding from_created
  from_created-Grows name (fail x) f k old e = e
  from_created-Grows name (value plugins) f k old e =
      add_created-Grows name (lookup name plugins) f k old e

  from_config-Grows :
      (r : Result FactoryError String) (f : Factory) → Grows f (from_config sp r f).1
  unfolding from_config
  from_config-Grows (fail x) f k old e = e
  from_config-Grows (value name) f k old e =
      from_created-Grows name (sp.create_plugins name) f k old e

  got_or-Grows :
      (o : Option ConnectionPlugin) (f : Factory)
      (c : Result FactoryError ConnectionPlugin × Factory)
      → Grows f c.1
      → Grows f (got_or sp o f c).1
  unfolding got_or
  got_or-Grows none f c h k old e = h k old e
  got_or-Grows (some p) f c h k old e = e

  get_or_create-Grows : (fqn name : String) (f : Factory) → Grows f (get_or_create sp fqn name f).1
  unfolding get_or_create create_connection_plugin
  get_or_create-Grows fqn name f =
      got_or-Grows (get sp fqn name f) f _ (from_config-Grows (connection_config sp name) f)

  add_created-added :
      (name : String) (o : Option ConnectionPlugin) (f g : Factory) (p : ConnectionPlugin)
      → add_created sp name o f ≡ (value p, g)
      → g ≡ add p f
  unfolding add_created
  add_created-added name none f g p e = cc (ap (λ x. x.0) e)
  add_created-added name (some q) f g p e =
      sym (ap (λ x. x.1) e) ∙ ap (λ x. add x f) (value_injective (ap (λ x. x.0) e))

  from_created-added :
      (name : String) (r : Result String (GoMap String ConnectionPlugin)) (f g : Factory)
      (p : ConnectionPlugin)
      → from_created sp name r f ≡ (value p, g)
      → g ≡ add p f
  unfolding from_created
  from_created-added name (fail x) f g p e = cc (ap (λ x. x.0) e)
  from_created-added name (value plugins) f g p e =
      add_created-added name (lookup name plugins) f g p e

  -- A plugin that was created went into the map.
  created-added :
      (r : Result FactoryError String) (f g : Factory) (p : ConnectionPlugin)
      → from_config sp r f ≡ (value p, g)
      → g ≡ add p f
  unfolding from_config from_created add_created
  created-added (fail x) f g p e = cc (ap (λ x. x.0) e)
  created-added (value name) f g p e = from_created-added name (sp.create_plugins name) f g p e

-- Calls of getOrCreate, one after the other: what Steampipe answers, the plugin and the connection.
unfoldable pub run_creates : List (Steampipe × String × String) → Factory → Factory
run_creates [] f = f
run_creates ((sp, fqn, name) ∷ calls) f = run_creates calls (get_or_create sp fqn name f).1

run_creates-Grows :
    (calls : List (Steampipe × String × String)) (f : Factory) → Grows f (run_creates calls f)
unfolding run_creates
run_creates-Grows [] f k old e = e
run_creates-Grows ((sp, fqn, name) ∷ calls) f k old e =
    run_creates-Grows calls (get_or_create sp fqn name f).1 k old
      (get_or_create-Grows sp fqn name f k old e)

-- The plugin of a connection has exited. However many calls of getOrCreate follow, for this and
-- other connections and whatever Steampipe answers them, the map still has the exited plugin for the
-- connection, and getOrCreate makes another plugin for it.
pub exited_not_replaced :
    (later : Steampipe) (calls : List (Steampipe × String × String)) (fqn name : String)
    (f : Factory) (old : ConnectionPlugin)
    → lookup (connection_plugin_key fqn name) f ≡ some old
    → later.exited old.client ≡ true
    → (lookup (connection_plugin_key fqn name) (run_creates calls f) ≡ some old)
      × (get_or_create later fqn name (run_creates calls f)
          ≡ create_connection_plugin later fqn name (run_creates calls f))
unfolding get if_running get_or_create got_or
exited_not_replaced later calls fqn name f old e x =
    let g = run_creates calls f in
    let there = run_creates-Grows calls f (connection_plugin_key fqn name) old e in
    (
      there,
      ap (λ o. got_or later (if_running later o) g (create_connection_plugin later fqn name g))
            there
          ∙ rw x refl,
    )

-- A plugin that was created for a connection that was not in the map is in it.
pub get-created :
    (sp later : Steampipe) (name : String) (f g : Factory) (p : ConnectionPlugin)
    → create_connection_plugin sp p.plugin_name name f ≡ (value p, g)
    → In name (keys p.connection_map)
    → lookup (connection_plugin_key p.plugin_name name) f ≡ none
    → later.exited p.client ≡ false
    → get later p.plugin_name name g ≡ some p
unfolding get if_running create_connection_plugin add
get-created sp later name f g p e m n x =
    let found : lookup (connection_plugin_key p.plugin_name name) g ≡ some p =
      ap (lookup (connection_plugin_key p.plugin_name name))
        (created-added sp (connection_config sp name) f g p e)
      ∙ add_connections-adds p p.connection_map f name m n in
    ap (if_running later) found ∙ rw x refl

-- A plugin that createConnectionPlugin has made for a connection that was not in the map, and that
-- has the plugin's name and serves the connection, is what getOrCreate returns from then on, and
-- the map stays as it is, as long as the plugin runs.
pub created_is_reused :
    (sp later : Steampipe) (name : String) (f g : Factory) (p : ConnectionPlugin)
    → create_connection_plugin sp p.plugin_name name f ≡ (value p, g)
    → In name (keys p.connection_map)
    → lookup (connection_plugin_key p.plugin_name name) f ≡ none
    → later.exited p.client ≡ false
    → get_or_create later p.plugin_name name g ≡ (value p, g)
unfolding get_or_create got_or
created_is_reused sp later name f g p e m n x =
    ap (λ o. got_or later o g (create_connection_plugin later p.plugin_name name g))
      (get-created sp later name f g p e m n x)
