-- ===== src/Postgres/Connection/Laws.antt =====
-- How a connection is made (postgres/postgres.go).
use gopack.Prelude.{
  ◌≡◌, ◌≢◌, refl, ◌⊎◌, inl, inr, String, Option, none, some, Error, arith, Option-cases,
}
use gopack.Postgres.Connection.{
  Postgres, Driver, Open, Register, registered, register_failed, opened, open_failed, answered,
  connect_opened, connect, exec, begin_tx,
}

module _ {D : Type 0} (wrap : Error → String → Error) (driver : Driver D) where
  -- the three answers that `Connect` needs
  abbrev pub Reaches : Postgres D → D → Type 0
  Reaches p db =
      ((name : String) × (driver.register ≡ registered name)
        × (driver.open_db name p.conn_str ≡ opened db))
      × (driver.ping db ≡ none)

  abbrev pub configured : Postgres D → D → Postgres D
  configured p db = record p {
    db_connection = some (record {
      handle = db;
      max_open = p.config.max_open_connections;
      max_idle = p.config.max_idle_connections;
      max_lifetime = p.config.connection_max_lifetime;
    });
  }

  -- what a call of `Connect` ends in
  abbrev pub Connects : {R : Type 0} → (D → R) → Postgres D → Postgres D × Option Error → Type 0
  Connects call p end =
      ((end.1 ≢ none) × (end.0 ≡ p))
      ⊎ ((db : D) × (end.1 ≡ none)
          × Reaches p db
          × (end.0 ≡ configured p db)
          × (exec call end.0 ≡ answered (call db))
          × (begin_tx call end.0 ≡ answered (call db)))

  connect_unopened :
      (p : Postgres D) (name : String) (e : Error)
      → driver.register ≡ registered name
      → driver.open_db name p.conn_str ≡ open_failed e
      → connect wrap driver p ≡ (p, some (wrap e "failed to open connection"))
  unfolding connect
  connect_unopened p name e reg h = ground arith

  connect_dead :
      (p : Postgres D) (name : String) (db : D) (e : Error)
      → driver.register ≡ registered name
      → driver.open_db name p.conn_str ≡ opened db
      → driver.ping db ≡ some e
      → connect wrap driver p ≡ (p, some (wrap e "failed to ping database connection"))
  unfolding connect connect_opened
  connect_dead p name db e reg h dead = ground arith

  connect_alive :
      (p : Postgres D) (name : String) (db : D)
      → driver.register ≡ registered name
      → driver.open_db name p.conn_str ≡ opened db
      → driver.ping db ≡ none
      → connect wrap driver p ≡ (configured p db, none)
  unfolding connect connect_opened
  connect_alive p name db reg h alive = ground arith

  Connects-opened :
      {R : Type 0} (call : D → R) (p : Postgres D) (name : String)
      → driver.register ≡ registered name
      → (o : Open D) → driver.open_db name p.conn_str ≡ o
      → Connects call p (connect wrap driver p)
  unfolding exec begin_tx
  Connects-opened call p name reg (open_failed e) h =
      rw (connect_unopened p name e reg h) (inl (λ n. cc, refl))
  Connects-opened call p name reg (opened db) h = elim (Option-cases (driver.ping db)) [
    | inr (e, dead) ↦ rw (connect_dead p name db e reg h dead) (inl (λ n. cc, refl))
    | inl alive ↦
        rw (connect_alive p name db reg h alive)
          (inr (db, refl, ((name, reg, h), alive), refl, refl, refl))
  ]

  Connects-registered :
      {R : Type 0} (call : D → R) (p : Postgres D) (r : Register)
      → driver.register ≡ r
      → Connects call p (connect wrap driver p)
  unfolding connect
  Connects-registered call p (register_failed e) h = rw h (inl (λ n. cc, refl))
  Connects-registered call p (registered name) h =
      Connects-opened call p name h (driver.open_db name p.conn_str) refl

  -- `Connect` returns no error only when the driver is registered, the handle opens and it
  -- answers a ping; then the handle is kept with the settings of the configuration, and is what
  -- statements and transactions get. Otherwise it returns one, and what was there
  -- stays.
  pub connect-Connects :
      {R : Type 0} (call : D → R) (p : Postgres D) → Connects call p (connect wrap driver p)
  connect-Connects call p = Connects-registered call p driver.register refl
