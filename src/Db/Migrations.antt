-- ===== src/Db/Migrations.antt =====
-- sql/migrations/mod.rs: the migration of a collection's database to the program's version.
use supertag.Base.{ℕ, suc, ◌+◌, List, [], ◌∷◌, Option, none, some, Text, codes, drop}
use supertag.Db.Monad.{Sql, done, failed, panicked}
use supertag.Db.Store
use supertag.Db.Store.{Db}
use supertag.Errors.{SqlError}

-- A database with its `supertag_meta`; without that table it is `none`.
pub record Schema : Type 0 where
  pub migration_version : ℕ
  pub supertag_version : Text
  pub db : Db

-- Each migration is a transaction of its own, so those before a failure stay.
pub data Migrated : Type 0 where
  migrated : Schema → Migrated
  stopped : SqlError → Schema → Migrated
  crashed : Migrated

unfoldable pub initial : ℕ → Option Schema → Schema
unfolding Store.migrate
initial now none = record {
  migration_version = 0;
  supertag_version = codes "0.0.0";
  db = Store.migrate now;
}
initial now (some schema) = schema

-- The migrations from the one with this number on, of those counted from the version before.
unfoldable pub run_migrations : ℕ → ℕ → List (Sql (Unit {0})) → Schema → Migrated
run_migrations version i [] schema = migrated schema
run_migrations version i (mig ∷ rest) schema = elim (mig schema.db) [
  | done _ db' ↦
      run_migrations version (suc i) rest
        (record schema { migration_version = i + version; db = db' })
  | failed e ↦ stopped e schema
  | panicked ↦ crashed
]

abbrev stamped : Text → Migrated → Migrated
stamped app_version (migrated schema) = migrated (record schema { supertag_version = app_version })
stamped app_version (stopped e schema) = stopped e schema
stamped app_version crashed = crashed

-- The migrations after the first: there are none yet.
abbrev pub migrations : List (Sql (Unit {0}))
migrations = []

unfoldable pub migrate : Text → ℕ → Option Schema → Migrated
unfolding initial run_migrations
migrate app_version now maybe_schema =
    let schema = initial now maybe_schema in
    stamped app_version
      (run_migrations schema.migration_version 0 (drop schema.migration_version migrations) schema)
