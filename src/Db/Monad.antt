-- ===== src/Db/Monad.antt =====
-- A database operation: it changes the tables and returns a value, fails, or panics.
use supertag.Base.{Bool, true, false, Option, none, some}
use supertag.Db.Store.{Db}
use supertag.Errors.{SqlError, STagError, database_error}

pub data Outcome (E : Type 0) (A : Type 0) : Type 0 where
  done : A → Db → Outcome E A
  failed : E → Outcome E A
  panicked : Outcome E A

abbrev pub Tx : Type 0 → Type 0 → Type 0
Tx E A = Db → Outcome E A

-- `rusqlite::Result` and `STagResult` under a transaction
abbrev pub Sql : Type 0 → Type 0
Sql = Tx SqlError

abbrev pub STag : Type 0 → Type 0
STag = Tx STagError

module _ {E A : Type 0} where
  abbrev pub pure : A → Tx E A
  pure a db = done a db

  abbrev pub fail : E → Tx E A
  fail e db = failed e

  abbrev pub panic : Tx E A
  panic db = panicked

  abbrev pub gets : (Db → A) → Tx E A
  gets f db = done (f db) db

  -- `ok_or(e)?`
  abbrev pub or_fail : Option A → E → Tx E A
  or_fail none e = fail e
  or_fail (some a) e = pure a

  -- `expect` and `unwrap`
  abbrev pub unwrap : Option A → Tx E A
  unwrap none = panic
  unwrap (some a) = pure a

abbrev pub modify : {E : Type 0} → (Db → Db) → Tx E (Unit {0})
modify f db = done tt (f db)

abbrev pub fail_if : {E : Type 0} → Bool → E → Tx E (Unit {0})
fail_if true e = fail e
fail_if false e = pure tt

infixl 5 ◌>>=◌ ◌>>◌
abbrev pub ◌>>=◌ : {E A B : Type 0} → Tx E A → (A → Tx E B) → Tx E B
◌>>=◌ m f db = elim (m db) [ done a db' ↦ f a db' | failed e ↦ failed e | panicked ↦ panicked ]

abbrev pub ◌>>◌ : {E A B : Type 0} → Tx E A → Tx E B → Tx E B
m >> k = m >>= λ _. k

-- `map_err`
abbrev pub map_err : {E F A : Type 0} → (E → F) → Tx E A → Tx F A
map_err f m db = elim (m db) [
  | done a db' ↦ done a db'
  | failed e ↦ failed (f e)
  | panicked ↦ panicked
]

-- `?` on a database error where the function returns `STagResult`
abbrev pub lift : {A : Type 0} → Sql A → STag A
lift = map_err database_error

-- What holds of the final tables of a run that succeeds.
abbrev pub Ensures : {E A : Type 0} → (A → Db → Type 0) → Outcome E A → Type 0
Ensures P (done a db) = P a db
Ensures P _ = Unit

-- What holds of a run that must succeed.
abbrev pub Returns : {E A : Type 0} → (A → Db → Type 0) → Outcome E A → Type 0
Returns P (done a db) = P a db
Returns P _ = ⊥

pub Returns-map :
    {E A : Type 0} (P Q : A → Db → Type 0) (r : Outcome E A)
    → ((a : A) (db : Db) → P a db → Q a db)
    → Returns P r
    → Returns Q r
Returns-map P Q (done a db) f p = f a db p
Returns-map P Q (failed e) f p = p
Returns-map P Q panicked f p = p

module _ {E A B : Type 0} where
  pub Returns-bind :
      (P : A → Db → Type 0) (Q : B → Db → Type 0) (m : Tx E A) (f : A → Tx E B) (db : Db)
      → Returns P (m db)
      → ((a : A) (db' : Db) → P a db' → Returns Q (f a db'))
      → Returns Q ((m >>= f) db)
  Returns-bind P Q m f db h k = go (m db) h
    where
      go :
          (r : Outcome E A)
          → Returns P r
          → Returns Q (elim r [ done a db' ↦ f a db' | failed e ↦ failed e | panicked ↦ panicked ])
      go (done a db') p = k a db' p
      go (failed e) p = absurd p
      go panicked p = absurd p

  pub Ensures-bind :
      (P : A → Db → Type 0) (Q : B → Db → Type 0) (m : Tx E A) (f : A → Tx E B) (db : Db)
      → Ensures P (m db)
      → ((a : A) (db' : Db) → P a db' → Ensures Q (f a db'))
      → Ensures Q ((m >>= f) db)
  Ensures-bind P Q m f db h k = go (m db) h
    where
      go :
          (r : Outcome E A)
          → Ensures P r
          → Ensures Q (elim r [ done a db' ↦ f a db' | failed e ↦ failed e | panicked ↦ panicked ])
      go (done a db') p = k a db' p
      go (failed e) p = tt
      go panicked p = tt
