-- ===== src/Fuse/Kept.antt =====
-- The rules for handlers that keep a property of the tables, and leave the tables where they refuse.
use mathlib.Core.Path.{subst}
use supertag.Base.{◌≡◌, refl, sym, ap, ◌∙◌, Bool, true, false, List, Option, none, some, ok, err}
use supertag.Cache.OpCache
use supertag.Db.Monad
use supertag.Db.Monad.{Outcome, Tx, Sql, Ensures}
use supertag.Db.Select.Files.{contains_file}
use supertag.Db.Select.Reads.{Reads, contains_file-Reads}
use supertag.Db.Store.{Db}
use supertag.Errors.{SqlError, STagError, STagResult}
use supertag.Fuse.Env.{Io, did, broken, or_refuse, io, notified}
use supertag.Fuse.Errno.{Errno, shim_sql}
use supertag.Fuse.Settles.{Settles, Settles-bind}
use supertag.Fuse.State.{
  World, Reply, answered, refused, crashed, Fuse, expect, transact, committed, query, unwrap_query,
  served, choose, ◌>>=◌,
}
use supertag.Rows.{TaggedFile}
use supertag.Tags.Types.{TagType}

-- The tables are those before.
abbrev pub SameDb : {C X : Type 0} → World C → X → World C → Type 0
SameDb w x v = v.db ≡ w.db

abbrev pub On : {C X : Type 0} → (Db → Type 0) → X → World C → Type 0
On J x v = J v.db

abbrev pub Never : {C : Type 0} → Errno → World C → Type 0
Never e v = ⊥

-- A part of the cache that the handlers leave, with the tables
pub record Lasting (C : Type 0) : Type 1 where
  pub kind : Type 0
  pub part : C → kind

-- The processes that may not delete
instance abbrev pub canaries : {S R A U D : Type 0} → Lasting (OpCache.OpCache S R A U D)
canaries {S} {R} {A} {U} {D} = record { kind = U; part = λ c. c.unlink_canary_cache }

abbrev pub lasting : {C : Type 0} ⦃l : Lasting C⦄ → World C → Db × l.kind
lasting ⦃l⦄ w = (w.db, l.part w.op_cache)

abbrev pub SameKept : {C X : Type 0} ⦃l : Lasting C⦄ → World C → X → World C → Type 0
SameKept w x v = lasting v ≡ lasting w

-- The handler leaves both, whether it answers or refuses.
abbrev pub Still : {C X : Type 0} ⦃l : Lasting C⦄ → Fuse C X → Type 0
Still m = (w : World _) → Settles (SameKept w) (SameKept w) (m w)

-- The handler leaves the tables and answers.
abbrev pub Quiet : {C X : Type 0} → Fuse C X → Type 0
Quiet m = (w : World _) → Settles (SameDb w) Never (m w)

-- An answer has `J` where `I` held, and a refusal leaves the tables.
abbrev pub From : {C X : Type 0} → (Db → Type 0) → (Db → Type 0) → Fuse C X → Type 0
From I J m = (w : World _) → I w.db → Settles (On J) (SameDb w) (m w)

abbrev pub Kept : {C X : Type 0} → (Db → Type 0) → Fuse C X → Type 0
Kept J = From J J

module _ {C X Y : Type 0} ⦃l : Lasting C⦄ (m : Fuse C X) (f : X → Fuse C Y) where
  pub Still-bind : Still m → ((x : X) → Still (f x)) → Still (m >>= f)
  Still-bind h k w =
      Settles-bind (SameKept w) (SameKept w) (SameKept w) m f w (h w)
        (λ x v same. shifted (f x v) v same (k x v))
    where
      shifted :
          (r : Reply C Y) (v : World C)
          → lasting v ≡ lasting w
          → Settles (SameKept v) (SameKept v) r
          → Settles (SameKept w) (SameKept w) r
      shifted (answered y u) v same p = p ∙ same
      shifted (refused e u) v same p = p ∙ same
      shifted crashed v same p = tt

  pub From-after : (I J : Db → Type 0) → Still m → ((x : X) → From I J (f x)) → From I J (m >>= f)
  From-after I J h k w j =
      Settles-bind (SameKept w) (On J) (SameDb w) m f w (tables (m w) (h w))
        (λ x v same. moved (f x v) v same (k x v (subst I (sym (ap (λ p. p.0) same)) j)))
    where
      tables :
          (r : Reply C X) → Settles (SameKept w) (SameKept w) r → Settles (SameKept w) (SameDb w) r
      tables (answered x v) same = same
      tables (refused e v) same = ap (λ p. p.0) same
      tables crashed same = tt

      moved :
          (r : Reply C Y) (v : World C)
          → lasting v ≡ lasting w
          → Settles (On J) (SameDb v) r
          → Settles (On J) (SameDb w) r
      moved (answered y u) v same p = p
      moved (refused e u) v same p = p ∙ ap (λ p. p.0) same
      moved crashed v same p = tt

  pub Kept-after : (J : Db → Type 0) → Still m → ((x : X) → Kept J (f x)) → Kept J (m >>= f)
  Kept-after J = From-after J J

module _ {C X Y : Type 0} (m : Fuse C X) (f : X → Fuse C Y) where
  pub From-before : (I J : Db → Type 0) → From I J m → ((x : X) → Quiet (f x)) → From I J (m >>= f)
  From-before I J h k w j =
      Settles-bind (On J) (On J) (SameDb w) m f w (h w j) (λ x v j'. still (f x v) v j' (k x v))
    where
      still :
          (r : Reply C Y) (v : World C)
          → J v.db
          → Settles (SameDb v) Never r
          → Settles (On J) (SameDb w) r
      still (answered y u) v j' p = subst J (sym p) j'
      still (refused e u) v j' p = absurd p
      still crashed v j' p = tt

  pub Kept-before : (J : Db → Type 0) → Kept J m → ((x : X) → Quiet (f x)) → Kept J (m >>= f)
  Kept-before J = From-before J J

pub Still-Kept :
    {C X : Type 0} ⦃l : Lasting C⦄ (J : Db → Type 0) (m : Fuse C X) → Still m → Kept J m
Still-Kept {C} {X} J m h w j = go (m w) (h w)
  where
    go : (r : Reply C X) → Settles (SameKept w) (SameKept w) r → Settles (On J) (SameDb w) r
    go (answered x v) same = subst J (sym (ap (λ p. p.0) same)) j
    go (refused e v) same = ap (λ p. p.0) same
    go crashed same = tt

pub transact-From :
    {C E X : Type 0} (I J : Db → Type 0) (to_errno : E → Errno) (m : Tx E X)
    → ((db : Db) → I db → Ensures (λ _ d. J d) (m db))
    → From {C = C} I J (transact to_errno m)
transact-From {C} {E} {X} I J to_errno m h w j = go (m w.db) (h w.db j)
  where
    go :
        (r : Outcome E X)
        → Ensures (λ _ d. J d) r
        → Settles (On J) (SameDb w) (elim r [
          | Monad.done x db' ↦ answered x (record w { db = db' })
          | Monad.failed e ↦ refused (to_errno e) w
          | Monad.panicked ↦ crashed
        ])
    go (Monad.done x db') k = k
    go (Monad.failed e) k = refl
    go Monad.panicked k = tt

pub committed-From :
    {C X : Type 0} (I J : Db → Type 0) (failure : Option SqlError) (m : Fuse C X)
    → From I J m
    → From I J (committed failure m)
committed-From {C} {X} I J failure m h w j = go failure (m w) (h w j)
  where
    go :
        (o : Option SqlError) (r : Reply C X)
        → Settles (On J) (SameDb w) r
        → Settles (On J) (SameDb w) (elim r [
          | answered x v ↦ elim o [
            | none ↦ answered x v
            | some e ↦ refused (shim_sql e) (record v { db = w.db })
          ]
          | refused e v ↦ refused e v
          | crashed ↦ crashed
        ])
    go none (answered x v) k = k
    go (some e) (answered x v) k = refl
    go o (refused e v) k = k
    go o crashed k = tt

pub transact-Kept :
    {C E X : Type 0} (J : Db → Type 0) (to_errno : E → Errno) (m : Tx E X)
    → ((db : Db) → J db → Ensures (λ _ d. J d) (m db))
    → Kept {C = C} J (transact to_errno m)
transact-Kept J = transact-From J J

module _ {C X : Type 0} ⦃l : Lasting C⦄ where
  pub or_refuse-Still :
      (to_errno : STagError → Errno) (r : STagResult X) → Still {C = C} (or_refuse to_errno r)
  or_refuse-Still to_errno (ok x) w = refl
  or_refuse-Still to_errno (err e) w = refl

  pub io-Still : (r : Io X) → Still {C = C} (io r)
  io-Still (did x) w = refl
  io-Still (broken kind) w = refl

  pub expect-Still : (o : Option X) → Still {C = C} (expect o)
  expect-Still none w = tt
  expect-Still (some x) w = refl

pub notified-Still : {C : Type 0} ⦃l : Lasting C⦄ (sent : Bool) → Still {C = C} (notified sent)
notified-Still true w = refl
notified-Still false w = refl

-- What only reads the tables
pub transact-Still :
    {C E X : Type 0} ⦃l : Lasting C⦄ (to_errno : E → Errno) (m : Tx E X)
    → Reads m
    → Still {C = C} (transact to_errno m)
transact-Still {C} {E} {X} ⦃l⦄ to_errno m h w = go (m w.db) (h w.db)
  where
    go :
        (r : Outcome E X)
        → Ensures (λ _ d. d ≡ w.db) r
        → Settles (SameKept w) (SameKept w) (elim r [
          | Monad.done x db' ↦ answered x (record w { db = db' })
          | Monad.failed e ↦ refused (to_errno e) w
          | Monad.panicked ↦ crashed
        ])
    go (Monad.done x db') k = ap (λ db. (db, l.part w.op_cache)) k
    go (Monad.failed e) k = refl
    go Monad.panicked k = tt

pub unwrap_query-Still :
    {C X : Type 0} ⦃l : Lasting C⦄ (m : Sql X) → Reads m → Still {C = C} (unwrap_query m)
unwrap_query-Still {C} {X} ⦃l⦄ m h w = go (m w.db) (h w.db)
  where
    go :
        (r : Outcome SqlError X)
        → Ensures (λ _ d. d ≡ w.db) r
        → Settles (SameKept w) (SameKept w) (elim r [
          | Monad.done x db' ↦ answered x (record w { db = db' })
          | Monad.failed e ↦ crashed
          | Monad.panicked ↦ crashed
        ])
    go (Monad.done x db') k = ap (λ db. (db, l.part w.op_cache)) k
    go (Monad.failed e) k = tt
    go Monad.panicked k = tt

pub query-Still : {C X : Type 0} ⦃l : Lasting C⦄ (m : Sql X) → Reads m → Still {C = C} (query m)
query-Still m h = transact-Still shim_sql m h

pub contains_file-Still :
    {C : Type 0} ⦃l : Lasting C⦄ (tags : List TagType) (pred : TaggedFile → Bool)
    → Still {C = C} (query (contains_file tags pred))
contains_file-Still tags pred =
    query-Still (contains_file tags pred) (contains_file-Reads tags pred)

-- Both ways on
pub choose-Still :
    {C X : Type 0} ⦃l : Lasting C⦄ (b : Bool) (m m' : Fuse C X)
    → Still m
    → Still m'
    → Still (choose b m m')
unfolding choose
choose-Still true m m' h h' = h
choose-Still false m m' h h' = h'

pub served-Still :
    {A C X : Type 0} ⦃l : Lasting C⦄ (f : A → X) (o : Option A) (m : Fuse C X)
    → Still m
    → Still (served f o m)
unfolding served
served-Still f none m h = h
served-Still f (some a) m h = λ w. refl
