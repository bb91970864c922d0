-- ===== src/Fuse/State.antt =====
-- The state of `TagFilesystem`, and the ways in which a handler uses it.
use supertag.Base.{Bool, true, false, Option, none, some}
use supertag.Db.Monad
use supertag.Db.Monad.{Sql}
use supertag.Db.Store.{Db}
use supertag.Errors.{SqlError}
use supertag.Fuse.Errno.{Errno, shim_sql}

-- The database and the operation cache
pub record World (C : Type 0) : Type 0 where
  pub db : Db
  pub op_cache : C

-- `FuseResult`, with the state that the call leaves
pub data Reply (C X : Type 0) : Type 0 where
  answered : X → World C → Reply C X
  refused : Errno → World C → Reply C X
  crashed : Reply C X

abbrev pub Fuse : Type 0 → Type 0 → Type 0
Fuse C X = World C → Reply C X

module _ {C X : Type 0} where
  abbrev pub answer : X → Fuse C X
  answer x w = answered x w

  abbrev pub refuse : Errno → Fuse C X
  refuse e w = refused e w

  abbrev pub crash : Fuse C X
  crash w = crashed

  -- A look at the cache, and at the database
  abbrev pub look : (C → X) → Fuse C X
  look f w = answered (f w.op_cache) w

  -- `unwrap`
  abbrev pub expect : Option X → Fuse C X
  expect none = crash
  expect (some x) = answer x

abbrev pub change : {C : Type 0} → (C → C) → Fuse C (Unit {0})
change f w = answered tt (record w { op_cache = f w.op_cache })

infixl 5 ◌>>=◌ ◌>>◌
abbrev pub ◌>>=◌ : {C X Y : Type 0} → Fuse C X → (X → Fuse C Y) → Fuse C Y
◌>>=◌ m f w = elim (m w) [
  | answered x w' ↦ f x w'
  | refused e w' ↦ refused e w'
  | crashed ↦ crashed
]

abbrev pub ◌>>◌ : {C X Y : Type 0} → Fuse C X → Fuse C Y → Fuse C Y
m >> k = m >>= λ _. k

-- A transaction and its commit, or its rollback where it fails. The error is converted by `to_errno`.
abbrev pub transact : {C E X : Type 0} → (E → Errno) → Monad.Tx E X → Fuse C X
transact to_errno m w = elim (m w.db) [
  | Monad.done x db' ↦ answered x (record w { db = db' })
  | Monad.failed e ↦ refused (to_errno e) w
  | Monad.panicked ↦ crashed
]

-- A transaction with what else is done before its commit. Where the commit fails the tables are those
-- before, and the rest stays done.
abbrev pub committed : {C X : Type 0} → Option SqlError → Fuse C X → Fuse C X
committed failure m w = elim (m w) [
  | answered x v ↦ elim failure [
    | none ↦ answered x v
    | some e ↦ refused (shim_sql e) (record v { db = w.db })
  ]
  | refused e v ↦ refused e v
  | crashed ↦ crashed
]

-- A query, with its error as `SupertagShimError` has it
abbrev pub query : {C X : Type 0} → Sql X → Fuse C X
query m = transact shim_sql m

-- What is taken out of the cache
abbrev pub take_out : {C X : Type 0} → (C → C × X) → Fuse C X
take_out f w = let (c, x) = f w.op_cache in answered x (record w { op_cache = c })

-- `unwrap` on the result of a query
abbrev pub unwrap_query : {C X : Type 0} → Sql X → Fuse C X
unwrap_query m w = elim (m w.db) [
  | Monad.done x db' ↦ answered x (record w { db = db' })
  | Monad.failed e ↦ crashed
  | Monad.panicked ↦ crashed
]

-- What is found, as an answer, or else the rest of the handler
unfoldable pub served : {A C X : Type 0} → (A → X) → Option A → Fuse C X → Fuse C X
served f none m = m
served f (some a) m = answer (f a)

-- One of two ways on
unfoldable pub choose : {C X : Type 0} → Bool → Fuse C X → Fuse C X → Fuse C X
choose true m m' = m
choose false m m' = m'
