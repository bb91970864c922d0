-- ===== src/Fuse/Denied.antt =====
-- The rules for handlers that leave a part of the cache, such as the processes that may not delete.
use supertag.Base.{◌≡◌, refl, ap, ◌∙◌, Option, none, some}
use supertag.Db.Monad
use supertag.Db.Monad.{Outcome, Tx}
use supertag.Errors.{SqlError}
use supertag.Fuse.Calls.{done_with}
use supertag.Fuse.Errno.{Errno, shim_sql}
use supertag.Fuse.Kept.{Lasting, SameKept, Still}
use supertag.Fuse.Settles.{Settles, Settles-bind}
use supertag.Fuse.State.{Fuse, World, Reply, answered, refused, crashed, transact, committed, ◌>>=◌}

module _ {C : Type 0} ⦃l : Lasting C⦄ where
  -- That part of the cache is the same.
  abbrev pub SameDenied : {X : Type 0} → World C → X → World C → Type 0
  SameDenied w x v = l.part v.op_cache ≡ l.part w.op_cache

  abbrev pub Calm : {X : Type 0} → Fuse C X → Type 0
  Calm m = (w : World C) → Settles (SameDenied w) (SameDenied w) (m w)

  pub Calm-bind :
      {X Y : Type 0} (m : Fuse C X) (f : X → Fuse C Y)
      → Calm m
      → ((x : X) → Calm (f x))
      → Calm (m >>= f)
  Calm-bind {X} {Y} m f h k w =
      Settles-bind (SameDenied w) (SameDenied w) (SameDenied w) m f w (h w)
        (λ x v same. shifted (f x v) v same (k x v))
    where
      shifted :
          (r : Reply C Y) (v : World C)
          → l.part v.op_cache ≡ l.part w.op_cache
          → Settles (SameDenied v) (SameDenied v) r
          → Settles (SameDenied w) (SameDenied w) r
      shifted (answered y u) v same p = p ∙ same
      shifted (refused e u) v same p = p ∙ same
      shifted crashed v same p = tt

  pub Still-Calm : {X : Type 0} (m : Fuse C X) → Still m → Calm m
  Still-Calm {X} m h w = go (m w) (h w)
    where
      go :
          (r : Reply C X)
          → Settles (SameKept w) (SameKept w) r
          → Settles (SameDenied w) (SameDenied w) r
      go (answered x v) same = ap (λ p. p.1) same
      go (refused e v) same = ap (λ p. p.1) same
      go crashed same = tt

  pub done_with-Calm : {X : Type 0} (m : Fuse C X) → Still m → Calm (done_with m)
  done_with-Calm m h = Calm-bind m _ (Still-Calm m h) (λ _ w. refl)

  pub transact-Calm :
      {E X : Type 0} (to_errno : E → Errno) (m : Tx E X) → Calm (transact to_errno m)
  transact-Calm {E} {X} to_errno m w = go (m w.db)
    where
      go :
          (r : Outcome E X)
          → Settles (SameDenied w) (SameDenied w) (elim r [
            | Monad.done x db' ↦ answered x (record w { db = db' })
            | Monad.failed e ↦ refused (to_errno e) w
            | Monad.panicked ↦ crashed
          ])
      go (Monad.done x db') = refl
      go (Monad.failed e) = refl
      go Monad.panicked = tt

  pub committed-Calm :
      {X : Type 0} (failure : Option SqlError) (m : Fuse C X) → Calm m → Calm (committed failure m)
  committed-Calm {X} failure m h w = go failure (m w) (h w)
    where
      go :
          (o : Option SqlError) (r : Reply C X)
          → Settles (SameDenied w) (SameDenied w) r
          → Settles (SameDenied w) (SameDenied w) (elim r [
            | answered x v ↦ elim o [
              | none ↦ answered x v
              | some e ↦ refused (shim_sql e) (record v { db = w.db })
            ]
            | refused e v ↦ refused e v
            | crashed ↦ crashed
          ])
      go none (answered x v) same = same
      go (some e) (answered x v) same = same
      go o (refused e v) same = same
      go o crashed same = tt
