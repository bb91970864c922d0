-- ===== src/Fuse/Settles.antt =====
-- What holds of the answer and of the refusal of a handler, and the rules for its parts.
use supertag.Base.{◌≡◌, refl, ok, err}
use supertag.Db.Monad
use supertag.Db.Monad.{Outcome, Tx}
use supertag.Errors.{STagError, STagResult}
use supertag.Fuse.Env.{or_refuse}
use supertag.Fuse.Errno.{Errno}
use supertag.Fuse.State.{World, Reply, answered, refused, crashed, Fuse, transact, ◌>>=◌}

-- `P` of an answer and `Q` of a refusal; a panic is neither.
abbrev pub Settles :
    {C X : Type 0} → (X → World C → Type 0) → (Errno → World C → Type 0) → Reply C X → Type 0
Settles P Q (answered x w) = P x w
Settles P Q (refused e w) = Q e w
Settles P Q crashed = Unit

pub Settles-bind :
    {C X Y : Type 0} (P : X → World C → Type 0) (P' : Y → World C → Type 0)
    (Q : Errno → World C → Type 0) (m : Fuse C X) (f : X → Fuse C Y) (w : World C)
    → Settles P Q (m w)
    → ((x : X) (w' : World C) → P x w' → Settles P' Q (f x w'))
    → Settles P' Q ((m >>= f) w)
Settles-bind {C} {X} {Y} P P' Q m f w h k = go (m w) h
  where
    go :
        (r : Reply C X)
        → Settles P Q r
        → Settles P' Q
            (elim r [ answered x w' ↦ f x w' | refused e w' ↦ refused e w' | crashed ↦ crashed ])
    go (answered x w') p = k x w' p
    go (refused e w') p = p
    go crashed p = p

pub Settles-map :
    {C X : Type 0} (P P' : X → World C → Type 0) (Q : Errno → World C → Type 0) (r : Reply C X)
    → Settles P Q r
    → ((x : X) (w : World C) → P x w → P' x w)
    → Settles P' Q r
Settles-map P P' Q (answered x w) h k = k x w h
Settles-map P P' Q (refused e w) h k = h
Settles-map P P' Q crashed h k = h

-- The state is the one before; its cache is.
abbrev pub Same : {C X : Type 0} → World C → X → World C → Type 0
Same w x v = v ≡ w

abbrev pub SameCache : {C X : Type 0} → World C → X → World C → Type 0
SameCache w x v = v.op_cache ≡ w.op_cache

module _ {C : Type 0} (Q : Errno → World C → Type 0) (w : World C) where
  -- The conversion of an error decides the number of the refusal, and the state is the one before.
  pub or_refuse-Settles :
      {X : Type 0} (to_errno : STagError → Errno) (r : STagResult X)
      → ((e : STagError) → Q (to_errno e) w)
      → Settles (Same w) Q (or_refuse to_errno r w)
  or_refuse-Settles to_errno (ok x) h = refl
  or_refuse-Settles to_errno (err e) h = h e

  -- A transaction that fails leaves everything as it was, and one that is committed the cache.
  pub transact-Settles :
      {E X : Type 0} (to_errno : E → Errno) (m : Tx E X)
      → ((e : E) → Q (to_errno e) w)
      → Settles (SameCache w) Q (transact to_errno m w)
  transact-Settles {E} {X} to_errno m h = go (m w.db)
    where
      go :
          (r : Outcome E X)
          → Settles (SameCache w) Q (elim r [
            | Monad.done x db' ↦ answered x (record w { db = db' })
            | Monad.failed e ↦ refused (to_errno e) w
            | Monad.panicked ↦ crashed
          ])
      go (Monad.done x db') = refl
      go (Monad.failed e) = h e
      go Monad.panicked = tt
