-- ===== src/Cache/Ttl.antt =====
-- The crate `ttl_cache`: a map whose entries expire. What the proofs rely on is stated as a law.
use supertag.Base.{ℕ, ◌+◌, ◌≤◌, ◌≡◌, Option, some}

-- Times are in milliseconds; each call is given the time at which it happens.
pub record Ttl (K V M : Type 0) : Type 0 where
  pub empty : ℕ → M
  pub insert : M → K → V → ℕ → ℕ → M
  pub get : M → K → ℕ → Option V
  pub remove : M → K → ℕ → M × Option V

-- An entry is there until its time is over, the last instant included.
pub record IsExpiring {K V M : Type 0} (ttl : Ttl K V M) : Type 0 where
  pub get-insert :
      (m : M) (k : K) (v : V) (life now later : ℕ)
      → now ≤ later
      → later ≤ now + life
      → ttl.get (ttl.insert m k v life now) k later ≡ some v
