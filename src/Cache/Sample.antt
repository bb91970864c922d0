-- ===== src/Cache/Sample.antt =====
-- A cache of maps that are functions, for the examples.
use supertag.Base.{
  ℕ, ◌+◌, ◌≡◌, Bool, true, ◌&&◌, List, Option, none, some, Text, arith, leb, ◌==◌, if◌then◌else◌,
  text_eq,
}
use supertag.Cache.Alias.{Alias}
use supertag.Cache.OpCache
use supertag.Cache.OpCache.{Maps, OpCache, Request, SymlinkRequest, ReaddirCacheEntry}
use supertag.Cache.Ttl.{Ttl, IsExpiring}
use supertag.Rows.{TaggedFile}

abbrev pub Slots : Type 0 → Type 0 → Type 0
Slots K V = K → Option (V × ℕ)

abbrev pub alive : {V : Type 0} → Option (V × ℕ) → ℕ → Option V
alive none now = none
alive (some (v, t)) now = if leb now t then some v else none

abbrev pub slots : {K V : Type 0} → (K → K → Bool) → Ttl K V (Slots K V)
slots same = record {
  empty = λ capacity k. none;
  insert = λ m k v life now key. if same key k then some (v, now + life) else m key;
  get = λ m k now. alive (m k) now;
  remove = λ m k now. (λ key. if same key k then none else m key, alive (m k) now);
}

pub slots-IsExpiring :
    {K V : Type 0} (same : K → K → Bool)
    → ((k : K) → same k k ≡ true)
    → IsExpiring {V = V} (slots same)
slots-IsExpiring same h = record { get-insert = λ m k v life now later p q. ground (arith, h k) }

abbrev pub same_request : SymlinkRequest → SymlinkRequest → Bool
same_request a b =
    text_eq a.path b.path
    && a.req.uid == b.req.uid
    && a.req.gid == b.req.gid
    && a.req.pid == b.req.pid
    && a.req.umask == b.req.umask

-- A file as its bytes and the place of its handle
abbrev pub File : Type 0
File = List ℕ × ℕ

abbrev pub maps :
    Maps File
      (Slots SymlinkRequest TaggedFile)
      (Slots Text ReaddirCacheEntry)
      (Slots Text (Alias File))
      (Slots ℕ (Unit {0}))
      (Slots Text (Unit {0}))
maps = record {
  symlinks = slots same_request;
  readdirs = slots text_eq;
  aliases = slots text_eq;
  canaries = slots ◌==◌;
  deletes = slots text_eq;
}

abbrev pub Remembered : Type 0
Remembered =
    OpCache (Slots SymlinkRequest TaggedFile) (Slots Text ReaddirCacheEntry)
      (Slots Text (Alias File)) (Slots ℕ (Unit {0})) (Slots Text (Unit {0}))

abbrev pub fresh : Remembered
fresh = OpCache.new maps

abbrev pub user : Request
user = record { uid = 1000; gid = 1000; pid = 7; umask = 0o022 }
