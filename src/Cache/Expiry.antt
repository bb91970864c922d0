-- ===== src/Cache/Expiry.antt =====
-- How long a process that deleted the canary may not delete.
use supertag.Base.{ℕ, ◌+◌, ◌*◌, ◌≤◌, ◌≡◌, ap, true, arith}
use supertag.Base.Unique.{is_some}
use supertag.Cache.OpCache
use supertag.Cache.OpCache.{Maps, add_deny_delete_pid, check_delete_pid, unlink_expire_ms}
use supertag.Cache.Ttl.{IsExpiring}

module _ {F S R A U D : Type 0} (maps : Maps F S R A U D) where
  -- Under the crate's law a process that deleted the canary is denied deletions for two thousand
  -- seconds, a thousand times the two seconds that the constant counts in milliseconds.
  pub check_delete_pid-add_deny :
      (laws : IsExpiring maps.canaries) (c : OpCache.OpCache S R A U D) (pid now later : ℕ)
      → now ≤ later
      → later ≤ now + 1000 * unlink_expire_ms
      → check_delete_pid maps (add_deny_delete_pid maps c pid now) pid later ≡ true
  unfolding add_deny_delete_pid check_delete_pid
  check_delete_pid-add_deny laws c pid now later h k =
      ap is_some (laws.get-insert _ pid tt _ now later h (omega arith))
