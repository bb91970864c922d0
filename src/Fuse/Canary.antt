-- ===== src/Fuse/Canary.antt =====
-- `unlink` after the canary: a process that deletes a whole directory is stopped, and stays so
-- over the calls that come between.
use supertag.Base.{
  ℕ, ◌*◌, ◌+◌, ◌≤◌, ◌≡◌, refl, sym, ap, ◌∙◌, Bool, true, false, Text, if◌then◌else◌,
}
use supertag.Base.Unique.{is_some}
use supertag.Cache.Expiry.{check_delete_pid-add_deny}
use supertag.Cache.OpCache
use supertag.Cache.OpCache.{Maps, Request, check_delete_pid, add_deny_delete_pid, unlink_expire_ms}
use supertag.Cache.Ttl.{IsExpiring}
use supertag.Fuse.Calls.{Call, serve}
use supertag.Fuse.Calm.{IsCalm, serve-Calm}
use supertag.Fuse.Denied.{SameDenied}
use supertag.Fuse.Kept.{canaries}
use supertag.Fuse.Env.{Env, notified}
use supertag.Fuse.Errno.{enosys, eio}
use supertag.Fuse.Links.{stop_process, unlink, unlink_canary}
use supertag.Fuse.Mounted.{Leaves}
use supertag.Fuse.Settles.{Settles}
use supertag.Fuse.State.{World, Reply, answered, refused, crashed, refuse, ◌>>=◌}
use supertag.Paths.Joined.{ends_with_name}

module _ {F S R A U D : Type 0} (maps : Maps F S R A U D) (env : Env) where
  abbrev State : Type 0
  State = World (OpCache.OpCache S R A U D)

  denied :
      (now ms : ℕ) (req : Request) (path : Text) (w : State)
      → check_delete_pid maps w.op_cache req.pid ms ≡ true
      → unlink maps env now ms req path w ≡ refused enosys w
  unfolding unlink
  denied now ms req path w e = cc

  caught :
      (now ms : ℕ) (req : Request) (path : Text) (w : State)
      → check_delete_pid maps w.op_cache req.pid ms ≡ false
      → ends_with_name path unlink_canary ≡ true
      → unlink maps env now ms req path w
        ≡ (notified (env.notifier.unlink (env.abs_mountpoint path)) >>= λ _. refuse enosys)
            (record w { op_cache = add_deny_delete_pid maps w.op_cache req.pid ms })
  unfolding unlink stop_process
  caught now ms req path w e r = cc

  warned :
      (sent : Bool) (v : State)
      → (notified sent >>= λ (_ : Unit {0}). refuse {X = Unit {0}} enosys) v
        ≡ refused (if sent then enosys else eio) v
  warned true v = refl
  warned false v = refl

  -- The tables as they were, and the process marked
  abbrev pub stopped : ℕ → Request → State → State
  stopped ms req w = record w { op_cache = add_deny_delete_pid maps w.op_cache req.pid ms }

  -- What any sequence of calls reaches, none of which deletes a canary.
  pub data Between (a : State) : State → Type 0 where
    at_once : Between a a
    then_call :
        {b d : State} (call : Call) (now ms : ℕ)
        → Between a b
        → IsCalm call
        → Leaves (serve maps env now ms call b) d
        → Between a d

  same_denied :
      (r : Reply (OpCache.OpCache S R A U D) (Unit {0})) (b d : State)
      → Settles (SameDenied b) (SameDenied b) r
      → Leaves r d
      → d.op_cache.unlink_canary_cache ≡ b.op_cache.unlink_canary_cache
  same_denied (answered x v) b d h e = ap (λ u. u.op_cache.unlink_canary_cache) (sym e) ∙ h
  same_denied (refused n v) b d h e = ap (λ u. u.op_cache.unlink_canary_cache) (sym e) ∙ h
  same_denied crashed b d h e = absurd e

  Between-denied :
      {a b : State} → Between a b → b.op_cache.unlink_canary_cache ≡ a.op_cache.unlink_canary_cache
  Between-denied at_once = refl
  Between-denied (then_call {b} {d} call now ms before calm leaves) =
      same_denied (serve maps env now ms call b) b d (serve-Calm maps env now ms call calm b) leaves
      ∙ Between-denied before

  -- Under the crate's law a process that is not yet stopped and deletes the canary is refused, with
  -- ENOSYS or, where the host could not be notified, with EIO, and with the tables as they were.
  -- Whatever calls of `Call` come between, of any process, answered or refused, as long as none of
  -- them deletes a canary: what the process deletes in the next two thousand seconds is refused with
  -- ENOSYS and changes nothing.
  pub unlink-canary :
      (laws : IsExpiring maps.canaries) (req req' : Request) (canary path : Text)
      (now now' ms later : ℕ) (w u : State)
      → req'.pid ≡ req.pid
      → ms ≤ later
      → later ≤ ms + 1000 * unlink_expire_ms
      → check_delete_pid maps w.op_cache req.pid ms ≡ false
      → ends_with_name canary unlink_canary ≡ true
      → Between (stopped ms req w) u
      → let sent = env.notifier.unlink (env.abs_mountpoint canary) in
        (unlink maps env now ms req canary w
          ≡ refused (if sent then enosys else eio) (stopped ms req w))
        × (unlink maps env now' later req' path u ≡ refused enosys u)
  unfolding check_delete_pid
  unlink-canary laws req req' canary path now now' ms later w u p h k q r between =
      let v = stopped ms req w in
      (
        caught now ms req canary w q r ∙ warned (env.notifier.unlink (env.abs_mountpoint canary)) v,
        denied now' later req' path u (
            ap (λ m. is_some (maps.canaries.get m req'.pid later)) (Between-denied between)
            ∙ ap (λ pid. check_delete_pid maps v.op_cache pid later) p
            ∙ check_delete_pid-add_deny maps laws w.op_cache req.pid ms later h k),
      )
