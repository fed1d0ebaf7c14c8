-- ===== src/Lock.antt =====
-- src/core.rs, lines 351-449: the guard of the region lock. What the calls of `pthread_mutex_lock`
-- (or `pthread_mutex_timedlock`) return is a list, one entry for each call that is made; what a thread
-- blocks of the signals is a mask. The log of a blocked thread and the owner that it names are left out.
pub mod Guard
use ntsync_android.Base.{
  ℕ, Bool, true, false, not, ◌||◌, Option, none, some, List, [], ◌∷◌, ◌==◌, if◌then◌else◌,
}
use ntsync_android.Base.Int.{ℤ, pos, neg}

abbrev pub eintr : ℕ
eintr = 4

abbrev pub etimedout : ℕ
etimedout = 110

abbrev pub eownerdead : ℕ
eownerdead = 130

-- `waiting`: every call of the list has returned, and the lock is neither taken nor given up.
-- `locked`: the guard with the mask to restore, and whether the mutex was made consistent.
pub data LockOutcome (Mask : Type 0) : Type 0 where
  locked : (old_mask : Option Mask) → (made_consistent : Bool) → LockOutcome Mask
  failed : ℤ → LockOutcome Mask
  waiting : LockOutcome Mask

-- `with_sigusr1` is what `SIG_BLOCK` of SIGUSR1 makes of a mask.
module _ {Mask : Type 0} (with_sigusr1 : Mask → Mask) where
  -- `SIG_SETMASK` to the old mask, if there is one.
  abbrev pub restore : Option Mask → Mask → Mask
  restore none mask = mask
  restore (some old_mask) mask = old_mask

  -- The outcome, and the mask that the thread has then.
  unfoldable pub lock_loop : List ℕ → (old_mask : Option Mask) → Mask → LockOutcome Mask × Mask
  lock_loop [] old_mask mask = (waiting, mask)
  lock_loop (ret ∷ rets) old_mask mask =
      let retry = lock_loop rets old_mask mask in
      if ret == 0 || ret == eownerdead
      then (locked old_mask (ret == eownerdead), mask)
      else if ret == etimedout
      then retry
      else if not (ret == eintr)
      then (failed (neg (pos ret)), restore old_mask mask)
      else retry

  unfoldable pub lock_guard :
      (sigusr1_block_enabled : Bool) → List ℕ → Mask → LockOutcome Mask × Mask
  lock_guard true rets mask = lock_loop rets (some mask) (with_sigusr1 mask)
  lock_guard false rets mask = lock_loop rets none mask

  -- The mask after the guard is dropped.
  unfoldable pub drop_guard : (old_mask : Option Mask) → Mask → Mask
  drop_guard old_mask mask = restore old_mask mask
