-- ===== src/Ffi/Errno.antt =====
-- The values that the entry points of src/ffi.rs return when the region lock cannot be taken. The lock
-- guard of src/core.rs (line 425) fails with `Err(-ret)`, `ret` being what `pthread_mutex_lock`
-- returned.
use ntsync_android.Base.{
  ℕ, ◌≤◌, ◌≡◌, ◌≢◌, refl, Bool, true, false, Option, none, some, List, ◌∷◌, arith,
}
use ntsync_android.Lock.{
  LockOutcome, locked, failed, waiting, eintr, etimedout, eownerdead, lock_loop, lock_guard,
}
use ntsync_android.Base.Int.{ℤ, neg, pos, neg-neg}
use ntsync_android.Region.{Region, Env, err, init}
use ntsync_android.Slot.{create_semaphore, create}
use ntsync_android.Ffi.{SemArgs, errno, ntsync_create_sem}

create_semaphore-unlocked :
    (env : Env) (r : Region) (ret count max : ℕ)
    → count ≤ max
    → env.region_error ≡ none
    → env.lock_error ≡ some (neg (pos ret))
    → create_semaphore env count max r ≡ (err (init (neg (pos ret))), r)
unfolding create_semaphore create
create_semaphore-unlocked env r ret count max le opened at_lock = ground arith

-- The error of a lock guard's outcome.
abbrev pub lock_error_of : {Mask : Type 0} → LockOutcome Mask → Option ℤ
lock_error_of (failed e) = some e
lock_error_of (locked old_mask made_consistent) = none
lock_error_of waiting = none

lock_loop-failed :
    {Mask : Type 0} (with_sigusr1 : Mask → Mask) (ret : ℕ) (rets : List ℕ) (old_mask : Option Mask)
    (mask : Mask)
    → ret ≢ 0
    → ret ≢ eownerdead
    → ret ≢ etimedout
    → ret ≢ eintr
    → (lock_loop with_sigusr1 (ret ∷ rets) old_mask mask).0 ≡ failed (neg (pos ret))
unfolding lock_loop
lock_loop-failed with_sigusr1 ret rets old_mask mask a b c d = ground arith

lock_guard-failed :
    {Mask : Type 0} (with_sigusr1 : Mask → Mask) (block : Bool) (ret : ℕ) (rets : List ℕ)
    (mask : Mask)
    → ret ≢ 0
    → ret ≢ eownerdead
    → ret ≢ etimedout
    → ret ≢ eintr
    → (lock_guard with_sigusr1 block (ret ∷ rets) mask).0 ≡ failed (neg (pos ret))
unfolding lock_guard
lock_guard-failed with_sigusr1 true ret rets mask a b c d =
    lock_loop-failed with_sigusr1 ret rets (some mask) (with_sigusr1 mask) a b c d
lock_guard-failed with_sigusr1 false ret rets mask a b c d =
    lock_loop-failed with_sigusr1 ret rets none mask a b c d

-- A creation of a semaphore by a process whose region opens, where taking the region lock ends as the lock
-- guard does when the lock call returns the error `ret` (not 0, EOWNERDEAD, ETIMEDOUT or EINTR), returns
-- `ret` itself, and not its negation: a caller that tests for a negative value takes it for a success. No
-- handle is written and the region is left as it was.
pub ntsync_create_sem-positive :
    {Mask : Type 0} (with_sigusr1 : Mask → Mask) (block : Bool) (rets : List ℕ) (mask : Mask)
    (env : Env) (r : Region) (out ret : ℕ) (args : SemArgs)
    → args.count ≤ args.max
    → env.region_error ≡ none
    → ret ≢ 0
    → ret ≢ eownerdead
    → ret ≢ etimedout
    → ret ≢ eintr
    → env.lock_error ≡ lock_error_of (lock_guard with_sigusr1 block (ret ∷ rets) mask).0
    → ((ntsync_create_sem env (some out) (some args) r).value ≡ pos ret)
      × ((ntsync_create_sem env (some out) (some args) r).out ≡ some out)
      × ((ntsync_create_sem env (some out) (some args) r).region ≡ r)
unfolding ntsync_create_sem errno
ntsync_create_sem-positive with_sigusr1 block rets mask env r out ret args le opened a b c d
      at_lock =
    let f = lock_guard-failed with_sigusr1 block ret rets mask a b c d in
    let e : env.lock_error ≡ some (neg (pos ret)) = rw f at at_lock in
    rw (create_semaphore-unlocked env r ret args.count args.max le opened e)
      (neg-neg (pos ret), refl, refl)
