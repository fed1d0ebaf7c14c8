-- ===== src/Signal.antt =====
-- src/core.rs, lines 926-1087: the signal operations and the reads, on the region. Each looks the
-- handle up, runs its compare-exchange loop on the object's word, and wakes the object's waiters if
-- its round says so. The statistics counters (`stat_bump`) are left out.
pub mod Pulse
pub mod Effect
use ntsync_android.Base.{
  ℕ, ◌+◌, ◌%◌, ◌/◌, ◌^◌, Bool, true, false, not, Option, none, some, List, [], ◌∷◌, ◌==◌,
  if◌then◌else◌,
}
use ntsync_android.Cas.{Attempt, cas_loop}
use ntsync_android.Word.{lo, hi, mutex_count, mutex_dead, clear_low}
use ntsync_android.Region.{
  Region, Slot, Error, Result, ok, err, Env, Op, pure, fail, ◌>>=◌, ◌>>◌, region, lock, find,
  set_slot, type_sem, type_mutex, type_event,
}
use ntsync_android.Object.{
  Reply, sem_release_round, event_set_round, event_reset_round, mutex_unlock_round,
  mutex_kill_round,
}
use ntsync_android.Waiter.{wake_object, wake_waiters_if_any}

abbrev pub lock_ok : Env → Bool
lock_ok env = elim env.lock_error [ none ↦ true | some e ↦ false ]

-- The loop on the word of the object at `i`, and the wake after it.
unfoldable pub signal : {A : Type 0} → Env → ℕ → (ℕ → Attempt (Reply A)) → Op A
signal env i round r =
    let s = r.slots i in
    let (w, reply) = cas_loop round env.interference s.w0 in
    let r' = set_slot r i (record s { w0 = w }) in
    (reply.result, (if reply.wake then wake_waiters_if_any (lock_ok env) r' i else r'))

unfoldable pub sem_release : Env → (handle count : ℕ) → Op ℕ
sem_release env handle count = do
  region env
  i ← find type_sem handle
  signal env i (sem_release_round count)

unfoldable pub event_set : Env → (handle : ℕ) → Op ℕ
event_set env handle = do region env; i ← find type_event handle; signal env i event_set_round

unfoldable pub event_reset : Env → (handle : ℕ) → Op ℕ
event_reset env handle = do region env; i ← find type_event handle; signal env i event_reset_round

-- The word as the second load finds it, after the other threads' next action.
abbrev pub reload : List (ℕ → ℕ) → ℕ → ℕ
reload [] w = w
reload (f ∷ fs) w = f w

-- The body of `event_pulse` under the lock: count the pulse, unsignal, wake everyone.
unfoldable pub pulse : Env → ℕ → Op ℕ
pulse env i r =
    let s = r.slots i in
    let prev = lo s.w0 in
    let r' =
      set_slot r i
        (record s { w0 = clear_low (reload env.interference s.w0); d = (s.d + 1) % 2 ^ 64 }) in
    (ok prev, wake_object r' i)

unfoldable pub event_pulse : Env → (handle : ℕ) → Op ℕ
event_pulse env handle = do region env; lock env; i ← find type_event handle; pulse env i

unfoldable pub mutex_unlock : Env → (handle owner : ℕ) → Op ℕ
mutex_unlock env handle owner =
    if owner == 0
    then fail Error.invalid
    else do region env; i ← find type_mutex handle; signal env i (mutex_unlock_round owner)

unfoldable pub mutex_kill : Env → (handle owner : ℕ) → Op (Unit {0})
mutex_kill env handle owner =
    if owner == 0
    then fail Error.invalid
    else do region env; i ← find type_mutex handle; signal env i (mutex_kill_round owner)

-- (count, max)
unfoldable pub read_sem : Env → (handle : ℕ) → Op (ℕ × ℕ)
read_sem env handle = do
  region env
  i ← find type_sem handle
  λ r. (ok (lo (r.slots i).w0, hi (r.slots i).w0), r)

-- (count, owner, owner_dead)
unfoldable pub read_mutex : Env → (handle : ℕ) → Op (ℕ × ℕ × Bool)
read_mutex env handle = do
  region env
  i ← find type_mutex handle
  λ r. let w = (r.slots i).w0 in (ok (mutex_count w, lo w, mutex_dead w), r)

-- (manual, signaled)
unfoldable pub read_event : Env → (handle : ℕ) → Op (Bool × Bool)
read_event env handle = do
  region env
  i ← find type_event handle
  λ r. let w = (r.slots i).w0 in (ok (not (w / 2 ^ 32 == 0), not (lo w == 0)), r)
