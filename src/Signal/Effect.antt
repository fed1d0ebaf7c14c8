-- ===== src/Signal/Effect.antt =====
-- What the lock-free signal operations do to an object that their handle names (src/core.rs, lines
-- 926-982 and 1004-1061): with any interference by other threads that keeps the object's words
-- meaningful, each takes effect once, as the kernel's operation, at a moment during the call.
use ntsync_android.Base.{
  ℕ, ◌<◌, ◌≡◌, refl, ◌∙◌, Bool, true, false, none, some, arith, if◌then◌else◌, ap, update_self,
}
use ntsync_android.Cas.{Attempt, cas_loop}
use ntsync_android.Region.{
  Region, Slot, Env, Result, slot, index_of, type_sem, type_mutex, type_event, set_slot,
}
use ntsync_android.Object.{
  Reply, sem_release_round, event_set_round, event_reset_round, mutex_unlock_round,
  mutex_kill_round,
}
use ntsync_android.Object.State.{
  IsSem, IsMutex, IsEvent, sem_of, mutex_of, event_of, release_spec, set_spec, reset_spec,
  unlock_spec, kill_spec,
}
use ntsync_android.Object.Refines.{
  Implements, sem_release_round-Implements, event_set_round-Implements,
  event_reset_round-Implements, mutex_unlock_round-Implements, mutex_kill_round-Implements,
}
use ntsync_android.Object.Linear.{AllKeep, TookEffect, loop-TookEffect}
use ntsync_android.Waiter.{wake_waiters_if_any}
use ntsync_android.Waiter.Slots.{wake_if_any-SameObject}
use ntsync_android.Signal.{
  lock_ok, signal, sem_release, event_set, event_reset, mutex_unlock, mutex_kill,
}

-- The handle names an object of type `t`, in a region that could be opened.
pub record Names (env : Env) (r : Region) (handle t : ℕ) : Type 0 where
  pub opened : env.region_error ≡ none
  pub found : slot r handle ≡ some (index_of handle)
  pub typed : (r.slots (index_of handle)).obj_type ≡ t

wake_if-word :
    (b l : Bool) (r : Region) (i : ℕ)
    → ((if b then wake_waiters_if_any l r i else r).slots i).w0 ≡ (r.slots i).w0
wake_if-word true l r i = (wake_if_any-SameObject l r i i).w0
wake_if-word false l r i = refl

module _ {A : Type 0} (env : Env) (i : ℕ) (round : ℕ → Attempt (Reply A)) (r : Region) where
  signal-word :
      ((signal env i round r).1.slots i).w0 ≡ (cas_loop round env.interference (r.slots i).w0).0
  unfolding signal
  signal-word =
      let s = r.slots i in
      let out = cas_loop round env.interference s.w0 in
      let r' : Region = set_slot r i (record s { w0 = out.0 }) in
      wake_if-word out.1.wake (lock_ok env) r' i
      ∙ ap (λ (t : Slot). t.w0) (update_self r.slots i (record s { w0 = out.0 }))

  signal-TookEffect :
      {O : Type 0} (Ok : ℕ → Type 0) (of : ℕ → O) (spec : O → Result A × O)
      → Implements Ok of round spec
      → AllKeep Ok env.interference
      → Ok (r.slots i).w0
      → TookEffect Ok of spec env.interference
          (r.slots i).w0
          ((signal env i round r).1.slots i).w0
          (signal env i round r).0
  unfolding signal
  signal-TookEffect Ok of spec imp keep v =
      rw signal-word (loop-TookEffect Ok of round spec imp env.interference (r.slots i).w0 keep v)

module _ (env : Env) (r : Region) (handle : ℕ) where
  abbrev i : ℕ
  i = index_of handle

  sem_release-signal :
      (count : ℕ)
      → Names env r handle type_sem
      → sem_release env handle count r ≡ signal env i (sem_release_round count) r
  unfolding sem_release
  sem_release-signal count n = ground arith

  -- Under any interference that keeps the word a semaphore's, a release of a semaphore that the
  -- handle names does, at one moment during the call, what the kernel does: `count` is added and the
  -- old count returned, or, where the sum would exceed the maximum, nothing changes and the result
  -- is `Overflow`. The word that it leaves is again a semaphore's, the count at most the maximum.
  pub sem_release-effect :
      (count : ℕ)
      → Names env r handle type_sem
      → AllKeep IsSem env.interference
      → IsSem (r.slots i).w0
      → TookEffect IsSem sem_of
          (release_spec count)
          env.interference
          (r.slots i).w0
          ((sem_release env handle count r).1.slots i).w0
          (sem_release env handle count r).0
  sem_release-effect count n keep v = rw (sem_release-signal count n) (
      signal-TookEffect env i (sem_release_round count) r IsSem sem_of (release_spec count)
        (sem_release_round-Implements count) keep v)

  event_set-signal :
      Names env r handle type_event → event_set env handle r ≡ signal env i event_set_round r
  unfolding event_set
  event_set-signal n = ground arith

  -- Under any interference that keeps the word an event's, setting an event that the handle names
  -- signals it at one moment during the call and returns whether it was signaled then.
  pub event_set-effect :
      Names env r handle type_event
      → AllKeep IsEvent env.interference
      → IsEvent (r.slots i).w0
      → TookEffect IsEvent event_of set_spec env.interference
          (r.slots i).w0
          ((event_set env handle r).1.slots i).w0
          (event_set env handle r).0
  event_set-effect n keep v = rw (event_set-signal n) (
      signal-TookEffect env i event_set_round r IsEvent event_of set_spec event_set_round-Implements
        keep v)

  event_reset-signal :
      Names env r handle type_event → event_reset env handle r ≡ signal env i event_reset_round r
  unfolding event_reset
  event_reset-signal n = ground arith

  -- Under any interference that keeps the word an event's, resetting an event that the handle names
  -- unsignals it at one moment during the call and returns whether it was signaled then.
  pub event_reset-effect :
      Names env r handle type_event
      → AllKeep IsEvent env.interference
      → IsEvent (r.slots i).w0
      → TookEffect IsEvent event_of reset_spec env.interference
          (r.slots i).w0
          ((event_reset env handle r).1.slots i).w0
          (event_reset env handle r).0
  event_reset-effect n keep v = rw (event_reset-signal n) (
      signal-TookEffect env i event_reset_round r IsEvent event_of reset_spec
        event_reset_round-Implements keep v)

  mutex_unlock-signal :
      (owner : ℕ)
      → 0 < owner
      → Names env r handle type_mutex
      → mutex_unlock env handle owner r ≡ signal env i (mutex_unlock_round owner) r
  unfolding mutex_unlock
  mutex_unlock-signal owner h n = ground arith

  -- Under any interference that keeps the word a mutex's, an unlock by a positive `owner` of a mutex
  -- that the handle names does, at one moment during the call, what the kernel does: one level of
  -- recursion less for its owner, free at the last one, and `Perm` with no change for anyone else.
  -- The word that it leaves is again a mutex's.
  pub mutex_unlock-effect :
      (owner : ℕ)
      → 0 < owner
      → Names env r handle type_mutex
      → AllKeep IsMutex env.interference
      → IsMutex (r.slots i).w0
      → TookEffect IsMutex mutex_of
          (unlock_spec owner)
          env.interference
          (r.slots i).w0
          ((mutex_unlock env handle owner r).1.slots i).w0
          (mutex_unlock env handle owner r).0
  mutex_unlock-effect owner h n keep v = rw (mutex_unlock-signal owner h n) (
      signal-TookEffect env i (mutex_unlock_round owner) r IsMutex mutex_of (unlock_spec owner)
        (mutex_unlock_round-Implements owner h) keep v)

  mutex_kill-signal :
      (owner : ℕ)
      → 0 < owner
      → Names env r handle type_mutex
      → mutex_kill env handle owner r ≡ signal env i (mutex_kill_round owner) r
  unfolding mutex_kill
  mutex_kill-signal owner h n = ground arith

  -- Under any interference that keeps the word a mutex's, a kill by a positive `owner` of a mutex that
  -- the handle names frees and abandons it at one moment during the call, if `owner` owns it then, and
  -- changes nothing and returns `Perm` otherwise.
  pub mutex_kill-effect :
      (owner : ℕ)
      → 0 < owner
      → Names env r handle type_mutex
      → AllKeep IsMutex env.interference
      → IsMutex (r.slots i).w0
      → TookEffect IsMutex mutex_of
          (kill_spec owner)
          env.interference
          (r.slots i).w0
          ((mutex_kill env handle owner r).1.slots i).w0
          (mutex_kill env handle owner r).0
  mutex_kill-effect owner h n keep v = rw (mutex_kill-signal owner h n) (
      signal-TookEffect env i (mutex_kill_round owner) r IsMutex mutex_of (kill_spec owner)
        (mutex_kill_round-Implements owner h) keep v)
