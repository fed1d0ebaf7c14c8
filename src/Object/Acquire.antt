-- ===== src/Object/Acquire.antt =====
-- Acquisition and its undoing (src/core.rs, lines 1091-1217): `try_acquire` takes from an object what
-- the kernel's wait takes, `is_locked` says beforehand whether it would, and `rollback_acquire` gives
-- back what was taken. Here no other thread acts between a load and its compare-exchange; the loops
-- are atomic by `Cas.Linear`.
use ntsync_android.Base.{
  ℕ, ◌+◌, ◌^◌, ◌<◌, ◌≡◌, ◌≢◌, Bool, true, false, ◌==◌, arith, not, Option, none, some, [], ◌⊎◌,
}
use ntsync_android.Cas.{cas_loop}
use ntsync_android.Word.{lo, hi, pack_sem, pack_mutex, set_low, clear_low}
use ntsync_android.Region.{type_sem, type_mutex, type_event}
use ntsync_android.Object.{
  is_locked, try_acquire, rollback_acquire, acquire_sem_round, acquire_mutex_round, acquire_event,
  claim_event_round, rollback_sem_round, rollback_mutex_round, rollback_event_round,
}
use ntsync_android.Object.State.{
  IsSem, IsMutex, IsEvent, sem_of, mutex_of, event_of, wait_sem_spec, wait_mutex_spec,
  wait_event_spec,
}

abbrev pub is_some : {A : Type 0} → Option A → Bool
is_some none = false
is_some (some a) = true

module _ (d owner seq : ℕ) where
  -- `is_locked` holds of an object exactly when `try_acquire` would take it.
  pub is_locked-eq-is_some :
      (t w : ℕ) → is_locked t w d owner seq ≡ is_some (try_acquire [] t w d owner seq).1
  unfolding is_locked try_acquire cas_loop acquire_sem_round acquire_mutex_round acquire_event
      claim_event_round
  is_locked-eq-is_some t w = ground arith

  -- Trying to acquire a semaphore whose word is one of a semaphore keeps it one, and takes a count or
  -- refuses as the kernel's wait does.
  pub try_acquire-IsSem :
      (w : ℕ)
      → IsSem w
      → IsSem (try_acquire [] type_sem w d owner seq).0
        × ((try_acquire [] type_sem w d owner seq).1 ≡ (wait_sem_spec (sem_of w)).0)
        × (sem_of (try_acquire [] type_sem w d owner seq).0 ≡ (wait_sem_spec (sem_of w)).1)
  unfolding try_acquire cas_loop acquire_sem_round wait_sem_spec pack_sem
  try_acquire-IsSem w v = (ground arith, ground arith, ground arith)

  -- Trying to acquire a mutex whose word is one of a mutex, as an owner that is not 0 and below 2 ^ 32,
  -- keeps it one, and takes it, takes it again, takes it over as abandoned or refuses as the kernel's
  -- wait does.
  pub try_acquire-IsMutex :
      (w : ℕ)
      → 0 < owner
      → owner < 2 ^ 32
      → IsMutex w
      → IsMutex (try_acquire [] type_mutex w d owner seq).0
        × ((try_acquire [] type_mutex w d owner seq).1 ≡ (wait_mutex_spec owner (mutex_of w)).0)
        × (mutex_of (try_acquire [] type_mutex w d owner seq).0
            ≡ (wait_mutex_spec owner (mutex_of w)).1)
  unfolding try_acquire cas_loop acquire_mutex_round wait_mutex_spec pack_mutex
  try_acquire-IsMutex w h k v = (ground arith, ground arith, ground arith)

  -- Trying to acquire an event whose word is one of an event keeps it one, and consumes its signal, is
  -- let pass by a pulse or refuses as the specification of an event that may have been pulsed does.
  pub try_acquire-IsEvent :
      (w : ℕ)
      → IsEvent w
      → IsEvent (try_acquire [] type_event w d owner seq).0
        × ((try_acquire [] type_event w d owner seq).1
            ≡ (wait_event_spec (not (d == seq)) (event_of w)).0)
        × (event_of (try_acquire [] type_event w d owner seq).0
            ≡ (wait_event_spec (not (d == seq)) (event_of w)).1)
  unfolding try_acquire cas_loop acquire_event claim_event_round wait_event_spec clear_low
  try_acquire-IsEvent w v = (ground arith, ground arith, ground arith)

  -- Rolling back what was taken of a semaphore or a mutex gives the word back.
  pub rollback-try_acquire_sem :
      (w : ℕ) {dead : Bool}
      → IsSem w
      → (try_acquire [] type_sem w d owner seq).1 ≡ some dead
      → rollback_acquire [] type_sem (try_acquire [] type_sem w d owner seq).0 owner dead ≡ w
  unfolding try_acquire rollback_acquire cas_loop acquire_sem_round rollback_sem_round pack_sem
  rollback-try_acquire_sem w v h = ground arith

  pub rollback-try_acquire_mutex :
      (w : ℕ) {dead : Bool}
      → owner < 2 ^ 32
      → IsMutex w
      → (try_acquire [] type_mutex w d owner seq).1 ≡ some dead
      → rollback_acquire [] type_mutex (try_acquire [] type_mutex w d owner seq).0 owner dead ≡ w
  unfolding try_acquire rollback_acquire cas_loop acquire_mutex_round rollback_mutex_round
      pack_mutex
  rollback-try_acquire_mutex w k v h = ground arith

  -- An event that was signaled, or is manual, or was not acquired by a pulse.
  pub rollback-try_acquire_event :
      (w : ℕ) {dead : Bool}
      → IsEvent w
      → (d ≡ seq) ⊎ (hi w ≡ 1)
      → (try_acquire [] type_event w d owner seq).1 ≡ some dead
      → rollback_acquire [] type_event (try_acquire [] type_event w d owner seq).0 owner dead ≡ w
  unfolding try_acquire rollback_acquire cas_loop acquire_event claim_event_round
      rollback_event_round set_low clear_low
  rollback-try_acquire_event w v k h = ground arith

  pub rollback-pulsed :
      (w : ℕ)
      → IsEvent w
      → hi w ≡ 0
      → lo w ≡ 0
      → d ≢ seq
      → rollback_acquire [] type_event (try_acquire [] type_event w d owner seq).0 owner false
        ≡ w + 1
  unfolding try_acquire rollback_acquire cas_loop acquire_event rollback_event_round set_low
  rollback-pulsed w v h k e = ground arith
