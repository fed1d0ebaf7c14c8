-- ===== src/Object/Refines.antt =====
-- Each round, done at once, is the kernel's operation on the object that the word stands for, and
-- keeps the words of its type (src/core.rs, lines 926-1061).
use ntsync_android.Base.{ℕ, ◌<◌, ◌≡◌, arith}
use ntsync_android.Cas.{Attempt, atomic}
use ntsync_android.Word.{pack_sem, pack_mutex, set_low, clear_low}
use ntsync_android.Region.{Result}
use ntsync_android.Object.{
  Reply, sem_release_round, event_set_round, event_reset_round, mutex_unlock_round,
  mutex_kill_round,
}
use ntsync_android.Object.State.{
  IsSem, IsMutex, IsEvent, sem_of, mutex_of, event_of, release_spec, set_spec, reset_spec,
  unlock_spec, kill_spec,
}

-- The words of a round done at once, under a predicate, and its agreement with an operation.
abbrev pub Implements :
    {A O : Type 0} → (ℕ → Type 0) → (ℕ → O) → (ℕ → Attempt (Reply A)) → (O → Result A × O) → Type 0
Implements Ok of try spec =
    (w : ℕ)
    → Ok w
    → Ok (atomic w (try w)).0
      × ((atomic w (try w)).1.result ≡ (spec (of w)).0)
      × (of (atomic w (try w)).0 ≡ (spec (of w)).1)

-- lemmas
pub sem_release_round-Implements :
    (count : ℕ) → Implements IsSem sem_of (sem_release_round count) (release_spec count)
unfolding sem_release_round release_spec pack_sem
sem_release_round-Implements count w v = (ground arith, ground arith, ground arith)

pub event_set_round-Implements : Implements IsEvent event_of event_set_round set_spec
unfolding event_set_round set_spec set_low
event_set_round-Implements w v = (ground arith, ground arith, ground arith)

pub event_reset_round-Implements : Implements IsEvent event_of event_reset_round reset_spec
unfolding event_reset_round reset_spec clear_low
event_reset_round-Implements w v = (ground arith, ground arith, ground arith)

pub mutex_unlock_round-Implements :
    (owner : ℕ)
    → 0 < owner
    → Implements IsMutex mutex_of (mutex_unlock_round owner) (unlock_spec owner)
unfolding mutex_unlock_round unlock_spec pack_mutex
mutex_unlock_round-Implements owner h w v = (ground arith, ground arith, ground arith)

pub mutex_kill_round-Implements :
    (owner : ℕ) → 0 < owner → Implements IsMutex mutex_of (mutex_kill_round owner) (kill_spec owner)
unfolding mutex_kill_round kill_spec pack_mutex
mutex_kill_round-Implements owner h w v = (ground arith, ground arith, ground arith)
