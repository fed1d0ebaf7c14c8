-- ===== src/Tests/Signals.antt =====
-- The signal operations of src/core.rs at concrete objects.
use ntsync_android.Base.{ℕ, ◌+◌, ◌-◌, ◌*◌, ◌^◌, ◌≡◌, refl, [], ◌∷◌, arith, ◌==◌, if◌then◌else◌}
use ntsync_android.Word.{lo}
use ntsync_android.Region.{ok, slot, type_sem, type_mutex, type_event}
use ntsync_android.Object.State.{
  IsSem, IsMutex, IsEvent, sem_of, mutex_of, event_of, release_spec, set_spec, reset_spec,
  unlock_spec, kill_spec,
}
use ntsync_android.Object.Linear.{TookEffect}
use ntsync_android.Cas.{cas_loop}
use ntsync_android.Object.{sem_release_round}
use ntsync_android.Signal.{signal, sem_release, event_set, event_reset, mutex_unlock, mutex_kill}
use ntsync_android.Signal.Effect.{
  Names, sem_release-effect, event_set-effect, event_reset-effect, mutex_unlock-effect,
  mutex_kill-effect,
}
use ntsync_android.Tests.Data.{alone, among, furnished}

-- Another thread takes one count of a semaphore while a release runs.
abbrev taker : ℕ → ℕ
taker w = if lo w == 0 then w else w - 1

taker-IsSem : (w : ℕ) → IsSem w → IsSem (taker w)
taker-IsSem w v = ground arith

furnished-Names : Names (among (taker ∷ [])) furnished 1 type_sem
unfolding slot
furnished-Names = record { opened = refl; found = refl; typed = refl }

release_contended : (sem_release (among (taker ∷ [])) 1 3 furnished).0 ≡ ok 1
unfolding sem_release slot signal cas_loop sem_release_round
release_contended = refl

sem_release-effect_example :
    TookEffect IsSem sem_of
      (release_spec 3)
      (taker ∷ [])
      (5 * 2 ^ 32 + 2)
      ((sem_release (among (taker ∷ [])) 1 3 furnished).1.slots 1).w0
      (sem_release (among (taker ∷ [])) 1 3 furnished).0
sem_release-effect_example =
    sem_release-effect (among (taker ∷ [])) furnished 1 3 furnished-Names (taker-IsSem, tt)
      (omega arith)

event-Names : Names alone furnished 3 type_event
unfolding slot
event-Names = record { opened = refl; found = refl; typed = refl }

event_set-effect_example :
    TookEffect IsEvent event_of set_spec [] 1
      ((event_set alone 3 furnished).1.slots 3).w0
      (event_set alone 3 furnished).0
event_set-effect_example = event_set-effect alone furnished 3 event-Names tt (omega arith)

event_reset-effect_example :
    TookEffect IsEvent event_of reset_spec [] 1
      ((event_reset alone 3 furnished).1.slots 3).w0
      (event_reset alone 3 furnished).0
event_reset-effect_example = event_reset-effect alone furnished 3 event-Names tt (omega arith)

mutex-Names : Names alone furnished 2 type_mutex
unfolding slot
mutex-Names = record { opened = refl; found = refl; typed = refl }

held_twice : IsMutex (2 * 2 ^ 32 + 9)
held_twice = ground arith

mutex_unlock-effect_example :
    TookEffect IsMutex mutex_of
      (unlock_spec 9)
      []
      (2 * 2 ^ 32 + 9)
      ((mutex_unlock alone 2 9 furnished).1.slots 2).w0
      (mutex_unlock alone 2 9 furnished).0
mutex_unlock-effect_example =
    mutex_unlock-effect alone furnished 2 9 (omega arith) mutex-Names tt held_twice

mutex_kill-effect_example :
    TookEffect IsMutex mutex_of
      (kill_spec 9)
      []
      (2 * 2 ^ 32 + 9)
      ((mutex_kill alone 2 9 furnished).1.slots 2).w0
      (mutex_kill alone 2 9 furnished).0
mutex_kill-effect_example =
    mutex_kill-effect alone furnished 2 9 (omega arith) mutex-Names tt held_twice
