-- ===== src/Tests/Waits.antt =====
-- `try_satisfy` and the acquisitions of src/core.rs at concrete objects.
use ntsync_android.Base.{
  not, ℕ, ◌+◌, ◌*◌, ◌^◌, ◌≡◌, ◌≤◌, refl, true, false, none, List, ◌∷◌, [], ◌==◌, arith, inl, inr,
}
use ntsync_android.Cas.{cas_loop, atomic}
use ntsync_android.Cas.Linear.{after, cas_loop-atomic}
use ntsync_android.Region.{type_event}
use ntsync_android.Object.{acquire_sem_round, acquire_mutex_round, is_locked, try_acquire}
use ntsync_android.Object.State.{IsEvent, wait_event_spec, event_of}
use ntsync_android.Object.Acquire.{is_some, is_locked-eq-is_some, try_acquire-IsEvent}
use ntsync_android.Satisfy.{Target, acquire_at, try_satisfy}
use ntsync_android.Satisfy.Any.{AnyOf, try_satisfy-AnyOf}
use ntsync_android.Satisfy.Wait.{AllOf, AllSound, try_satisfy-AllOf}
use ntsync_android.Satisfy.Pulsed.{try_satisfy-resignals}
use ntsync_android.Tests.Data.{furnished}

-- A wait of the thread 9 for the event in slot 4, the mutex in slot 2 or the semaphore in slot 1.
abbrev targets : List Target
targets =
    record { handle = 4; entry_seq = 0 }
    ∷ record { handle = 2; entry_seq = 0 }
    ∷ record { handle = 1; entry_seq = 0 }
    ∷ []

try_satisfy-AnyOf_example :
    AnyOf furnished 9 targets 0
      (try_satisfy [] furnished 9 targets false).0
      (try_satisfy [] furnished 9 targets false).1
try_satisfy-AnyOf_example = try_satisfy-AnyOf furnished 9 targets

-- All three objects are sound; the event refuses the wait for all.
targets-AllSound : AllSound furnished targets
targets-AllSound = (
  record {
    typed = inr (inr refl);
    sem = λ e. ground arith;
    mutex = λ e. ground arith;
    event = λ e. ground arith;
    unpulsed = λ e. inl refl;
  },
  (
    record {
      typed = inr (inl refl);
      sem = λ e. ground arith;
      mutex = λ e. ground arith;
      event = λ e. ground arith;
      unpulsed = λ e. ground arith;
    },
    (
      record {
        typed = inl refl;
        sem = λ e. ground arith;
        mutex = λ e. ground arith;
        event = λ e. ground arith;
        unpulsed = λ e. ground arith;
      },
      tt,
    ),
  ),
)

try_satisfy-AllOf_example :
    AllOf furnished furnished 9 [] false targets
      (try_satisfy [] furnished 9 targets true).0
      (try_satisfy [] furnished 9 targets true).1
try_satisfy-AllOf_example =
    try_satisfy-AllOf furnished 9 targets (omega arith) (refl, (refl, (refl, tt))) targets-AllSound

-- The event in slot 4 was pulsed after the wait began, and the thread 8 cannot have the mutex.
abbrev pulsed : Target
pulsed = record { handle = 4; entry_seq = 1 }

abbrev busy : Target
busy = record { handle = 2; entry_seq = 0 }

busy-none : (acquire_at furnished 8 busy).0 ≡ none
unfolding acquire_at try_acquire cas_loop acquire_mutex_round
busy-none = refl

try_satisfy-resignals_example :
    ((try_satisfy [] furnished 8 (pulsed ∷ busy ∷ []) true).0 ≡ none)
    × (((try_satisfy [] furnished 8 (pulsed ∷ busy ∷ []) true).1.slots 4).w0 ≡ 1)
try_satisfy-resignals_example =
    try_satisfy-resignals furnished 8 pulsed busy (omega arith) refl (ground arith) refl refl
      (omega arith) busy-none

is_locked-eq-is_some_example :
    is_locked type_event 1 0 9 0 ≡ is_some (try_acquire [] type_event 1 0 9 0).1
is_locked-eq-is_some_example = is_locked-eq-is_some 0 9 0 type_event 1

-- Another thread releases one count of a full semaphore while this one takes one.
cas_loop-atomic_example :
    (n : ℕ) × (n ≤ 1)
    × (cas_loop acquire_sem_round ((λ w. w + 1) ∷ []) (5 * 2 ^ 32 + 2)
        ≡ atomic
            (after n ((λ w. w + 1) ∷ []) (5 * 2 ^ 32 + 2))
            (acquire_sem_round (after n ((λ w. w + 1) ∷ []) (5 * 2 ^ 32 + 2))))
cas_loop-atomic_example = cas_loop-atomic acquire_sem_round ((λ w. w + 1) ∷ []) (5 * 2 ^ 32 + 2)

signaled_word : IsEvent 1
signaled_word = ground arith

try_acquire-IsEvent_example :
    IsEvent (try_acquire [] type_event 1 0 9 0).0
    × ((try_acquire [] type_event 1 0 9 0).1 ≡ (wait_event_spec (not (0 == 0)) (event_of 1)).0)
    × (event_of (try_acquire [] type_event 1 0 9 0).0
        ≡ (wait_event_spec (not (0 == 0)) (event_of 1)).1)
try_acquire-IsEvent_example = try_acquire-IsEvent 0 9 0 1 signaled_word
