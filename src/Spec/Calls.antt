-- ===== src/Spec/Calls.antt =====
-- The calls of src/core.rs (lines 869-1087) on the object of a handle, as calls of one kind.
use ntsync_android.Base.{ℕ, ◌+◌, ◌≡◌, Bool, none, [], if◌then◌else◌}
use ntsync_android.Region.{Region, Env, Error, Result, ok, err}
use ntsync_android.Signal.{
  sem_release, event_set, event_reset, event_pulse, mutex_unlock, mutex_kill, read_sem, read_mutex,
  read_event,
}
use ntsync_android.Slot.{retain, release, close}
use ntsync_android.Spec.{
  a_sem, a_mutex, an_event, Table, ObjectCall, releases, unlocks, kills, sets, resets, pulses,
  reads_sem, reads_mutex, reads_event, retains, lets_go, closes, Answer, nothing, number, contents,
  answer_with, at_handle, call_spec,
}
use ntsync_android.Spec.View.{view}
use ntsync_android.Spec.Changes.{IsSound}
use ntsync_android.Spec.Ages.{AllAges}

abbrev pub answered : {A : Type 0} → (A → Answer) → Result A × Region → Result Answer × Region
answered f out = (answer_with f out.0, out.1)

abbrev pub sem_contents : ℕ × ℕ → Answer
sem_contents (count, max) = contents (a_sem (record { count = count; max = max }))

abbrev pub mutex_contents : ℕ × ℕ × Bool → Answer
mutex_contents (count, owner, dead) =
    contents (a_mutex (record { owner = owner; count = count; abandoned = dead }))

abbrev pub event_contents : Bool × Bool → Answer
event_contents (manual, signaled) =
    contents (an_event (record { manual = manual; signaled = signaled }))

-- `close` returns no error, only whether there was an object.
abbrev pub closed_answer : Bool × Region → Result Answer × Region
closed_answer out = ((if out.0 then ok nothing else err Error.invalid), out.1)

abbrev pub serve_call : Env → (handle : ℕ) → ObjectCall → Region → Result Answer × Region
serve_call env h (releases n) r = answered number (sem_release env h n r)
serve_call env h (unlocks owner) r = answered number (mutex_unlock env h owner r)
serve_call env h (kills owner) r = answered (λ _. nothing) (mutex_kill env h owner r)
serve_call env h sets r = answered number (event_set env h r)
serve_call env h resets r = answered number (event_reset env h r)
serve_call env h pulses r = answered number (event_pulse env h r)
serve_call env h reads_sem r = answered sem_contents (read_sem env h r)
serve_call env h reads_mutex r = answered mutex_contents (read_mutex env h r)
serve_call env h reads_event r = answered event_contents (read_event env h r)
serve_call env h retains r = answered (λ _. nothing) (retain env h r)
serve_call env h lets_go r = answered (λ _. nothing) (release env h r)
serve_call env h closes r = closed_answer (close env h r)

-- A process that meets no error and, during its calls, no other thread.
pub record IsQuiet (env : Env) : Type 0 where
  pub opened : env.region_error ≡ none
  pub locked : env.lock_error ≡ none
  pub alone : env.interference ≡ []

-- What a call returned and left agrees with what the table promises; the region stays sound, and
-- no handle comes back.
pub record Agrees (n : ℕ) (r : Region) (answer : Result Answer) (left : Region)
    (promised : Result Answer × Table) : Type 0 where
  pub answers : answer ≡ promised.0
  pub table : (k : ℕ) → view left k ≡ promised.1 k
  pub sound : IsSound (n + 1) left
  pub aged : AllAges r left

-- A call on a region that is sound after `n` calls.
abbrev pub Serves : Env → ℕ → Region → (handle : ℕ) → ObjectCall → Type 0
Serves env n r h c =
    Agrees n r (serve_call env h c r).0 (serve_call env h c r).1
      (at_handle (view r) h (call_spec c))
