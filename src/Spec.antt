-- ===== src/Spec.antt =====
-- What the library promises its callers: a table of objects under handles, as the kernel driver keeps it
-- (README.md), and what each call of src/core.rs (lines 803-1087 and 2321-2329) does to that table. Slots,
-- generations, waiter nodes, holders and packed words are no part of it.
pub mod View
pub mod Changes
pub mod Ages
pub mod Calls
pub mod Kinds
pub mod Agree
pub mod Signals
pub mod Reads
pub mod Known
pub mod Handles
pub mod Closes
pub mod Pulses
pub mod Refines
pub mod Scans
pub mod Reaps
pub mod Makes
pub mod Spares
pub mod Creates
pub mod Polls
pub mod Takes
pub mod Attempts
pub mod Polled
pub mod Waits
pub mod Requests
pub mod Words
pub mod Serves
pub mod Histories
pub mod Retained
use ntsync_android.Block.Asleep.{Turned}
use ntsync_android.Base.{
  ℕ, ◌+◌, ◌<◌, ◌^◌, ◌≡◌, ◌⊎◌, Bool, true, false, not, ◌||◌, Option, none, some, ◌==◌, ltb,
  if◌then◌else◌, update,
}
use ntsync_android.Base.Int.{ℤ}
use ntsync_android.Region.{WaitOutcome, Error, Result, ok, err}
use ntsync_android.Object.State.{
  Sem, Mutex, Event, release_spec, set_spec, reset_spec, unlock_spec, kill_spec,
}

pub data Object : Type 0 where
  a_sem : Sem → Object
  a_mutex : Mutex → Object
  an_event : Event → Object

-- The objects, by their handles.
abbrev pub Table : Type 0
Table = ℕ → Option Object

-- A call on the object of a handle.
pub data ObjectCall : Type 0 where
  releases : (count : ℕ) → ObjectCall
  unlocks kills : (owner : ℕ) → ObjectCall
  sets resets pulses reads_sem reads_mutex reads_event retains lets_go closes : ObjectCall

pub data Answer : Type 0 where
  nothing : Answer
  number : ℕ → Answer
  contents : Object → Answer
  waited : Turned → Answer

-- The value of a call and the object that it leaves, if it leaves one.
abbrev pub Outcome : Type 0
Outcome = Result Answer × Option Object

abbrev pub answer_with : {A : Type 0} → (A → Answer) → Result A → Result Answer
answer_with f (ok a) = ok (f a)
answer_with f (err e) = err e

abbrev pub outcome : {A O : Type 0} → (A → Answer) → (O → Object) → Result A × O → Outcome
outcome f g out = (answer_with f out.0, some (g out.1))

-- A call on an object of another type.
abbrev pub refused : Object → Outcome
refused o = (err Error.invalid, some o)

abbrev pub on_sem : (Sem → Outcome) → Object → Outcome
on_sem f (a_sem s) = f s
on_sem f (a_mutex m) = refused (a_mutex m)
on_sem f (an_event e) = refused (an_event e)

abbrev pub on_mutex : (Mutex → Outcome) → Object → Outcome
on_mutex f (a_sem s) = refused (a_sem s)
on_mutex f (a_mutex m) = f m
on_mutex f (an_event e) = refused (an_event e)

abbrev pub on_event : (Event → Outcome) → Object → Outcome
on_event f (a_sem s) = refused (a_sem s)
on_event f (a_mutex m) = refused (a_mutex m)
on_event f (an_event e) = f e

-- A pulse reports whether the event was signaled, and leaves it unsignaled.
abbrev pub pulse_spec : Event → Result ℕ × Event
pulse_spec e = (ok (if e.signaled then 1 else 0), record e { signaled = false })

unfoldable pub call_spec : ObjectCall → Object → Outcome
call_spec (releases n) = on_sem (λ s. outcome number a_sem (release_spec n s))
call_spec (unlocks owner) =
    if owner == 0 then refused else on_mutex (λ m. outcome number a_mutex (unlock_spec owner m))
call_spec (kills owner) =
    if owner == 0
    then refused
    else on_mutex (λ m. outcome (λ _. nothing) a_mutex (kill_spec owner m))
call_spec sets = on_event (λ e. outcome number an_event (set_spec e))
call_spec resets = on_event (λ e. outcome number an_event (reset_spec e))
call_spec pulses = on_event (λ e. outcome number an_event (pulse_spec e))
call_spec reads_sem = on_sem (λ s. (ok (contents (a_sem s)), some (a_sem s)))
call_spec reads_mutex = on_mutex (λ m. (ok (contents (a_mutex m)), some (a_mutex m)))
call_spec reads_event = on_event (λ e. (ok (contents (an_event e)), some (an_event e)))
call_spec retains = λ o. (ok nothing, some o)
call_spec lets_go = λ o. (ok nothing, some o)
call_spec closes = λ o. (ok nothing, none)

-- The call on a table: a handle that names nothing is refused, and every other entry stays.
abbrev pub at_handle : Table → ℕ → (Object → Outcome) → Result Answer × Table
at_handle T h f = elim (T h) [
  | none ↦ (err Error.invalid, T)
  | some o ↦ ((f o).0, update T h (f o).1)
]
