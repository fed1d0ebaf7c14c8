-- ===== src/Spec/Polls.antt =====
-- What a `wait` without time to wait promises on the table (src/core.rs, lines 1427-1535): an acquisition of one
-- object, of any, or of all.
use ntsync_android.Base.{
  ℕ, ◌+◌, Bool, true, false, not, ◌||◌, ◌&&◌, ◌==◌, ltb, if◌then◌else◌, Option, none, some, List,
  [], ◌∷◌, length, update,
}
use ntsync_android.Region.{WaitOutcome, signaled, max_wait_count}
use ntsync_android.Wait.{has_duplicate, or_timeout}
use ntsync_android.Object.State.{wait_sem_spec, wait_mutex_spec, wait_event_spec}
use ntsync_android.Spec.{Table, Object, a_sem, a_mutex, an_event}

-- What `owner` gets of an object: nothing, or whether it was an abandoned mutex.
unfoldable pub take_spec : (owner : ℕ) → Object → Option Bool × Object
take_spec owner (a_sem s) = ((wait_sem_spec s).0, a_sem (wait_sem_spec s).1)
take_spec owner (a_mutex m) = ((wait_mutex_spec owner m).0, a_mutex (wait_mutex_spec owner m).1)
take_spec owner (an_event e) = ((wait_event_spec false e).0, an_event (wait_event_spec false e).1)

-- The same at a handle.
abbrev pub take_at : Table → (owner handle : ℕ) → Option Bool × Table
take_at T owner h = elim (T h) [
  | none ↦ (none, T)
  | some o ↦ ((take_spec owner o).0, update T h (some (take_spec owner o).1))
]

-- The first object that can be acquired, and its place from `i` on.
abbrev pub any_spec : (i : ℕ) → Table → (owner : ℕ) → List ℕ → Option WaitOutcome × Table
any_spec i T owner [] = (none, T)
any_spec i T owner (h ∷ hs) =
    let rest = any_spec (i + 1) T owner hs in
    elim (take_at T owner h).0 [
      | some dead ↦ (some (signaled i dead), (take_at T owner h).1)
      | none ↦ rest
    ]

-- All objects, one after the other, if each can be acquired; `od` is whether an abandoned one was among
-- those before.
abbrev pub all_spec : (od : Bool) → Table → (owner : ℕ) → List ℕ → Option (Bool × Table)
all_spec od T owner [] = some (od, T)
all_spec od T owner (h ∷ hs) = elim (take_at T owner h).0 [
  | some dead ↦ all_spec (od || dead) (take_at T owner h).1 owner hs
  | none ↦ none
]

abbrev pub all_outcome : Table → Option (Bool × Table) → Option WaitOutcome × Table
all_outcome T none = (none, T)
all_outcome T (some (od, T')) = (some (signaled 0 od), T')

abbrev pub attempt_spec : (all : Bool) → Table → (owner : ℕ) → List ℕ → Option WaitOutcome × Table
attempt_spec false T owner hs = any_spec 0 T owner hs
attempt_spec true T owner hs = all_outcome T (all_spec false T owner hs)

abbrev pub is_named : Option Object → Bool
is_named none = false
is_named (some o) = true

abbrev pub all_named : Table → List ℕ → Bool
all_named T [] = true
all_named T (h ∷ hs) = is_named (T h) && all_named T hs

-- The whole poll; without an outcome it has to look again under the lock.
abbrev pub poll_spec :
    (all : Bool) → (owner : ℕ) → (handles : List ℕ) → Table → Option WaitOutcome × Table
poll_spec all owner handles T =
    let got = attempt_spec all T owner handles in
    if owner == 0 || (length handles == 0 || ltb max_wait_count (length handles))
    then (some WaitOutcome.invalid, T)
    else if has_duplicate [] handles
    then (some WaitOutcome.invalid, T)
    else if not (all_named T handles)
    then (none, T)
    else (or_timeout true got.0, got.1)
