-- ===== src/Object/State.antt =====
-- What an object is to its callers (README.md, the table of kernel concepts): the abstract state that
-- a word of each type stands for, and the operations of the kernel driver on it.
use ntsync_android.Base.{
  ℕ, ◌+◌, ◌-◌, ◌≤◌, ◌<◌, ◌^◌, ◌≡◌, Bool, true, false, ◌==◌, leb, not, if◌then◌else◌, Option, none,
  some,
}
use ntsync_android.Word.{lo, hi, mutex_count, mutex_dead}
use ntsync_android.Region.{Result, ok, err, overflow, perm}

pub record Sem : Type 0 where
  pub count : ℕ
  pub max : ℕ

pub record Mutex : Type 0 where
  pub owner : ℕ
  pub count : ℕ
  pub abandoned : Bool

pub record Event : Type 0 where
  pub manual : Bool
  pub signaled : Bool

-- The objects that words stand for.
abbrev pub sem_of : ℕ → Sem
sem_of w = record { count = lo w; max = hi w }

abbrev pub mutex_of : ℕ → Mutex
mutex_of w = record { owner = lo w; count = mutex_count w; abandoned = mutex_dead w }

abbrev pub event_of : ℕ → Event
event_of w = record { manual = not (hi w == 0); signaled = not (lo w == 0) }

-- The words that each type keeps.
pub record IsSem (w : ℕ) : Type 0 where
  pub fits : w < 2 ^ 64
  pub bounded : lo w ≤ hi w

-- A mutex is owned exactly when its recursion count is positive, and an abandoned one is free.
pub record IsMutex (w : ℕ) : Type 0 where
  pub fits : w < 2 ^ 64
  pub free : lo w ≡ 0 → mutex_count w ≡ 0
  pub held : mutex_count w ≡ 0 → lo w ≡ 0
  pub abandoned : mutex_dead w ≡ true → mutex_count w ≡ 0

pub record IsEvent (w : ℕ) : Type 0 where
  pub signal : lo w ≤ 1
  pub mode : hi w ≤ 1
  pub fits : w < 2 ^ 64

-- The kernel's operations.
unfoldable pub release_spec : ℕ → Sem → Result ℕ × Sem
release_spec n s =
    if leb (s.count + n) s.max
    then (ok s.count, record s { count = s.count + n })
    else (err overflow, s)

unfoldable pub set_spec : Event → Result ℕ × Event
set_spec e = (ok (if e.signaled then 1 else 0), record e { signaled = true })

unfoldable pub reset_spec : Event → Result ℕ × Event
reset_spec e = (ok (if e.signaled then 1 else 0), record e { signaled = false })

abbrev pub free_mutex : Bool → Mutex
free_mutex dead = record { owner = 0; count = 0; abandoned = dead }

unfoldable pub unlock_spec : ℕ → Mutex → Result ℕ × Mutex
unlock_spec owner m =
    if m.owner == owner
    then (
      ok m.count,
      (if m.count == 1 then free_mutex m.abandoned else record m { count = m.count - 1 }),
    )
    else (err perm, m)

unfoldable pub kill_spec : ℕ → Mutex → Result (Unit {0}) × Mutex
kill_spec owner m = if m.owner == owner then (ok tt, free_mutex true) else (err perm, m)

-- An acquisition takes one count, one level of recursion, or the signal of an auto-reset event; it
-- says whether the mutex was abandoned.
unfoldable pub wait_sem_spec : Sem → Option Bool × Sem
wait_sem_spec s = if s.count == 0 then (none, s) else (some false, record s { count = s.count - 1 })

unfoldable pub wait_mutex_spec : ℕ → Mutex → Option Bool × Mutex
wait_mutex_spec owner m =
    if leb 0x7fff_ffff m.count
    then (none, m)
    else if m.owner == 0
    then (some m.abandoned, record { owner = owner; count = m.count + 1; abandoned = false })
    else if m.owner == owner
    then (some false, record m { count = m.count + 1 })
    else (none, m)

-- `pulsed` says that the event was pulsed since the wait began.
unfoldable pub wait_event_spec : (pulsed : Bool) → Event → Option Bool × Event
wait_event_spec pulsed e =
    if e.signaled
    then (some false, (if e.manual then e else record e { signaled = false }))
    else ((if pulsed then some false else none), e)
