-- ===== src/Ffi.antt =====
-- src/ffi.rs: the C interface. A pointer is `none` when it is null; a call returns its value (0 or an
-- errno, negated), what it leaves behind the caller's pointer, and the region.
pub mod Errno
pub mod Calls
pub mod Wait
pub mod Poll
pub mod Deadline
use ntsync_android.Base.{
  ℕ, ◌+◌, ◌*◌, ◌-◌, ◌/◌, ◌%◌, ◌^◌, Bool, true, false, not, ◌||◌, Option, none, some, List, [], ◌∷◌,
  ◌==◌, ltb, if◌then◌else◌, take, length,
}
use ntsync_android.Base.Int.{ℤ, pos, neg}
use ntsync_android.Region.{
  Region, Error, Result, ok, err, init, perm, overflow, Env, Op, WaitOutcome, signaled, timeout,
  max_wait_count,
}
use ntsync_android.Signal.{
  sem_release, event_set, event_reset, event_pulse, mutex_unlock, mutex_kill, read_sem, read_mutex,
  read_event,
}
use ntsync_android.Slot.{
  create_semaphore, create_mutex, create_event, close, retain, release, sweep_dead,
}

abbrev pub eperm : ℕ
eperm = 1

abbrev pub efault : ℕ
efault = 14

abbrev pub einval : ℕ
einval = 22

abbrev pub eoverflow : ℕ
eoverflow = 75

abbrev pub eownerdead : ℕ
eownerdead = 130

pub record SemArgs : Type 0 where
  pub count : ℕ
  pub max : ℕ

pub record MutexArgs : Type 0 where
  pub owner : ℕ
  pub count : ℕ

pub record EventArgs : Type 0 where
  pub manual : ℕ
  pub signaled : ℕ

unfoldable pub errno : Error → ℤ
errno Error.invalid = neg (pos einval)
errno perm = neg (pos eperm)
errno overflow = neg (pos eoverflow)
errno (init e) = neg e

-- What a call returns, and what stands behind the pointer then.
pub record Returned (P : Type 0) : Type 0 where
  pub value : ℤ
  pub out : P
  pub region : Region

module _ {A P : Type 0} where
  -- `match op { Ok(a) => { write; value }, Err(e) => errno(e) }`
  abbrev pub settle : P → (A → P × ℤ) → Result A × Region → Returned P
  settle p f (ok a, r) = record { value = (f a).1; out = (f a).0; region = r }
  settle p f (err e, r) = record { value = errno e; out = p; region = r }

abbrev pub faulted : {P : Type 0} → P → Region → Returned P
faulted p r = record { value = neg (pos efault); out = p; region = r }

abbrev pub bit : Bool → ℕ
bit true = 1
bit false = 0

-- The handle is written behind `out_handle`, a null pointer being `none`.
abbrev pub creation : Env → Op ℕ → Option ℕ → Region → Returned (Option ℕ)
creation env op none r = faulted none r
creation env op (some out) r = settle (some out) (λ h. (some h, pos 0)) (op r)

unfoldable pub ntsync_create_sem :
    Env → (out_handle : Option ℕ) → Option SemArgs → Region → Returned (Option ℕ)
ntsync_create_sem env out none r = faulted out r
ntsync_create_sem env out (some args) r =
    creation env (create_semaphore env args.count args.max) out r

unfoldable pub ntsync_create_mutex :
    Env → (out_handle : Option ℕ) → Option MutexArgs → Region → Returned (Option ℕ)
ntsync_create_mutex env out none r = faulted out r
ntsync_create_mutex env out (some args) r =
    creation env (create_mutex env args.owner args.count) out r

unfoldable pub ntsync_create_event :
    Env → (out_handle : Option ℕ) → Option EventArgs → Region → Returned (Option ℕ)
ntsync_create_event env out none r = faulted out r
ntsync_create_event env out (some args) r =
    creation env (create_event env (not (args.manual == 0)) (not (args.signaled == 0))) out r

-- `n as i32`
abbrev pub as_i32 : ℕ → ℤ
as_i32 n = if ltb n (2 ^ 31) then pos n else neg (pos (2 ^ 32 - n))

unfoldable pub ntsync_sweep_dead : Env → Region → Returned (Unit {0})
ntsync_sweep_dead env r = settle tt (λ n. (tt, as_i32 n)) (sweep_dead env r)

unfoldable pub ntsync_close : Env → (handle : ℕ) → Region → Returned (Unit {0})
ntsync_close env handle r =
    let (closed, r') = close env handle r in
    record { value = if closed then pos 0 else neg (pos einval); out = tt; region = r' }

-- The errors that `retain` and `release` name.
abbrev pub holder_errno : Error → ℤ
holder_errno Error.invalid = neg (pos einval)
holder_errno (init e) = neg e
holder_errno perm = neg (pos einval)
holder_errno overflow = neg (pos einval)

abbrev pub holding : Result (Unit {0}) × Region → Returned (Unit {0})
holding (ok a, r) = record { value = pos 0; out = tt; region = r }
holding (err e, r) = record { value = holder_errno e; out = tt; region = r }

unfoldable pub ntsync_retain : Env → (handle : ℕ) → Region → Returned (Unit {0})
ntsync_retain env handle r = holding (retain env handle r)

unfoldable pub ntsync_release : Env → (handle : ℕ) → Region → Returned (Unit {0})
ntsync_release env handle r = holding (release env handle r)

unfoldable pub ntsync_sem_release :
    Env → (handle : ℕ) → (count : Option ℕ) → Region → Returned (Option ℕ)
ntsync_sem_release env handle none r = faulted none r
ntsync_sem_release env handle (some count) r =
    settle (some count) (λ prev. (some prev, pos 0)) (sem_release env handle count r)

unfoldable pub ntsync_sem_read :
    Env → (handle : ℕ) → Option SemArgs → Region → Returned (Option SemArgs)
ntsync_sem_read env handle none r = faulted none r
ntsync_sem_read env handle (some args) r =
    settle (some args) (λ a. (some (record { count = a.0; max = a.1 }), pos 0))
      (read_sem env handle r)

unfoldable pub ntsync_mutex_unlock :
    Env → (handle : ℕ) → Option MutexArgs → Region → Returned (Option MutexArgs)
ntsync_mutex_unlock env handle none r = faulted none r
ntsync_mutex_unlock env handle (some args) r =
    settle (some args) (λ prev. (some (record args { count = prev }), pos 0))
      (mutex_unlock env handle args.owner r)

unfoldable pub ntsync_mutex_kill : Env → (handle owner : ℕ) → Region → Returned (Unit {0})
ntsync_mutex_kill env handle owner r = settle tt (λ a. (tt, pos 0)) (mutex_kill env handle owner r)

unfoldable pub ntsync_mutex_read :
    Env → (handle : ℕ) → Option MutexArgs → Region → Returned (Option MutexArgs)
ntsync_mutex_read env handle none r = faulted none r
ntsync_mutex_read env handle (some args) r =
    settle (some args)
      (λ a.
        (some (record { owner = a.1; count = a.0 }), if a.2 then neg (pos eownerdead) else pos 0))
      (read_mutex env handle r)

-- The previous state goes behind `prev` unless that is null.
abbrev pub store_prev : Option ℕ → ℕ → Option ℕ × ℤ
store_prev none p = (none, pos 0)
store_prev (some old) p = (some p, pos 0)

unfoldable pub ntsync_event_set :
    Env → (handle : ℕ) → (prev : Option ℕ) → Region → Returned (Option ℕ)
ntsync_event_set env handle prev r = settle prev (store_prev prev) (event_set env handle r)

unfoldable pub ntsync_event_reset :
    Env → (handle : ℕ) → (prev : Option ℕ) → Region → Returned (Option ℕ)
ntsync_event_reset env handle prev r = settle prev (store_prev prev) (event_reset env handle r)

unfoldable pub ntsync_event_pulse :
    Env → (handle : ℕ) → (prev : Option ℕ) → Region → Returned (Option ℕ)
ntsync_event_pulse env handle prev r = settle prev (store_prev prev) (event_pulse env handle r)

unfoldable pub ntsync_event_read :
    Env → (handle : ℕ) → Option EventArgs → Region → Returned (Option EventArgs)
ntsync_event_read env handle none r = faulted none r
ntsync_event_read env handle (some args) r =
    settle (some args) (λ a. (some (record { manual = bit a.0; signaled = bit a.1 }), pos 0))
      (read_event env handle r)
