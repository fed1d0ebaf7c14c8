-- ===== src/Object.antt =====
-- src/core.rs, lines 926-1217: what the operations do to the word `w0` of one object. Each lock-free
-- operation is a round of a compare-exchange loop (`Attempt`): the part of the loop's body from the
-- load to the compare-exchange. A reply carries whether the operation goes on to wake the waiters.
pub mod State
pub mod Refines
pub mod Acquire
pub mod Linear
use ntsync_android.Base.{
  ℕ, ◌+◌, ◌-◌, ◌%◌, ◌^◌, Bool, true, false, ◌&&◌, ◌||◌, not, ◌==◌, ltb, leb, if◌then◌else◌, Option,
  none, some, List, [], ◌∷◌,
}
use ntsync_android.Cas.{Attempt, done, swap, cas_loop}
use ntsync_android.Word.{lo, hi, pack_sem, pack_mutex, mutex_count, mutex_dead, set_low, clear_low}
use ntsync_android.Region.{Error, Result, ok, err, overflow, perm, type_sem, type_mutex, type_event}

pub record Reply (A : Type 0) : Type 0 where
  pub result : Result A
  pub wake : Bool

abbrev pub reply : {A : Type 0} → Result A → Bool → Reply A
reply a b = record { result = a; wake = b }

-- `count` is added with `checked_add`, and the sum must not exceed the maximum.
unfoldable pub sem_release_round : ℕ → ℕ → Attempt (Reply ℕ)
sem_release_round count w =
    let cur = lo w in
    let max = hi w in
    if ltb (cur + count) (2 ^ 32) && leb (cur + count) max
    then swap (pack_sem (cur + count) max) (reply (ok cur) true)
    else done (reply (err overflow) false)

unfoldable pub event_set_round : ℕ → Attempt (Reply ℕ)
event_set_round w =
    let prev = lo w in
    if not (prev == 0) then done (reply (ok prev) false) else swap (set_low w) (reply (ok 0) true)

unfoldable pub event_reset_round : ℕ → Attempt (Reply ℕ)
event_reset_round w =
    let prev = lo w in
    if prev == 0 then done (reply (ok 0) false) else swap (clear_low w) (reply (ok prev) false)

-- `count - 1` on `u32`.
unfoldable pub mutex_unlock_round : ℕ → ℕ → Attempt (Reply ℕ)
mutex_unlock_round owner w =
    let cur_owner = lo w in
    let count = mutex_count w in
    let ownerdead = mutex_dead w in
    if not (cur_owner == owner)
    then done (reply (err perm) false)
    else (let freed = count == 1 in
        swap (pack_mutex (if freed then 0 else owner) ((count + 2 ^ 32 - 1) % 2 ^ 32) ownerdead)
          (reply (ok count) freed))

unfoldable pub mutex_kill_round : ℕ → ℕ → Attempt (Reply (Unit {0}))
mutex_kill_round owner w =
    if not (lo w == owner)
    then done (reply (err perm) false)
    else swap (pack_mutex 0 0 true) (reply (ok tt) true)

-- `is_locked`, which is true of an object that could be acquired.
unfoldable pub is_locked : (obj_type w d : ℕ) → (owner entry_seq : ℕ) → Bool
is_locked obj_type w d owner entry_seq =
    if obj_type == type_sem
    then ltb 0 (lo w)
    else if obj_type == type_mutex
    then (lo w == 0 || lo w == owner) && ltb (mutex_count w) 0x7fff_ffff
    else if obj_type == type_event
    then not (lo w == 0) || not (d == entry_seq)
    else false

unfoldable pub acquire_sem_round : ℕ → Attempt (Option Bool)
acquire_sem_round w =
    let count = lo w in
    if count == 0 then done none else swap (pack_sem (count - 1) (hi w)) (some false)

unfoldable pub acquire_mutex_round : ℕ → ℕ → Attempt (Option Bool)
acquire_mutex_round owner w =
    let cur_owner = lo w in
    let count = mutex_count w in
    let ownerdead = mutex_dead w in
    if leb 0x7fff_ffff count
    then done none
    else if cur_owner == 0
    then swap (pack_mutex owner (count + 1) false) (some ownerdead)
    else if cur_owner == owner
    then swap (pack_mutex owner (count + 1) ownerdead) (some false)
    else done none

-- The inner loop that claims an auto-reset event; `false` when it was lost to another thread.
unfoldable pub claim_event_round : ℕ → Attempt Bool
claim_event_round w = if lo w == 0 then done false else swap (clear_low w) true

-- The second load of the event's word, after the other threads' next action.
abbrev pub claim_event : List (ℕ → ℕ) → ℕ → ℕ × Bool
claim_event [] w = cas_loop claim_event_round [] w
claim_event (f ∷ fs) w = cas_loop claim_event_round fs (f w)

-- Pulsed during the wait: satisfied, with nothing to reset.
abbrev pub pulse_check : (d entry_seq : ℕ) → Option Bool
pulse_check d entry_seq = if d == entry_seq then none else some false

unfoldable pub acquire_event : List (ℕ → ℕ) → (w d entry_seq : ℕ) → ℕ × Option Bool
acquire_event fs w d entry_seq =
    if lo w == 0
    then (w, pulse_check d entry_seq)
    else if hi w == 0
    then (let (w', won) = claim_event fs w in
        if won then (w', some false) else (w', pulse_check d entry_seq))
    else (w, some false)

-- `try_acquire`: the word afterwards, and `some owner_dead` on success.
unfoldable pub try_acquire :
    List (ℕ → ℕ) → (obj_type w d : ℕ) → (owner entry_seq : ℕ) → ℕ × Option Bool
try_acquire fs obj_type w d owner entry_seq =
    if obj_type == type_sem
    then cas_loop acquire_sem_round fs w
    else if obj_type == type_mutex
    then cas_loop (acquire_mutex_round owner) fs w
    else if obj_type == type_event
    then acquire_event fs w d entry_seq
    else (w, none)

-- `count + 1` and `count - 1` on `u32`.
unfoldable pub rollback_sem_round : ℕ → Attempt (Unit {0})
rollback_sem_round w = swap (pack_sem ((lo w + 1) % 2 ^ 32) (hi w)) tt

unfoldable pub rollback_mutex_round : ℕ → Bool → ℕ → Attempt (Unit {0})
rollback_mutex_round owner owner_dead_was w =
    let count = mutex_count w in
    if count == 1
    then swap (pack_mutex 0 0 owner_dead_was) tt
    else swap (pack_mutex owner ((count + 2 ^ 32 - 1) % 2 ^ 32) (mutex_dead w)) tt

unfoldable pub rollback_event_round : ℕ → Attempt (Unit {0})
rollback_event_round w = if hi w == 0 && lo w == 0 then swap (set_low w) tt else done tt

-- `rollback_acquire`: the word afterwards.
unfoldable pub rollback_acquire : List (ℕ → ℕ) → (obj_type w : ℕ) → (owner : ℕ) → Bool → ℕ
rollback_acquire fs obj_type w owner dead =
    if obj_type == type_sem
    then (cas_loop rollback_sem_round fs w).0
    else if obj_type == type_mutex
    then (cas_loop (rollback_mutex_round owner dead) fs w).0
    else if obj_type == type_event
    then (cas_loop rollback_event_round fs w).0
    else w
