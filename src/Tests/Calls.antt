-- ===== src/Tests/Calls.antt =====
-- The C interface of src/ffi.rs at concrete arguments.
use ntsync_android.Base.{◌≡◌, refl, true, some, [], ◌∷◌, arith}
use ntsync_android.Base.Int.{pos, neg}
use ntsync_android.Region.{Env, init_region}
use ntsync_android.Slot.{
  create_semaphore, create, alloc_slot_or_sweep, alloc_slot, alloc_loop, slot_publish,
}
use ntsync_android.Ffi.{SemArgs, ntsync_create_sem, ntsync_sem_read}
use ntsync_android.Ffi.Errno.{lock_error_of, ntsync_create_sem-positive}
use ntsync_android.Lock.{lock_guard, lock_loop}
use ntsync_android.Tests.Locks.{block_sigusr1}
use ntsync_android.Ffi.Calls.{ntsync_create_sem-ntsync_sem_read}
use ntsync_android.Tests.Data.{alone}
use ntsync_android.Tests.Slots.{after_sem}

abbrev two_of_five : SemArgs
two_of_five = record { count = 2; max = 5 }

abbrev blank : SemArgs
blank = record { count = 0; max = 0 }

reports :
    ntsync_create_sem alone (some 0) (some two_of_five) init_region
    ≡ record { value = pos 0; out = some 1; region = after_sem }
unfolding ntsync_create_sem create_semaphore create alloc_slot_or_sweep alloc_slot alloc_loop
    slot_publish
reports = refl

first_generation : (after_sem.slots 1).generation ≡ 0
unfolding create_semaphore create alloc_slot_or_sweep alloc_slot alloc_loop slot_publish
first_generation = refl

ntsync_create_sem-ntsync_sem_read_example :
    ntsync_sem_read alone 1 (some blank) after_sem
    ≡ record { value = pos 0; out = some two_of_five; region = after_sem }
ntsync_create_sem-ntsync_sem_read_example =
    ntsync_create_sem-ntsync_sem_read alone 0 1 two_of_five blank init_region after_sem refl refl
      (omega arith) (omega arith) reports (omega (arith, first_generation))

-- A process whose lock call returns ENOTRECOVERABLE.
abbrev unlocked : Env
unlocked = record alone { lock_error = some (neg (pos 131)) }

at_refused :
    unlocked.lock_error ≡ lock_error_of (lock_guard block_sigusr1 true (131 ∷ []) (2 ∷ [])).0
unfolding lock_guard lock_loop
at_refused = refl

ntsync_create_sem-positive_example :
    ((ntsync_create_sem unlocked (some 0) (some two_of_five) init_region).value ≡ pos 131)
    × ((ntsync_create_sem unlocked (some 0) (some two_of_five) init_region).out ≡ some 0)
    × ((ntsync_create_sem unlocked (some 0) (some two_of_five) init_region).region ≡ init_region)
ntsync_create_sem-positive_example =
    ntsync_create_sem-positive block_sigusr1 true [] (2 ∷ []) unlocked init_region 0 131 two_of_five
      (omega arith) refl (omega arith) (omega arith) (omega arith) (omega arith) at_refused
