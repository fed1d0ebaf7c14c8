-- ===== src/Tests/Slots.antt =====
-- The slot table of src/core.rs at concrete regions.
use ntsync_android.Base.{◌^◌, ◌≡◌, refl, true, false, none, arith}
use ntsync_android.Region.{Region, Error, ok, err, slot, init_region, zero_slot, set_slot}
use ntsync_android.Signal.{read_sem, read_mutex, read_event}
use ntsync_android.Slot.{
  create_semaphore, create_mutex, create_event, create, alloc_slot_or_sweep, alloc_slot, alloc_loop,
  slot_publish,
}
use ntsync_android.Slot.Create.{create_semaphore-read_sem, create_mutex-read_mutex, create-stale}
use ntsync_android.Tests.Data.{alone}

-- The region after a creation.
abbrev pub after_sem : Region
after_sem = (create_semaphore alone 2 5 init_region).1

abbrev after_mutex : Region
after_mutex = (create_mutex alone 9 2 init_region).1

-- The first handle is 1, since slot 0 is reserved.
first_handle : create_semaphore alone 2 5 init_region ≡ (ok 1, after_sem)
unfolding create_semaphore create alloc_slot_or_sweep alloc_slot alloc_loop slot_publish
first_handle = refl

create_semaphore-read_sem_example : read_sem alone 1 after_sem ≡ (ok (2, 5), after_sem)
unfolding create_semaphore create alloc_slot_or_sweep alloc_slot alloc_loop slot_publish
create_semaphore-read_sem_example =
    create_semaphore-read_sem alone 2 5 init_region (omega arith) (omega arith) first_handle
      (omega arith)

first_mutex : create_mutex alone 9 2 init_region ≡ (ok 1, after_mutex)
unfolding create_mutex create alloc_slot_or_sweep alloc_slot alloc_loop slot_publish
first_mutex = refl

create_mutex-read_mutex_example : read_mutex alone 1 after_mutex ≡ (ok (2, 9, false), after_mutex)
unfolding create_mutex create alloc_slot_or_sweep alloc_slot alloc_loop slot_publish
create_mutex-read_mutex_example =
    create_mutex-read_mutex alone 9 2 init_region (omega arith) first_mutex (omega arith)

-- Slot 1 has been closed 2 ^ 18 times.
abbrev worn : Region
worn = set_slot init_region 1 (record zero_slot { generation = 2 ^ 18 })

abbrev after_worn : Region
after_worn = (create_event alone true false worn).1

worn_event : create_event alone true false worn ≡ (ok 1, after_worn)
unfolding create_event create alloc_slot_or_sweep alloc_slot alloc_loop slot_publish
worn_event = refl

create-stale_example :
    (read_event alone 1 after_worn ≡ (err Error.invalid, after_worn)) × (slot after_worn 1 ≡ none)
unfolding create_event create alloc_slot_or_sweep alloc_slot alloc_loop slot_publish
create-stale_example = create-stale alone true false worn worn_event (omega arith)
