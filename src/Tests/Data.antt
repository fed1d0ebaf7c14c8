-- ===== src/Tests/Data.antt =====
-- Concrete regions and callers for the tests.
use ntsync_android.Base.{ℕ, ◌+◌, ◌*◌, ◌^◌, none, List, [], ◌==◌}
use ntsync_android.Waiter.{node_alloc, node_register}
use ntsync_android.Region.{
  Region, Slot, Env, init_region, zero_slot, set_slot, nil, slot_used, type_sem, type_mutex,
  type_event,
}

-- A process that meets no error and no other thread.
abbrev pub alone : Env
alone = record {
  region_error = none;
  lock_error = none;
  pid = 7;
  probe = λ pid. pid == 7;
  interference = [];
}

-- The same among other threads.
abbrev pub among : List (ℕ → ℕ) → Env
among fs = record alone { interference = fs }

abbrev pub new_slot : (obj_type w0 : ℕ) → Slot
new_slot t w = record zero_slot {
  state = slot_used;
  obj_type = t;
  pid = 7;
  waiter_head = nil;
  w0 = w;
}

-- A semaphore (2 of 5) in slot 1, a mutex that 9 holds twice in slot 2, an auto-reset event that is
-- signaled in slot 3 and one that is not in slot 4.
abbrev pub furnished : Region
furnished =
    let r1 = set_slot init_region 1 (new_slot type_sem (5 * 2 ^ 32 + 2)) in
    let r2 = set_slot r1 2 (new_slot type_mutex (2 * 2 ^ 32 + 9)) in
    let r3 = set_slot r2 3 (new_slot type_event 1) in set_slot r3 4 (new_slot type_event 0)

-- The waiter nodes 0 and 1, allocated and linked on the list of the object in slot 1.
abbrev pub linked_once : Region
linked_once = node_register (node_alloc 7 furnished).1 0 1 0

abbrev pub linked_twice : Region
linked_twice = node_register (node_alloc 8 linked_once).1 1 1 1

abbrev pub unlinked_node : Region
unlinked_node = (node_alloc 8 linked_once).1
