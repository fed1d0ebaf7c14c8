-- ===== src/Tests/Histories.antt =====
-- A history of a region of src/core.rs: an object is created, and a waiter registers for it and leaves.
use ntsync_android.Base.{ℕ, Bool, false, arith, ◌≡◌, refl, some, [], ◌∷◌}
use ntsync_android.Region.{Region, init_region, type_sem, slot_used, slot_free}
use ntsync_android.Waiter.{node_alloc, node_register}
use ntsync_android.Slot.{alloc_slot, alloc_loop, slot_publish}
use ntsync_android.Steps.{Reach, start, after, creates, allocates, registers}
use ntsync_android.Steps.Table.{Owning}
use ntsync_android.Steps.Invariant.{Reach-Owning}
use ntsync_android.Steps.Passed.{sweep_dead-Reach}
use ntsync_android.Sweep.{pid_alive, sweep_dead_locked}
use ntsync_android.Sweep.Frees.{IsDead}

abbrev created : Region
created = slot_publish 7 1 type_sem 2 (alloc_slot init_region).1

abbrev taken : Region
taken = (node_alloc 7 created).1

abbrev watched : Region
watched = node_register taken 0 1 0

took : alloc_slot init_region ≡ (some 1, (alloc_slot init_region).1)
unfolding alloc_slot alloc_loop
took = refl

handed_out : node_alloc 7 created ≡ (some 0, taken)
unfolding slot_publish alloc_slot alloc_loop node_alloc
handed_out = refl

idle : (taken.nodes 0).registered ≡ 0
unfolding slot_publish alloc_slot alloc_loop node_alloc
idle = refl

in_use : (taken.slots 1).state ≡ slot_used
unfolding slot_publish alloc_slot alloc_loop node_alloc
in_use = refl

history : Reach watched (0 ∷ [])
history =
    after (after (after start (creates 1 7 type_sem 2 took)) (allocates 7 0 handed_out))
      (registers 0 1 0 refl idle in_use)

Reach-Owning_example : Owning watched (0 ∷ [])
Reach-Owning_example = Reach-Owning history

-- Nobody is alive.
abbrev extinct : ℕ → Bool
extinct _ = false

watched-IsDead : IsDead extinct (watched.slots 1)
unfolding slot_publish alloc_slot alloc_loop node_alloc node_register pid_alive
watched-IsDead = record { used = refl; created = ground arith; unowned = refl; unspilled = refl }

sweep_dead-Reach_example : ((sweep_dead_locked extinct watched).0.slots 1).state ≡ slot_free
sweep_dead-Reach_example = sweep_dead-Reach extinct 1 history (omega arith) watched-IsDead
