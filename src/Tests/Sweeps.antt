-- ===== src/Tests/Sweeps.antt =====
-- The sweep, the holder lists and the search for a slot of src/core.rs at concrete inputs.
use ntsync_android.Base.{ℕ, refl, Bool, ◌==◌, inl}
use ntsync_android.Waiter.Slots.{SameObject}
use ntsync_android.Sweep.{pid_alive, sweep_dead_locked}
use ntsync_android.Sweep.Reap.{Kept, sweep_dead-SameObject}
use ntsync_android.Tests.Data.{furnished}

-- Only the process 7, which created the objects, is alive.
abbrev alive : ℕ → Bool
alive pid = pid == 7

furnished-Kept : Kept alive (furnished.slots 1)
unfolding pid_alive
furnished-Kept = inl refl

sweep_dead-SameObject_example :
    SameObject ((sweep_dead_locked alive furnished).0.slots 1) (furnished.slots 1)
sweep_dead-SameObject_example = sweep_dead-SameObject alive 1 furnished furnished-Kept
