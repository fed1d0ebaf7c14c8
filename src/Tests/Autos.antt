-- ===== src/Tests/Autos.antt =====
-- The rate-limited sweep of src/core.rs at concrete inputs.
use ntsync_android.Base.{ℕ, ◌-◌, ◌%◌, ◌≡◌, ◌≤◌, ◌<◌, ◌⊎◌, refl, true, ◌==◌}
use ntsync_android.Region.{Region, set_slot}
use ntsync_android.Waiter.{wake_object, wake_loop}
use ntsync_android.Sweep.{
  pid_alive, scan_new, next_chunk, chunk_loop, verdicts_of, cand_alive, cache_alive, cache_find,
  cache_new, holders_alive, reap_dead_locked, reap_one, still_slot, holders_eq,
}
use ntsync_android.Sweep.Auto.{Meanwhile, auto_sweep_dead, auto_sweep, auto_loop}
use ntsync_android.Sweep.Pace.{Swept, auto_sweep_dead-Swept, auto_sweep_dead-paced}
use ntsync_android.Tests.Data.{furnished}

-- Sixty seconds after the start, with only the process 7 alive and nobody else acting.
abbrev calm : Meanwhile
calm = record {
  interval = 30000000000;
  now = 60000000000;
  now_locked = 60000000001;
  lock_ok = true;
  probe = λ pid. pid == 7;
  others = λ _ r. r;
  relock_ok = λ _. true;
}

-- The event of the dead process 9 in slot 2, below the mark of the slots handed out, and what the others
-- put there while the lock is given up: an event of the living process 7 in the next generation.
abbrev left_behind : Region
left_behind =
    let h = furnished.header in
    set_slot (record furnished { header = record h { next_scan = 6 } }) 2
      (record (furnished.slots 2) { state = 1; obj_type = 3; pid = 9; holders_len = 0 })

abbrev replaced : ℕ → Region → Region
replaced k r = set_slot r 2 (record (r.slots 2) { state = 1; pid = 7; generation = 1 })

abbrev busy : Meanwhile
busy = record calm { others = replaced }

-- The living process's object is still there after the sweep.
survives :
    (((auto_sweep_dead 256 busy left_behind).1.slots 2).state ≡ 1)
    × (((auto_sweep_dead 256 busy left_behind).1.slots 2).pid ≡ 7)
    × (((auto_sweep_dead 256 calm left_behind).1.slots 2).state ≡ 0)
unfolding auto_sweep_dead auto_sweep auto_loop scan_new next_chunk chunk_loop verdicts_of cand_alive
    cache_alive cache_find cache_new holders_alive reap_dead_locked reap_one still_slot holders_eq
    pid_alive wake_object wake_loop
survives = (refl, refl, refl)

auto_sweep_dead-Swept_example :
    Swept busy 2 (left_behind.slots 2) ((auto_sweep_dead 256 busy left_behind).1.slots 2)
auto_sweep_dead-Swept_example = auto_sweep_dead-Swept busy 2 256 left_behind

auto_sweep_dead-paced_example :
    ((auto_sweep_dead 256 calm furnished).1 ≡ furnished)
    ⊎ ((256 % 256 ≡ 0)
        × (0 < calm.interval)
        × (calm.interval ≤ calm.now_locked - furnished.header.sweep_ns)
        × ((auto_sweep_dead 256 calm furnished).1.header.sweep_ns ≡ calm.now_locked))
auto_sweep_dead-paced_example = auto_sweep_dead-paced calm 256 furnished (λ k r. refl)
