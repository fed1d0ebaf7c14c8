-- ===== src/Tests/Spins.antt =====
-- The spin budgets of src/core.rs at concrete states.
use ntsync_android.Base.{◌+◌, ◌-◌, ◌*◌, ◌/◌, ◌%◌, ◌≤◌, ◌≡◌, refl, [], ◌∷◌, arith, min, max}
use ntsync_android.Base.Int.{negsuc}
use ntsync_android.Spin.{SpinCredit, fresh_budget, tail_budget_cap}
use ntsync_android.Spin.Tail.{granted, end_time, granted-bound}
use ntsync_android.Spin.Credit.{total_budget, spin_budget-probes}

-- Three frames of 1 ms that each want 150 us, at 15% of a core.
granted-bound_example :
    granted 150000000 ((1000, 150000) ∷ (1001000, 150000) ∷ (2001000, 150000) ∷ []) fresh_budget
      * 1000000000
    ≤ tail_budget_cap 150000000 * 1000000000
      + (end_time 1000 ((1001000, 150000) ∷ (2001000, 150000) ∷ []) - 1000) * 150000000
granted-bound_example =
    granted-bound 150000000 (omega arith) 1000 150000 ((1001000, 150000) ∷ (2001000, 150000) ∷ [])
      (omega arith) (omega arith, (omega arith, tt))

-- A thread out of credit that has counted 6 waits.
abbrev losing : SpinCredit
losing = record { credit = negsuc 3; probe = 6 }

spin_budget-probes_example :
    total_budget 10 200 losing ≡ min (max (200 / 8) 8) 64 * ((losing.probe % 8 + 10) / 8)
spin_budget-probes_example = spin_budget-probes 10 200 losing (omega arith) refl
