-- ===== src/Ffi/Deadline.antt =====
-- The entry points that wait (src/ffi.rs, lines 378-417), with a deadline.
use ntsync_android.Base.{◌≡◌, Bool, true, ◌||◌, Option, some, List, [], ◌∷◌}
use ntsync_android.Base.Int.{ℤ, pos, neg, eq_ℤ}
use ntsync_android.Region.{Region}
use ntsync_android.Block.Asleep.{Turn}
use ntsync_android.Ffi.{einval, efault, eownerdead}
use ntsync_android.Ffi.Wait.{etimedout}

-- The values that the C header promises.
abbrev pub promised : ℤ → Bool
promised v =
    eq_ℤ v (pos 0)
    || eq_ℤ v (neg (pos eownerdead))
    || eq_ℤ v (neg (pos etimedout))
    || eq_ℤ v (neg (pos einval))
    || eq_ℤ v (neg (pos efault))

abbrev pub Answered : Option ℤ → Type 0
Answered v = (value : ℤ) × (v ≡ some value) × (promised value ≡ true)

-- The interval of the rate-limited sweep is 0, which switches it off.
abbrev pub AllUnswept : List Turn → Type 0
AllUnswept [] = Unit
AllUnswept (t ∷ ts) = (t.sweep.interval ≡ 0) × (t.sweep_again.interval ≡ 0) × AllUnswept ts
