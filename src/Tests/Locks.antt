-- ===== src/Tests/Locks.antt =====
-- The guard of the region lock of src/core.rs at a run of lock calls.
use ntsync_android.Base.{ℕ, ◌≡◌, refl, true, List, [], ◌∷◌, some}
use ntsync_android.Lock.{locked, lock_loop, lock_guard, drop_guard, eintr, eownerdead}
use ntsync_android.Lock.Guard.{Guarded, lock_guard-Guarded}

-- The signal mask as the list of the blocked signals; SIGUSR1 is 10.
abbrev pub block_sigusr1 : List ℕ → List ℕ
block_sigusr1 mask = 10 ∷ mask

-- The first call is interrupted, and the last holder died.
inherits :
    lock_guard block_sigusr1 true (eintr ∷ eownerdead ∷ []) (2 ∷ [])
    ≡ (locked (some (2 ∷ [])) true, 10 ∷ 2 ∷ [])
unfolding lock_guard lock_loop
inherits = refl

lock_guard-Guarded_example :
    Guarded
      (2 ∷ [])
      (10 ∷ 2 ∷ [])
      (some (2 ∷ []))
      (eintr ∷ eownerdead ∷ [])
      (lock_guard block_sigusr1 true (eintr ∷ eownerdead ∷ []) (2 ∷ [])).0
      (lock_guard block_sigusr1 true (eintr ∷ eownerdead ∷ []) (2 ∷ [])).1
    × (drop_guard block_sigusr1 (some (2 ∷ [])) (10 ∷ 2 ∷ []) ≡ 2 ∷ [])
lock_guard-Guarded_example =
    lock_guard-Guarded block_sigusr1 true (eintr ∷ eownerdead ∷ []) (2 ∷ [])
