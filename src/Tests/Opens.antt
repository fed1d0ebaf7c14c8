-- ===== src/Tests/Opens.antt =====
-- The opening of the region file of src/core.rs with concrete answers of the system calls.
use ntsync_android.Base.{◌≡◌, ◌≢◌, arith, ◌⊎◌, false, none}
use ntsync_android.Region.{init_region}
use ntsync_android.Open.{Answers, try_open_and_map, magic, codes, versioned}
use ntsync_android.Open.Paths.{Named, versioned-ne}
use ntsync_android.Open.Released.{after_calls, nothing, is_done, Returns, try_open_and_map-Returns}

-- A file of the right size from another build.
abbrev stale : Answers
stale = record {
  open_error = none;
  flock_error = none;
  fstat_error = none;
  size = 1000;
  ftruncate_error = none;
  mmap_error = none;
  header = record { magic = magic; version = 9; capacity = 16384; node_capacity = 8192 };
  contents = init_region;
}

try_open_and_map-Returns_example :
    ((after_calls nothing (try_open_and_map 1000 stale).1).descriptor ≡ false)
    × ((after_calls nothing (try_open_and_map 1000 stale).1).lock ≡ false)
    × ((after_calls nothing (try_open_and_map 1000 stale).1).mapping
        ≡ is_done (try_open_and_map 1000 stale).0)
    × (((after_calls nothing (try_open_and_map 1000 stale).1).written ≡ false) ⊎ (stale.size ≡ 0))
    × Returns stale 1000 (try_open_and_map 1000 stale).0
try_open_and_map-Returns_example = try_open_and_map-Returns 1000 stale

versioned-ne_example :
    Named (codes "a.shm") (versioned (codes "a.shm"))
    × Named (codes "a.v10.shm") (versioned (codes "a.v10.shm"))
    × (versioned (codes "a.shm") ≢ versioned (codes "a.v10.shm"))
versioned-ne_example = versioned-ne (codes "a.shm") (codes "a.v10.shm") (λ e. ground (arith, e))
