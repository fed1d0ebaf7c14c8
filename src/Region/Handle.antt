-- ===== src/Region/Handle.antt =====
-- What a successful lookup of a handle says (src/core.rs, `Region::slot`).
use ntsync_android.Base.{ℕ, ◌≡◌, none, some, arith}
use ntsync_android.Region.{Region, Error, ok, err, slot, index_of, generation_of, slot_used, find}

-- A handle is found exactly at its own index, in a used slot of its generation.
pub slot-some :
    (r : Region) (handle : ℕ) {i : ℕ}
    → slot r handle ≡ some i
    → (i ≡ index_of handle)
      × ((r.slots i).state ≡ slot_used)
      × ((r.slots i).generation ≡ generation_of handle)
unfolding slot
slot-some r handle h = ground arith

pub slot_found :
    (r : Region) (handle : ℕ)
    → (r.slots (index_of handle)).state ≡ slot_used
    → (r.slots (index_of handle)).generation ≡ generation_of handle
    → slot r handle ≡ some (index_of handle)
unfolding slot
slot_found r handle h k = ground arith

pub find-ok :
    (r : Region) (t handle : ℕ)
    → slot r handle ≡ some (index_of handle)
    → (r.slots (index_of handle)).obj_type ≡ t
    → find t handle r ≡ (ok (index_of handle), r)
find-ok r t handle h k = ground arith

pub find-none :
    (r : Region) (t handle : ℕ) → slot r handle ≡ none → find t handle r ≡ (err Error.invalid, r)
find-none r t handle h = ground arith
