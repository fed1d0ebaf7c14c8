-- ===== src/Word/Fields.antt =====
-- Reading a packed word gives back the fields that were packed (src/core.rs, lines 290-304).
use ntsync_android.Base.{ℕ, ◌^◌, ◌<◌, ◌≡◌, Bool, true, false, arith}
use ntsync_android.Word.{lo, hi, pack_sem, pack_mutex, mutex_count, mutex_dead}

pub lo-pack_sem : (c m : ℕ) → c < 2 ^ 32 → lo (pack_sem c m) ≡ c
unfolding pack_sem
lo-pack_sem c m h = omega arith

pub hi-pack_sem : (c m : ℕ) → c < 2 ^ 32 → m < 2 ^ 32 → hi (pack_sem c m) ≡ m
unfolding pack_sem
hi-pack_sem c m h k = omega arith

pub pack_sem_eta : (w : ℕ) → w < 2 ^ 64 → pack_sem (lo w) (hi w) ≡ w
unfolding pack_sem
pack_sem_eta w h = omega arith

pub lo-pack_mutex : (o c : ℕ) (d : Bool) → o < 2 ^ 32 → lo (pack_mutex o c d) ≡ o
unfolding pack_mutex
lo-pack_mutex o c d h = omega arith

pub mutex_count-pack_mutex :
    (o c : ℕ) (d : Bool) → o < 2 ^ 32 → c < 2 ^ 31 → mutex_count (pack_mutex o c d) ≡ c
unfolding pack_mutex
mutex_count-pack_mutex o c true h k = omega arith
mutex_count-pack_mutex o c false h k = omega arith

pub mutex_dead-pack_mutex : (o c : ℕ) (d : Bool) → o < 2 ^ 32 → mutex_dead (pack_mutex o c d) ≡ d
unfolding pack_mutex
mutex_dead-pack_mutex o c true h = ground arith
mutex_dead-pack_mutex o c false h = ground arith

pub pack_mutex_eta : (w : ℕ) → w < 2 ^ 64 → pack_mutex (lo w) (mutex_count w) (mutex_dead w) ≡ w
unfolding pack_mutex
pack_mutex_eta w h = ground arith
