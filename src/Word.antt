-- ===== src/Word.antt =====
-- src/core.rs, lines 290-304: the packed object state `w0`, one 64-bit word for each object.
--   sem:   hi32 = max,                           lo32 = count
--   mutex: hi32 = count (31 bits) | dead << 31,  lo32 = owner
--   event: hi32 = manual,                        lo32 = signaled
-- The fields that the source joins by `|` share no bit, so they are added; `x >> 32` is
-- `x / 2 ^ 32`, and `as u32` is `% 2 ^ 32`.
pub mod Fields
use ntsync_android.Base.{ℕ, ◌+◌, ◌-◌, ◌*◌, ◌/◌, ◌%◌, ◌^◌, Bool, true, false, ◌==◌, if◌then◌else◌}

-- `b as u64`
abbrev pub bit : Bool → ℕ
bit false = 0
bit true = 1

abbrev pub u32 : ℕ → ℕ
u32 n = n % 2 ^ 32

-- `w as u32`
abbrev pub lo : ℕ → ℕ
lo w = w % 2 ^ 32

-- `(w >> 32) as u32`
abbrev pub hi : ℕ → ℕ
hi w = w / 2 ^ 32 % 2 ^ 32

unfoldable pub pack_sem : ℕ → ℕ → ℕ
pack_sem count max = max * 2 ^ 32 + count

unfoldable pub pack_mutex : ℕ → ℕ → Bool → ℕ
pack_mutex owner count dead = (count % 2 ^ 31 + bit dead * 2 ^ 31) * 2 ^ 32 + owner

unfoldable pub pack_event : Bool → Bool → ℕ
pack_event signaled manual = bit manual * 2 ^ 32 + bit signaled

-- The recursion count, the owner and the abandoned bit of a mutex word.
abbrev pub mutex_count : ℕ → ℕ
mutex_count w = hi w % 2 ^ 31

abbrev pub mutex_dead : ℕ → Bool
mutex_dead w = if hi w / 2 ^ 31 == 0 then false else true

-- `w | 1` and `w & !1`
unfoldable pub set_low : ℕ → ℕ
set_low w = if w % 2 == 0 then w + 1 else w

unfoldable pub clear_low : ℕ → ℕ
clear_low w = w - w % 2
