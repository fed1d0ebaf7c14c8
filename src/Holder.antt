-- ===== src/Holder.antt =====
-- src/core.rs, lines 832-868: the pids that hold an object besides its creator, in the first
-- `holders_len` cells of `holders`; the top bit of `holders_len` says that the list spilled.
pub mod List
pub mod Held
use ntsync_android.Base.{
  ℕ, zero, suc, ◌+◌, ◌-◌, ◌*◌, ◌/◌, ◌%◌, ◌^◌, min, Option, none, some, ◌==◌, if◌then◌else◌, update,
}
use ntsync_android.Region.{Slot, max_holders, holder_overflow}

-- `(len as usize).min(MAX_HOLDERS)`
abbrev pub cap_of : ℕ → ℕ
cap_of len = min (len % 2 ^ 31) max_holders

-- `holders_len & HOLDER_OVERFLOW`
abbrev pub overflow_bit : ℕ → ℕ
overflow_bit len = len / 2 ^ 31 % 2 * holder_overflow

-- `for i in 0..cap { if holders[i] == pid { ... return } }`: the `i` that is found, if one is.
unfoldable pub holder_index : (left i : ℕ) → (holders : ℕ → ℕ) → (pid : ℕ) → Option ℕ
holder_index zero i holders pid = none
holder_index (suc left) i holders pid =
    let rest = holder_index left (i + 1) holders pid in if holders i == pid then some i else rest

unfoldable pub holder_remove : Slot → (pid : ℕ) → Slot
holder_remove s pid =
    let cap = cap_of s.holders_len in
    elim (holder_index cap 0 s.holders pid) [
      | none ↦ s
      | some i ↦
          let last = cap - 1 in
          record s {
            holders = update (update s.holders i (s.holders last)) last 0;
            holders_len = (cap - 1) + overflow_bit s.holders_len;
          }
    ]

unfoldable pub holder_add : Slot → (pid : ℕ) → Slot
holder_add s pid =
    let cap = cap_of s.holders_len in
    elim (holder_index cap 0 s.holders pid) [
      | some i ↦ s
      | none ↦
          if cap == max_holders
          then record s { holders_len = s.holders_len % 2 ^ 31 + holder_overflow }
          else record s {
            holders = update s.holders cap pid;
            holders_len = (cap + 1) + overflow_bit s.holders_len;
          }
    ]
