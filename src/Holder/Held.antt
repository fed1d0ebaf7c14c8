-- ===== src/Holder/Held.antt =====
-- `holder_add` and `holder_remove` of src/core.rs (lines 832-868): a pid that was added stays recorded, whoever else
-- is removed, or the list has spilled.
use ntsync_android.Base.{
  ℕ, ◌+◌, ◌-◌, ◌/◌, ◌%◌, ◌^◌, ◌<◌, ◌≡◌, ◌≢◌, none, some, arith, ◌==◌, update, Option-cases,
  Bool-cases, inl, inr, ◌⊎◌, ==→eq,
}
use ntsync_android.Region.{Slot, max_holders}
use ntsync_android.Holder.{cap_of, overflow_bit, holder_index, holder_add, holder_remove}
use ntsync_android.Holder.List.{holder_index-some, add_found, add_full, add_room}

-- One of the recorded cells has the pid.
abbrev pub IsRecorded : Slot → ℕ → Type 0
IsRecorded s pid = (j : ℕ) × (j < cap_of s.holders_len) × (s.holders j ≡ pid)

abbrev pub IsSpilled : Slot → Type 0
IsSpilled s = (s.holders_len / 2 ^ 31 % 2) ≢ 0

abbrev pub IsHeld : Slot → ℕ → Type 0
IsHeld s pid = IsRecorded s pid ⊎ IsSpilled s

pub holder_add-IsHeld : (s : Slot) (pid : ℕ) → IsHeld (holder_add s pid) pid
holder_add-IsHeld s pid =
    let cap = cap_of s.holders_len in
    elim (Option-cases (holder_index cap 0 s.holders pid)) [
      | inr (j, e) ↦
          let (here, _, lt) = holder_index-some cap 0 s.holders pid e in
          rw (add_found s pid e) (inl (j, omega (arith, lt), here))
      | inl e ↦ elim (Bool-cases (cap == max_holders)) [
        | inl full ↦ rw (add_full s pid e full) (inr (omega arith))
        | inr room ↦ rw (add_room s pid e room) (inl (cap, ground arith, ground arith))
      ]
    ]

-- The addition of another pid keeps a holder.
pub holder_add-keeps : (s : Slot) (q pid : ℕ) → IsHeld s pid → IsHeld (holder_add s q) pid
holder_add-keeps s q pid held =
    let cap = cap_of s.holders_len in
    elim (Option-cases (holder_index cap 0 s.holders q)) [
      | inr (j, e) ↦ rw (add_found s q e) held
      | inl e ↦ elim (Bool-cases (cap == max_holders)) [
        | inl full ↦ rw (add_full s q e full) (inr (omega arith))
        | inr room ↦ rw (add_room s q e room) (elim held [
          | inl (j, lt, here) ↦ inl (j, ground (arith, lt), ground (arith, lt))
          | inr spilled ↦ inr (ground (arith, spilled))
        ])
      ]
    ]

module _ (s : Slot) (q : ℕ) where
  remove_missing : holder_index (cap_of s.holders_len) 0 s.holders q ≡ none → holder_remove s q ≡ s
  unfolding holder_remove
  remove_missing e = rw (e, holder_remove)

  -- The cell that is found takes the last one's pid.
  abbrev removed : ℕ → Slot
  removed i =
      let cap = cap_of s.holders_len in
      record s {
        holders = update (update s.holders i (s.holders (cap - 1))) (cap - 1) 0;
        holders_len = (cap - 1) + overflow_bit s.holders_len;
      }

  remove_found :
      {i : ℕ}
      → holder_index (cap_of s.holders_len) 0 s.holders q ≡ some i
      → holder_remove s q ≡ removed i
  unfolding holder_remove
  remove_found e = rw (e, holder_remove)

  removed-IsRecorded :
      (pid i : ℕ)
      → pid ≢ q
      → i < cap_of s.holders_len
      → s.holders i ≡ q
      → IsRecorded s pid
      → IsRecorded (removed i) pid
  removed-IsRecorded pid i ne lt here (j, below, there) =
      let cap = cap_of s.holders_len in
      let apart : j ≢ i = λ e. ne (ground (arith, e)) in
      let less : cap_of ((cap - 1) + overflow_bit s.holders_len) ≡ cap - 1 = omega arith in
      elim (Bool-cases (j == cap - 1)) [
        | inl last ↦
            let e = ==→eq j (cap - 1) last in
            (i, rw less (omega (arith, e, apart, lt, below)), ground (arith, e, apart))
        | inr before ↦ (j, rw less (ground (arith, below)), ground arith)
      ]

  -- The removal of another pid keeps a holder.
  pub holder_remove-IsHeld : (pid : ℕ) → pid ≢ q → IsHeld s pid → IsHeld (holder_remove s q) pid
  holder_remove-IsHeld pid ne held =
      elim (Option-cases (holder_index (cap_of s.holders_len) 0 s.holders q)) [
        | inl e ↦ rw (remove_missing e) held
        | inr (i, e) ↦
            let (here, _, lt) = holder_index-some (cap_of s.holders_len) 0 s.holders q e in
            rw (remove_found e) (elim held [
              | inl recorded ↦ inl (removed-IsRecorded pid i ne (omega (arith, lt)) here recorded)
              | inr spilled ↦ inr (omega (arith, spilled))
            ])
      ]
