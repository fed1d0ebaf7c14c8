-- ===== src/Sweep/Held.antt =====
-- The sweep of src/core.rs (lines 1942-1996) and the holders of lines 832-868: a living holder keeps an object.
use ntsync_android.Base.{
  ℕ, zero, suc, ◌+◌, ◌≤◌, ◌<◌, ◌≡◌, ◌≢◌, refl, Bool, true, arith, ◌==◌, ==→eq, Bool-cases, inl, inr,
}
use ntsync_android.Region.{Slot}
use ntsync_android.Holder.{cap_of}
use ntsync_android.Holder.Held.{IsHeld}
use ntsync_android.Sweep.{pid_alive}
use ntsync_android.Sweep.Cache.{any_alive}
use ntsync_android.Sweep.Reap.{Kept}

-- A living holder keeps the object.
any_alive-holder :
    (probe : ℕ → Bool) (left i : ℕ) (f : ℕ → ℕ) (j : ℕ)
    → i ≤ j
    → j < i + left
    → pid_alive probe (f j) ≡ true
    → any_alive probe left i f ≡ true
any_alive-holder probe zero i f j le lt a = absurd (omega (arith, le, lt))
any_alive-holder probe (suc left) i f j le lt a = elim (Bool-cases (i == j)) [
  | inl e ↦ let k = ==→eq i j e in rw (k, a) refl
  | inr e ↦
      let rest =
        any_alive-holder probe left (i + 1) f j (ground (arith, le)) (omega (arith, lt)) a in
      rw rest (ground arith)
]

pub IsHeld-Kept :
    (probe : ℕ → Bool) (s : Slot) (pid : ℕ)
    → pid ≢ 0
    → probe pid ≡ true
    → IsHeld s pid
    → Kept probe s
unfolding pid_alive
IsHeld-Kept probe s pid ne live (inr spilled) = inr spilled
IsHeld-Kept probe s pid ne live (inl (j, lt, here)) =
    let a : pid_alive probe (s.holders j) ≡ true = rw here (ground (arith, ne, live)) in
    let any =
      any_alive-holder probe (cap_of s.holders_len) 0 s.holders j (omega arith) (omega (arith, lt))
        a in
    inl (rw any (ground arith))
