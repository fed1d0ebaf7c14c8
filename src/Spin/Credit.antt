-- ===== src/Spin/Credit.antt =====
-- The credit of `spin_budget` (src/core.rs, lines 2201-2237).
use ntsync_android.Base.{
  ℕ, zero, suc, ◌+◌, ◌%◌, ◌/◌, ◌<◌, ◌^◌, ◌≡◌, refl, Bool, true, false, List, [], ◌∷◌, arith,
  if◌then◌else◌, min, max, ◌*◌, ◌==◌, Bool-cases, inl, inr,
}
use ntsync_android.Base.Int.{ℤ, pos, negsuc, leb_ℤ, add_ℤ, min_ℤ, max_ℤ, is_positive}
use ntsync_android.Spin.{
  SpinCredit, fresh_credit, spin_budget, spin_credit_reward, spin_credit_penalize,
}

-- The credit after waits that were won (`true`) or lost by spinning.
abbrev credited : SpinCredit → List Bool → SpinCredit
credited c [] = c
credited c (won ∷ ws) = credited (if won then spin_credit_reward c else spin_credit_penalize c) ws

record InRange (c : SpinCredit) : Type 0 where
  pub low : leb_ℤ (negsuc 7) c.credit ≡ true
  pub high : leb_ℤ c.credit (pos 16) ≡ true

abbrev pub in_range : ℤ → Bool
in_range a = if leb_ℤ (negsuc 7) a then leb_ℤ a (pos 16) else false

reward-range : (a : ℤ) → in_range a ≡ true → in_range (min_ℤ (add_ℤ a (pos 1)) (pos 16)) ≡ true
reward-range (pos n) h = ground arith
reward-range (negsuc n) h = ground arith

penalize-range :
    (a : ℤ) → in_range a ≡ true → in_range (max_ℤ (add_ℤ a (negsuc 1)) (negsuc 7)) ≡ true
penalize-range (pos n) h = ground arith
penalize-range (negsuc n) h = ground arith

credited-range :
    (ws : List Bool) (c : SpinCredit)
    → in_range c.credit ≡ true
    → in_range (credited c ws).credit ≡ true
unfolding spin_credit_reward spin_credit_penalize
credited-range [] c h = h
credited-range (true ∷ ws) c h = credited-range ws (spin_credit_reward c) (reward-range c.credit h)
credited-range (false ∷ ws) c h =
    credited-range ws (spin_credit_penalize c) (penalize-range c.credit h)

-- The iterations that a thread gets in `n` blocked waits, its credit unchanged.
abbrev pub total_budget : ℕ → (iters : ℕ) → SpinCredit → ℕ
total_budget zero iters c = 0
total_budget (suc n) iters c = let (got, c') = spin_budget iters c in got + total_budget n iters c'

abbrev probe_iters : ℕ → ℕ
probe_iters iters = min (max (iters / 8) 8) 64

probe_step :
    (iters : ℕ) (c : SpinCredit)
    → 0 < iters
    → is_positive c.credit ≡ false
    → spin_budget iters c ≡ (
      if (c.probe + 1) % 2 ^ 32 % 8 == 0 then probe_iters iters else 0,
      record c { probe = (c.probe + 1) % 2 ^ 32 },
    )
unfolding spin_budget
probe_step iters c on out = ground arith

-- The probes from `p` counted waits on.
eighths-suc :
    (q p n : ℕ)
    → (if (p + 1) % 2 ^ 32 % 8 == 0 then q else 0) + q * (((p + 1) % 2 ^ 32 % 8 + n) / 8)
      ≡ q * ((p % 8 + (suc n)) / 8)
eighths-suc q p n = elim (Bool-cases ((p + 1) % 2 ^ 32 % 8 == 0)) [
  | inl z ↦
      let a : ((p + 1) % 2 ^ 32 % 8 + n) / 8 + 1 ≡ (p % 8 + suc n) / 8 = ground arith in grind arith
  | inr nz ↦
      let a : ((p + 1) % 2 ^ 32 % 8 + n) / 8 ≡ (p % 8 + suc n) / 8 = ground arith in
      rw (nz, a) (omega arith)
]

-- A thread out of credit probes in every eighth of its blocked waits and in no other, whatever number
-- it has counted, if spinning is on: for an eighth of the iterations, but no less than 8 and no
-- more than 64.
pub spin_budget-probes :
    (n : ℕ) (iters : ℕ) (c : SpinCredit)
    → 0 < iters
    → is_positive c.credit ≡ false
    → total_budget n iters c ≡ min (max (iters / 8) 8) 64 * ((c.probe % 8 + n) / 8)
spin_budget-probes zero iters c on out =
    let a : (c.probe % 8 + 0) / 8 ≡ 0 = omega arith in rw a (omega arith)
spin_budget-probes (suc n) iters c on out =
    let rest = spin_budget-probes n iters (record c { probe = (c.probe + 1) % 2 ^ 32 }) on out in
    rw (probe_step iters c on out, rest) (eighths-suc (probe_iters iters) c.probe n)

-- The credit stays between -8 and 16, whatever waits are won and lost.
credited-InRange : (ws : List Bool) → InRange (credited fresh_credit ws)
credited-InRange ws =
    let h = credited-range ws fresh_credit refl in
    record { low = ground arith; high = ground arith }
