-- ===== src/Spin.antt =====
-- src/core.rs, lines 2083-2237: how long a wait may spin before it sleeps. The environment variables
-- and the clock are arguments; the thread-local cells are explicit states.
pub mod Tail
pub mod Credit
use ntsync_android.Base.{
  ℕ, suc, ◌+◌, ◌-◌, ◌*◌, ◌/◌, ◌%◌, ◌^◌, Bool, true, false, ◌&&◌, Option, none, some, ◌==◌, ltb, leb,
  if◌then◌else◌, min, max,
}
use ntsync_android.Base.Int.{ℤ, pos, add_ℤ, min_ℤ, max_ℤ, is_positive, negsuc}

-- What `NTSYNC_SPIN_ITERS` parses to, if it does.
unfoldable pub spin_max_iters : Option ℕ → ℕ
spin_max_iters none = 0
spin_max_iters (some iters) = min iters 100000

-- The tail in microseconds, from `NTSYNC_SPIN_TAIL_US`.
unfoldable pub spin_tail : Option ℕ → Option ℕ
spin_tail none = none
spin_tail (some us) = let capped = min us 2000 in if ltb 0 capped then some capped else none

unfoldable pub spin_tail_budget_ns : Option ℕ → ℕ
spin_tail_budget_ns none = 15 * 10000000
spin_tail_budget_ns (some pct) = min pct 100 * 10000000

unfoldable pub tail_budget_cap : ℕ → ℕ
tail_budget_cap budget = max (budget / 100) 1

-- `TAIL_BUDGET`
pub record TailBudget : Type 0 where
  pub tokens : ℕ
  pub last : ℕ

abbrev pub fresh_budget : TailBudget
fresh_budget = record { tokens = 0; last = 0 }

-- `u64` arithmetic that saturates.
abbrev pub sat : ℕ → ℕ
sat n = min n (2 ^ 64 - 1)

-- The tokens at the time `now`.
unfoldable pub refill : (budget now : ℕ) → TailBudget → ℕ
refill budget now b =
    if b.last == 0
    then tail_budget_cap budget
    else min (sat (b.tokens + sat ((now - b.last) * budget) / 1000000000)) (tail_budget_cap budget)

unfoldable pub tail_budget :
    (budget now : ℕ) → (want_ns : ℕ) → (charge : Bool) → TailBudget → Bool × TailBudget
tail_budget budget now want_ns charge b =
    let tokens = refill budget now b in
    let ok = leb want_ns tokens in
    if budget == 0
    then (true, b)
    else (ok, record { tokens = if ok && charge then tokens - want_ns else tokens; last = now })

unfoldable pub tail_budget_take : (budget now : ℕ) → (want_ns : ℕ) → TailBudget → Bool × TailBudget
tail_budget_take budget now want_ns b = tail_budget budget now want_ns true b

unfoldable pub tail_budget_can : (budget now : ℕ) → (want_ns : ℕ) → TailBudget → Bool × TailBudget
tail_budget_can budget now want_ns b = tail_budget budget now want_ns false b

-- `SPIN_CREDIT` and `SPIN_PROBE`
pub record SpinCredit : Type 0 where
  pub credit : ℤ
  pub probe : ℕ

abbrev pub fresh_credit : SpinCredit
fresh_credit = record { credit = pos 1; probe = 0 }

unfoldable pub spin_budget : (iters : ℕ) → SpinCredit → ℕ × SpinCredit
spin_budget iters c =
    let n = (c.probe + 1) % 2 ^ 32 in
    if iters == 0
    then (0, c)
    else if is_positive c.credit
    then (iters, c)
    else (if n % 8 == 0 then min (max (iters / 8) 8) 64 else 0, record c { probe = n })

unfoldable pub spin_credit_reward : SpinCredit → SpinCredit
spin_credit_reward c = record c { credit = min_ℤ (add_ℤ c.credit (pos 1)) (pos 16) }

unfoldable pub spin_credit_penalize : SpinCredit → SpinCredit
spin_credit_penalize c = record c { credit = max_ℤ (add_ℤ c.credit (negsuc 1)) (negsuc 7) }
