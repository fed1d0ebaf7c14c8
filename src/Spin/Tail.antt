-- ===== src/Spin/Tail.antt =====
-- The rate that `tail_budget` of src/core.rs (lines 2174-2199) enforces.
use ntsync_android.Base.{ℕ, ◌+◌, ◌-◌, ◌*◌, ◌≤◌, ◌<◌, ◌≡◌, ◌≢◌, List, [], ◌∷◌, arith, if◌then◌else◌}
use ntsync_android.Spin.{
  TailBudget, fresh_budget, tail_budget, tail_budget_take, tail_budget_cap, refill,
}

-- What a thread is granted of charges `(now, want_ns)`, one after another.
abbrev pub granted : (budget : ℕ) → List (ℕ × ℕ) → TailBudget → ℕ
granted budget [] b = 0
granted budget ((now, want) ∷ cs) b =
    let (ok, b') = tail_budget_take budget now want b in
    (if ok then want else 0) + granted budget cs b'

-- The clock does not go back.
abbrev pub Ordered : ℕ → List (ℕ × ℕ) → Type 0
Ordered t [] = Unit
Ordered t ((now, want) ∷ cs) = (t ≤ now) × Ordered now cs

abbrev pub end_time : ℕ → List (ℕ × ℕ) → ℕ
end_time t [] = t
end_time t ((now, want) ∷ cs) = end_time now cs

Ordered-end_time : (t : ℕ) (cs : List (ℕ × ℕ)) → Ordered t cs → t ≤ end_time t cs
Ordered-end_time t [] o = omega arith
Ordered-end_time t ((now, want) ∷ cs) o = omega (arith, o.0, Ordered-end_time now cs o.1)

sub_mul : (a b c n : ℕ) → a ≤ b → b ≤ c → (c - a) * n ≡ (b - a) * n + (c - b) * n
sub_mul a b c n h k = grind arith

module _ (budget : ℕ) (limited : 0 < budget) where
  take_spends :
      (now want : ℕ) (b : TailBudget)
      → b.last ≢ 0
      → ((tail_budget_take budget now want b).1.last ≡ now)
        × ((if (tail_budget_take budget now want b).0 then want else 0) * 1000000000
              + (tail_budget_take budget now want b).1.tokens * 1000000000
            ≤ b.tokens * 1000000000 + (now - b.last) * budget)
  unfolding tail_budget_take tail_budget refill
  take_spends now want b ne = (ground arith, ground arith)

  granted_from :
      (cs : List (ℕ × ℕ)) (b : TailBudget)
      → b.last ≢ 0
      → Ordered b.last cs
      → granted budget cs b * 1000000000
        ≤ b.tokens * 1000000000 + (end_time b.last cs - b.last) * budget
  granted_from [] b ne o = omega arith
  granted_from ((now, want) ∷ cs) b ne o =
      let b' = (tail_budget_take budget now want b).1 in
      let (at, spent) = take_spends now want b ne in
      let rest = granted_from cs b' (rw at (omega (arith, o.0))) (rw at o.1) in
      let rest' : granted budget cs b' * 1000000000
          ≤ b'.tokens * 1000000000 + (end_time now cs - now) * budget =
        rw at at rest in
      let sum = sub_mul b.last now (end_time now cs) budget o.0 (Ordered-end_time now cs o.1) in
      omega (arith, spent, rest', sum)

  take_first :
      (now want : ℕ)
      → ((tail_budget_take budget now want fresh_budget).1.last ≡ now)
        × ((if (tail_budget_take budget now want fresh_budget).0 then want else 0)
              + (tail_budget_take budget now want fresh_budget).1.tokens
            ≤ tail_budget_cap budget)
  unfolding tail_budget_take tail_budget refill
  take_first now want = (ground arith, ground arith)

  -- A thread that charges its spinning against a budget, at times of a clock that is not 0 and does
  -- not go back, is granted in all at most one burst and the budgeted share of the time from its first
  -- charge to its last.
  pub granted-bound :
      (now want : ℕ) (cs : List (ℕ × ℕ))
      → now ≢ 0
      → Ordered now cs
      → granted budget ((now, want) ∷ cs) fresh_budget * 1000000000
        ≤ tail_budget_cap budget * 1000000000 + (end_time now cs - now) * budget
  granted-bound now want cs ne o =
      let b' = (tail_budget_take budget now want fresh_budget).1 in
      let (at, spent) = take_first now want in
      let rest = granted_from cs b' (rw at ne) (rw at o) in
      let rest' : granted budget cs b' * 1000000000
          ≤ b'.tokens * 1000000000 + (end_time now cs - now) * budget =
        rw at at rest in
      omega (arith, spent, rest')
