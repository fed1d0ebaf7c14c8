-- ===== src/Block/Asleep.antt =====
-- src/core.rs, lines 452-480 and 1735-1823: the sleep of a blocked wait, and the whole loop.
use ntsync_android.Base.{
  ℕ, ◌-◌, Bool, true, false, not, ◌||◌, Option, none, some, List, [], ◌∷◌, ◌==◌, ltb, min,
  if◌then◌else◌,
}
use ntsync_android.Base.Int.{ℤ, pos, neg, eq_ℤ}
use ntsync_android.Region.{Region, WaitOutcome}
use ntsync_android.Waiter.{waiter_cleanup, detach_all}
use ntsync_android.Satisfy.{Target, Others}
use ntsync_android.Spin.{SpinCredit, TailBudget, spin_budget, tail_budget_can, tail_budget_take}
use ntsync_android.Sweep.Auto.{Meanwhile, auto_sweep_dead}
use ntsync_android.Block.{Call, NodeSet, head_of, returned, blocked, locked_cycle}
use ntsync_android.Block.Spinning.{won, detached, exhausted, panicked, skipped, spin_phase}

abbrev pub eagain : ℕ
eagain = 11

abbrev pub etimedout : ℕ
etimedout = 110

-- `futex_wait`: 0, or `-errno()`. The kernel sleeps only if the word still has the expected value; then
-- `answer` is the error that ends the sleep, 0 for a wake.
unfoldable pub futex_wait : (word expected : ℕ) → (answer : ℕ) → ℤ
futex_wait word expected answer = if word == expected then neg (pos answer) else neg (pos eagain)

-- Whether the `match` on the futex result takes the arm of the timeout.
unfoldable pub timed_out : ℤ → Bool
timed_out ret =
    if eq_ℤ ret (pos 0) || eq_ℤ ret (pos eagain) then false else eq_ℤ ret (pos etimedout)

-- How long to park, in nanoseconds: `spinning` is the spin tail, after which the turn is over.
pub data Park : Type 0 where
  parked : (slice : Option ℕ) → Park
  spinning : (left : ℕ) → Park

-- `remaining` is the time to the deadline and `debug` caps it at 5 s; `tail` is `spin_tail`.
unfoldable pub debug_slice : (debug : Bool) → (remaining : Option ℕ) → Option ℕ
debug_slice true none = some 5000000000
debug_slice true (some left) = some (min left 5000000000)
debug_slice false remaining = remaining

unfoldable pub park : (budget now : ℕ) → (tail slice : Option ℕ) → TailBudget → Park × TailBudget
park budget now none slice b = (parked slice, b)
park budget now (some tail) none b = (parked none, b)
park budget now (some tail) (some left) b =
    if ltb tail left
    then (let (can, b') = tail_budget_can budget now tail b in
        (parked (some (if can then left - tail else left)), b'))
    else (let (take, b') = tail_budget_take budget now left b in
        ((if take then spinning left else parked (some left)), b'))

-- The detaching after the sleep.
abbrev pub any_registered : Region → NodeSet → Bool
any_registered r [] = false
any_registered r (idx ∷ nodes) = not ((r.nodes idx).registered == 0) || any_registered r nodes

unfoldable pub after_sleep : (lock_ok : Bool) → NodeSet → Region → Region
after_sleep lock_ok nodes r =
    if any_registered r nodes then (if lock_ok then detach_all r nodes else r) else r

-- The thread-local state of a thread.
pub record Thread : Type 0 where
  pub credit : SpinCredit
  pub tail : TailBudget
  pub calls : ℕ

-- What a turn meets. Each call that takes the lock does return: `lock_ok`, `again_ok`, `spin_lock_ok` and
-- `detach_ok` are whether it got the lock.
pub record Turn : Type 0 where
  pub lock_ok : Bool
  pub again_ok : Bool
  pub under_lock : Others
  pub due : Bool
  pub moves : ℕ → Others
  pub spin_lock_ok : Bool
  pub sweep : Meanwhile
  pub remaining : Option ℕ
  pub tail : Option ℕ
  pub budget : ℕ
  pub now : ℕ
  pub asleep : Region → Region
  pub answer : ℕ
  pub sweep_again : Meanwhile
  pub detach_ok : Bool

-- What a turn comes to.
pub data Turned : Type 0 where
  ends : WaitOutcome → Turned
  panics : Turned
  goes_on : (targets : List Target) → (nodes : NodeSet) → Turned

-- From the sleep to the end of a turn.
unfoldable pub sleep :
    (debug : Bool)
    → Turn
    → List Target
    → NodeSet
    → (seq : ℕ) → Thread
    → Region
    → Turned × Thread × Region
sleep debug t ts nodes seq th r =
    let (calls, r1) = auto_sweep_dead th.calls t.sweep r in
    let (plan, tail) = park t.budget t.now t.tail (debug_slice debug t.remaining) th.tail in
    let swept = record th { calls = calls; tail = tail } in
    let r2 = t.asleep r1 in
    let ret = futex_wait (r1.nodes (head_of nodes)).seq seq t.answer in
    let (calls', r3) =
      if timed_out ret then auto_sweep_dead calls t.sweep_again r2 else (calls, r2) in
    elim plan [
      | spinning left ↦ (goes_on ts nodes, swept, r2)
      | parked slice ↦
          (goes_on ts nodes, record swept { calls = calls' }, after_sleep t.detach_ok nodes r3)
    ]

-- One turn of the loop. `iters` is `spin_max_iters`.
unfoldable pub turn :
    (debug : Bool)
    → (iters : ℕ) → Call
    → Turn
    → List Target
    → NodeSet
    → Thread
    → Region
    → Turned × Thread × Region
turn debug iters c t ts nodes th r =
    if not t.lock_ok
    then (ends WaitOutcome.invalid, th, (if t.again_ok then waiter_cleanup r nodes else r))
    else (let (cycle, r1) = locked_cycle t.under_lock c t.due ts nodes r in
        elim cycle [
          | returned out ↦ (ends out, th, r1)
          | blocked us ns seq ↦
              let (spin, budgeted) = spin_budget iters th.credit in
              let (spun, credit, r2) = spin_phase spin t.moves t.spin_lock_ok c us ns budgeted r1 in
              let th' = record th { credit = credit } in
              let slept = sleep debug t us ns seq th' r2 in
              elim spun [
                | won out ↦ (ends out, th', r2)
                | panicked ↦ (panics, th', r2)
                | detached ↦ slept
                | exhausted ↦ slept
                | skipped ↦ slept
              ]
        ])

-- The loop over the turns; with none left it is still waiting.
unfoldable pub wait_loop :
    (debug : Bool)
    → (iters : ℕ) → Call
    → List Turn
    → List Target
    → NodeSet
    → Thread
    → Region
    → Turned × Thread × Region
wait_loop debug iters c [] ts nodes th r = (goes_on ts nodes, th, r)
wait_loop debug iters c (t ∷ turns) ts nodes th r =
    let (turned, th', r') = turn debug iters c t ts nodes th r in
    elim turned [
      | ends out ↦ (ends out, th', r')
      | panics ↦ (panics, th', r')
      | goes_on us ns ↦ wait_loop debug iters c turns us ns th' r'
    ]
