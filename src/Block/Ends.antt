-- ===== src/Block/Ends.antt =====
-- When a blocking wait ends (src/core.rs, lines 1538-1825).
use ntsync_android.Base.{
  ℕ, zero, suc, ◌≡◌, ◌≢◌, ◌⊎◌, refl, Bool, true, false, ◌||◌, List, [], ◌∷◌, length, arith,
  Bool-cases, Option-cases, inl, inr, if◌then◌else◌,
}
use ntsync_android.Region.{Region, Env, WaitOutcome, timeout, signaled}
use ntsync_android.Satisfy.{Target, Others, meanwhile, later, try_satisfy}
use ntsync_android.Spin.{SpinCredit, spin_budget}
use ntsync_android.Wait.{wait_entry, alert_valid, alert_signaled}
use ntsync_android.Block.{
  Call, NodeSet, head_of, objects, is_empty, revalidate, alloc_nodes, register_all, Cycle, returned,
  blocked, enlist, locked_cycle,
}
use ntsync_android.Block.Spinning.{
  Spun, won, detached, exhausted, panicked, skipped, alert_check, spin_try, spin_loop, spin_phase,
}
use ntsync_android.Block.Asleep.{
  Thread, Turn, Turned, ends, panics, goes_on, sleep, turn, wait_loop,
}
use ntsync_android.Block.Whole.{Meets, entry_targets, wait}

-- Some turn begins when the deadline is past.
abbrev pub some_due : List Turn → Bool
some_due [] = false
some_due (t ∷ turns) = t.due || some_due turns

abbrev Returned : Cycle → Type 0
Returned c = (out : WaitOutcome) × (c ≡ returned out)

Cycle-cases :
    (c : Cycle)
    → Returned c ⊎ ((us : List Target) × (ns : NodeSet) × (seq : ℕ) × (c ≡ blocked us ns seq))
Cycle-cases (returned out) = inl (out, refl)
Cycle-cases (blocked us ns seq) = inr (us, ns, seq, refl)

enlist-due :
    (fs : Others) (c : Call) (ts : List Target) (nodes : NodeSet) (r : Region)
    → Returned (enlist fs c true ts nodes r).0
unfolding enlist
enlist-due fs c ts nodes r =
    let r1 = register_all (head_of nodes) nodes (objects c.alert ts) r in
    elim (Option-cases (try_satisfy fs r1 c.owner ts c.all).0) [
      | inl e ↦ rw (e, enlist) (timeout, refl)
      | inr (out, e) ↦ rw (e, enlist) (out, refl)
    ]

locked_cycle-due :
    (fs : Others) (c : Call) (ts : List Target) (nodes : NodeSet) (r : Region)
    → Returned (locked_cycle fs c true ts nodes r).0
unfolding locked_cycle
locked_cycle-due fs c ts nodes r = elim (Option-cases (revalidate (is_empty nodes) r ts)) [
  | inl e ↦ rw (e, locked_cycle) (WaitOutcome.invalid, refl)
  | inr (us, e) ↦ elim (Bool-cases (alert_valid r c.alert)) [
    | inr bad ↦ rw (e, bad, locked_cycle) (WaitOutcome.invalid, refl)
    | inl good ↦ elim (Bool-cases (alert_signaled r c.alert)) [
      | inl alerted ↦ rw (e, good, alerted, locked_cycle) (signaled (length us) false, refl)
      | inr quiet ↦
          let got =
            if is_empty nodes
            then alloc_nodes (length (objects c.alert us)) c.pid [] r
            else (true, nodes, r) in
          elim (Bool-cases got.0) [
            | inr short ↦ rw (e, good, quiet, short, locked_cycle) (WaitOutcome.invalid, refl)
            | inl enough ↦
                rw (e, good, quiet, enough, locked_cycle) (enlist-due fs c us got.1 got.2)
          ]
    ]
  ]
]

module _ (c : Call) (no_alert : c.alert ≡ 0) where
  spin_loop-ne_panicked :
      (spin : ℕ) (moves : ℕ → Others) (ts : List Target) (nodes : NodeSet) (r : Region)
      → (spin_loop spin moves c ts nodes r).0 ≢ panicked
  unfolding spin_loop alert_check
  spin_loop-ne_panicked zero moves ts nodes r = ground arith
  spin_loop-ne_panicked (suc spin) moves ts nodes r =
      let r1 = meanwhile (moves spin) r in
      let tried = spin_try (later (moves spin)) r1 c ts in
      let rest = spin_loop-ne_panicked spin moves ts nodes tried.1 in ground (arith, rest, no_alert)

  spin_phase-ne_panicked :
      (spin : ℕ) (moves : ℕ → Others) (lock_ok : Bool) (ts : List Target) (nodes : NodeSet)
      (credit : SpinCredit) (r : Region)
      → (spin_phase spin moves lock_ok c ts nodes credit r).0 ≢ panicked
  unfolding spin_phase
  spin_phase-ne_panicked spin moves lock_ok ts nodes credit r =
      ground (arith, spin_loop-ne_panicked spin moves ts nodes r)

  sleep-ne_panics :
      (debug : Bool) (t : Turn) (ts : List Target) (nodes : NodeSet) (seq : ℕ) (th : Thread)
      (r : Region)
      → (sleep debug t ts nodes seq th r).0 ≢ panics
  unfolding sleep
  sleep-ne_panics debug t ts nodes seq th r = ground arith

  -- What follows a spin that does not panic.
  spun-ne_panics :
      (spun : Spun) (th : Thread) (r : Region) (slept : Turned × Thread × Region)
      → spun ≢ panicked
      → slept.0 ≢ panics
      → (elim spun as (λ _. Turned × Thread × Region) [
        | won out ↦ (ends out, th, r)
        | panicked ↦ (panics, th, r)
        | detached ↦ slept
        | exhausted ↦ slept
        | skipped ↦ slept
      ]).0
        ≢ panics
  spun-ne_panics (won out) th r slept quiet ok = ground arith
  spun-ne_panics panicked th r slept quiet ok = absurd (quiet refl)
  spun-ne_panics detached th r slept quiet ok = ok
  spun-ne_panics exhausted th r slept quiet ok = ok
  spun-ne_panics skipped th r slept quiet ok = ok

  turn-ne_panics :
      (debug : Bool) (iters : ℕ) (t : Turn) (ts : List Target) (nodes : NodeSet) (th : Thread)
      (r : Region)
      → (turn debug iters c t ts nodes th r).0 ≢ panics
  unfolding turn
  turn-ne_panics debug iters t ts nodes th r = elim (Bool-cases t.lock_ok) [
    | inr unlocked ↦ rw unlocked (ground arith)
    | inl locked ↦
        let cycle = locked_cycle t.under_lock c t.due ts nodes r in
        elim (Cycle-cases cycle.0) [
          | inl (out, e) ↦ rw (locked, e, turn) (ground arith)
          | inr (us, ns, seq, e) ↦
              let budget = spin_budget iters th.credit in
              let spun = spin_phase budget.0 t.moves t.spin_lock_ok c us ns budget.1 cycle.1 in
              let th' = record th { credit = spun.1 } in
              rw (locked, e, turn)
                (spun-ne_panics spun.0 th' spun.2 (sleep debug t us ns seq th' spun.2)
                  (spin_phase-ne_panicked budget.0 t.moves t.spin_lock_ok us ns budget.1 cycle.1)
                  (sleep-ne_panics debug t us ns seq th' spun.2))
        ]
  ]

  turn-due :
      (debug : Bool) (iters : ℕ) (t : Turn) (ts : List Target) (nodes : NodeSet) (th : Thread)
      (r : Region)
      → t.due ≡ true
      → (out : WaitOutcome) × ((turn debug iters c t ts nodes th r).0 ≡ ends out)
  unfolding turn
  turn-due debug iters t ts nodes th r late = elim (Bool-cases t.lock_ok) [
    | inr unlocked ↦ rw unlocked (WaitOutcome.invalid, refl)
    | inl locked ↦
        let (out, e) = locked_cycle-due t.under_lock c ts nodes r in
        rw (locked, late, e, turn) (out, refl)
  ]

  Turned-cases :
      (t : Turned)
      → t ≢ panics
      → ((out : WaitOutcome) × (t ≡ ends out))
        ⊎ ((us : List Target) × (ns : NodeSet) × (t ≡ goes_on us ns))
  Turned-cases (ends out) quiet = inl (out, refl)
  Turned-cases panics quiet = absurd (quiet refl)
  Turned-cases (goes_on us ns) quiet = inr (us, ns, refl)

  wait_loop-ends :
      (debug : Bool) (iters : ℕ) (turns : List Turn) (ts : List Target) (nodes : NodeSet)
      (th : Thread) (r : Region)
      → some_due turns ≡ true
      → (out : WaitOutcome) × ((wait_loop debug iters c turns ts nodes th r).0 ≡ ends out)
  unfolding wait_loop
  wait_loop-ends debug iters [] ts nodes th r late = absurd (ground arith)
  wait_loop-ends debug iters (t ∷ turns) ts nodes th r late =
      let first = turn debug iters c t ts nodes th r in
      elim (Turned-cases first.0 (turn-ne_panics debug iters t ts nodes th r)) [
        | inl (out, e) ↦ rw (e, wait_loop) (out, refl)
        | inr (us, ns, e) ↦ elim (Bool-cases t.due) [
          | inl now ↦
              let (out, f) = turn-due debug iters t ts nodes th r now in
              rw (f, wait_loop) (out, refl)
          | inr early ↦
              rw (e, wait_loop)
                (wait_loop-ends debug iters turns us ns first.1 first.2 (rw early at late))
        ]
      ]

  pub wait-ends :
      (env : Env) (m : Meets) (handles : List ℕ) (poll : Bool) (th : Thread) (r : Region)
      → some_due m.turns ≡ true
      → (out : WaitOutcome) × ((wait env m handles poll c th r).0 ≡ ends out)
  unfolding wait
  wait-ends env m handles poll th r late =
      let entry = wait_entry m.at_entry env r handles c.owner poll c.all c.alert in
      elim (Option-cases entry.0) [
        | inr (out, e) ↦ rw (e, wait) (out, refl)
        | inl e ↦
            rw (e, wait)
              (wait_loop-ends m.debug m.spin_max m.turns (entry_targets r handles) [] th entry.1
                late)
      ]
