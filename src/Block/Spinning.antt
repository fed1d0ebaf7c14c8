-- ===== src/Block/Spinning.antt =====
-- src/core.rs, lines 1648-1733: the bounded spin between a turn under the lock and the sleep.
use ntsync_android.Base.{
  ℕ, zero, suc, Bool, true, false, not, ◌&&◌, ◌||◌, Option, none, some, List, [], ◌∷◌, ◌==◌, length,
  if◌then◌else◌,
}
use ntsync_android.Word.{lo}
use ntsync_android.Region.{Region, WaitOutcome, signaled, slot, index_of}
use ntsync_android.Object.{is_locked}
use ntsync_android.Waiter.{waiter_cleanup}
use ntsync_android.Satisfy.{Target, Others, meanwhile, later, try_satisfy}
use ntsync_android.Spin.{SpinCredit, spin_credit_reward, spin_credit_penalize}
use ntsync_android.Block.{Call, NodeSet, head_of}

-- How a spin ends; `panicked` is the `expect` on the slot of the alert, `skipped` that there is none.
pub data Spun : Type 0 where
  won : WaitOutcome → Spun
  detached : Spun
  exhausted : Spun
  panicked : Spun
  skipped : Spun

unfoldable pub ready : Region → (owner : ℕ) → Target → Bool
ready r owner t =
    let s = r.slots (index_of t.handle) in is_locked s.obj_type s.w0 s.d owner t.entry_seq

abbrev pub any_ready : Region → (owner : ℕ) → List Target → Bool
any_ready r owner [] = false
any_ready r owner (t ∷ ts) = ready r owner t || any_ready r owner ts

abbrev pub all_ready : Region → (owner : ℕ) → List Target → Bool
all_ready r owner [] = true
all_ready r owner (t ∷ ts) = ready r owner t && all_ready r owner ts

-- The loads before an acquisition is tried.
unfoldable pub peek : Region → Call → List Target → Bool
peek r c ts = any_ready r c.owner ts && (not c.all || all_ready r c.owner ts)

-- The alert, looked up again in each iteration: `none` is the panic.
unfoldable pub alert_check : Region → (alert : ℕ) → Option Bool
alert_check r alert =
    if alert == 0
    then some false
    else elim (slot r alert) [ none ↦ none | some i ↦ some (not (lo (r.slots i).w0 == 0)) ]

-- An iteration from the peek on, in the region as the others have left it.
abbrev pub spin_try : Others → Region → Call → List Target → Option WaitOutcome × Region
spin_try fs r c ts = if peek r c ts then try_satisfy fs r c.owner ts c.all else (none, r)

-- `moves` is what the others do before and in each iteration, by the iterations that are left.
unfoldable pub spin_loop :
    (spin : ℕ) → (moves : ℕ → Others) → Call → List Target → NodeSet → Region → Spun × Region
spin_loop zero moves c ts nodes r = (exhausted, r)
spin_loop (suc spin) moves c ts nodes r =
    let r1 = meanwhile (moves spin) r in
    let (out, r2) = spin_try (later (moves spin)) r1 c ts in
    let rest = spin_loop spin moves c ts nodes r2 in
    elim (alert_check r1 c.alert) [
      | none ↦ (panicked, r1)
      | some alerted ↦ if alerted then (won (signaled (length ts) false), r1) else elim out [
        | some o ↦ (won o, r2)
        | none ↦ if (r2.nodes (head_of nodes)).registered == 0 then (detached, r2) else rest
      ]
    ]

-- The spin with what follows it: the nodes are given back if the lock can be taken, and the credit is
-- counted. `spin` is the thread's budget.
unfoldable pub spin_phase :
    (spin : ℕ)
    → (moves : ℕ → Others) → (lock_ok : Bool) → Call
    → List Target
    → NodeSet
    → SpinCredit
    → Region
    → Spun × SpinCredit × Region
spin_phase spin moves lock_ok c ts nodes credit r =
    let (end, r') = spin_loop spin moves c ts nodes r in
    if spin == 0 then (skipped, credit, r) else elim end [
      | won o ↦
          (won o, spin_credit_reward credit, (if lock_ok then waiter_cleanup r' nodes else r'))
      | detached ↦ (detached, credit, r')
      | exhausted ↦ (exhausted, spin_credit_penalize credit, r')
      | panicked ↦ (panicked, credit, r')
      | skipped ↦ (skipped, credit, r')
    ]
