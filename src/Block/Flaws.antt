-- ===== src/Block/Flaws.antt =====
-- Two places of the blocking wait (src/core.rs, lines 1666 and 1790) that do not do what they mean to.
use ntsync_android.Base.{ℕ, suc, ◌<◌, ◌≡◌, ◌≢◌, true, false, List, [], arith}
use ntsync_android.Base.Int.{pos, neg, eq_ℤ}
use ntsync_android.Region.{Region, Env, index_of, node_count}
use ntsync_android.Base.{◌≤◌, length}
use ntsync_android.Waiter.Seg.{Waiters}
use ntsync_android.Satisfy.{Target, Others}
use ntsync_android.Slot.{close}
use ntsync_android.Slot.Close.{close-Closed}
use ntsync_android.Block.{Call, NodeSet}
use ntsync_android.Block.Spinning.{panicked, alert_check, spin_loop}
use ntsync_android.Block.Asleep.{futex_wait, timed_out, eagain, etimedout}

neg-eq : (a b : ℕ) → 0 < b → eq_ℤ (neg (pos a)) (pos b) ≡ false
neg-eq a b lt = ground arith

-- Whatever a sleep on the futex word ends with, the timeout among it, the result is never taken for a
-- timeout: `futex_wait` returns errors negated, and the `match` on its result compares with the errors
-- themselves. So the sweep that is meant for a wait that timed out is never made there.
pub futex_wait-timed_out :
    (word expected answer : ℕ) → timed_out (futex_wait word expected answer) ≡ false
unfolding timed_out futex_wait
futex_wait-timed_out word expected answer =
    ground (arith, neg-eq answer etimedout, neg-eq eagain etimedout)

-- If the alert's handle, whose object has the waiters `xs`, is closed while a wait spins, the next
-- iteration of the spin panics: the slot is looked up again and expected to be there.
pub close-spin_loop :
    (env : Env) (r : Region) (c : Call) (xs : List ℕ) (spin : ℕ) (moves : ℕ → Others)
    (ts : List Target) (nodes : NodeSet) {r' : Region}
    → c.alert ≢ 0
    → length xs ≤ node_count
    → Waiters r (index_of c.alert) xs
    → close env c.alert r ≡ (true, r')
    → moves spin ≡ []
    → spin_loop (suc spin) moves c ts nodes r' ≡ (panicked, r')
unfolding spin_loop alert_check
close-spin_loop env r c xs spin moves ts nodes {r'} given few w e quiet =
    let gone = (close-Closed env r c.alert xs few w e).gone in ground (arith, gone, quiet)
