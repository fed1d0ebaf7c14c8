-- ===== src/Tests/Blocks.antt =====
-- A turn of a blocking wait of src/core.rs (lines 1538-1658) at concrete objects.
use ntsync_android.Base.{◌≡◌, refl, true, false, List, [], ◌∷◌, arith, inl}
use ntsync_android.Base.Int.{pos, neg}
use ntsync_android.Region.{slot}
use ntsync_android.Cas.{cas_loop}
use ntsync_android.Object.{try_acquire, acquire_event}
use ntsync_android.Waiter.{node_alloc, node_register}
use ntsync_android.Waiter.Wf.{Layout, IsWf}
use ntsync_android.Satisfy.{Target, try_satisfy, satisfy_any, acquire_at}
use ntsync_android.Wait.{alert_valid, alert_signaled}
use ntsync_android.Block.{
  Call, blocked, locked_cycle, revalidate, revalidate_one, alloc_nodes, push, objects, enlist,
  register_all, register_one,
}
use ntsync_android.Block.Account.{Accounted}
use ntsync_android.Block.Blocked.{locked_cycle-Accounted}
use ntsync_android.Block.Wakeup.{locked_cycle-Signals}
use ntsync_android.Block.Spinning.{panicked, spin_loop}
use ntsync_android.Block.Asleep.{futex_wait, timed_out, eagain, etimedout}
use ntsync_android.Block.Flaws.{futex_wait-timed_out, close-spin_loop}
use ntsync_android.Region.{ok, Region}
use ntsync_android.Object.{event_set_round}
use ntsync_android.Signal.{signal, event_set}
use ntsync_android.Block.Signaled.{set}
use ntsync_android.Slot.{close}
use ntsync_android.Waiter.Seg.{Waiters}
use ntsync_android.Tests.Data.{alone, furnished}

-- The thread 9 waits for the event in slot 4 that is not signaled.
abbrev call : Call
call = record { pid = 7; owner = 9; all = false; alert = 0 }

abbrev awaited : List Target
awaited = record { handle = 4; entry_seq = 0 } ∷ []

abbrev no_waiters : Layout
no_waiters = record { free = []; owned = []; queue = λ _. [] }

furnished-IsWf : IsWf furnished no_waiters
furnished-IsWf = record {
  pool = record {
    chain = refl;
    free_distinct = tt;
    owned_distinct = tt;
    apart = λ x c. cc;
    free_below = λ x c. cc;
    owned_below = λ x c. cc;
    capacity = omega arith;
    counted = refl;
  };
  queues = λ obj used. record { chain = ground arith; distinct = tt };
  unused = λ obj un. refl;
  queued = λ obj x c. cc;
  listed = λ x c. cc;
  idle = λ x c. refl;
}

locked_cycle-Accounted_example :
    Accounted no_waiters [] 0
      (locked_cycle [] call false awaited [] furnished).0
      (locked_cycle [] call false awaited [] furnished).1
locked_cycle-Accounted_example =
    locked_cycle-Accounted [] call tt false awaited [] furnished no_waiters furnished-IsWf
      (inl refl)

blocks :
    locked_cycle [] call false awaited [] furnished
    ≡ (blocked awaited (0 ∷ []) 0, (locked_cycle [] call false awaited [] furnished).1)
unfolding locked_cycle revalidate revalidate_one slot alloc_nodes push objects node_alloc
    alert_valid alert_signaled enlist register_all register_one node_register try_satisfy
    satisfy_any acquire_at try_acquire acquire_event cas_loop
blocks = refl

waits_for : objects 0 awaited ≡ 4 ∷ []
unfolding objects
waits_for = refl

-- Another thread sets the event between the sample and the futex call.
abbrev asleep : Region
asleep = (locked_cycle [] call false awaited [] furnished).1

sets : event_set alone 4 asleep ≡ (ok 0, (event_set alone 4 asleep).1)
unfolding event_set signal event_set_round locked_cycle revalidate revalidate_one slot alloc_nodes
    push objects node_alloc alert_valid alert_signaled enlist register_all register_one
    node_register try_satisfy satisfy_any acquire_at try_acquire acquire_event cas_loop
sets = refl

locked_cycle-Signals_example :
    futex_wait ((event_set alone 4 asleep).1.nodes 0).seq 0 0 ≡ neg (pos eagain)
locked_cycle-Signals_example =
    locked_cycle-Signals [] call false awaited [] furnished no_waiters alone 4 0 tt furnished-IsWf
      (inl refl) blocks (rw waits_for refl) refl (set sets)

-- The same with the event as the alert.
abbrev alertable : Call
alertable = record { pid = 7; owner = 9; all = false; alert = 4 }

unwatched : Waiters furnished 4 []
unwatched = record { chain = refl; distinct = tt }

closes : close alone 4 furnished ≡ (true, (close alone 4 furnished).1)
unfolding close slot
closes = refl

close-spin_loop_example :
    spin_loop 3 (λ _. []) alertable awaited (0 ∷ []) (close alone 4 furnished).1
    ≡ (panicked, (close alone 4 furnished).1)
close-spin_loop_example =
    close-spin_loop alone furnished alertable [] 2 (λ _. []) awaited (0 ∷ []) (ground arith)
      (omega arith) unwatched closes refl

futex_wait-timed_out_example : timed_out (futex_wait 5 5 etimedout) ≡ false
futex_wait-timed_out_example = futex_wait-timed_out 5 5 etimedout
