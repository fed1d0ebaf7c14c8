-- ===== src/Tests/Polls.antt =====
-- A wait of src/core.rs that need not block, at concrete objects.
use ntsync_android.Base.{ℕ, ◌≡◌, refl, true, false, none, Option, some, List, [], ◌∷◌, arith}
use ntsync_android.Region.{WaitOutcome, slot}
use ntsync_android.Satisfy.{Target}
use ntsync_android.Satisfy.Wait.{AllOf}
use ntsync_android.Wait.{fast_target, fast_targets, has_duplicate, or_timeout, wait_entry}
use ntsync_android.Wait.Poll.{IsTyped, wait_entry-AllOf}
use ntsync_android.Spin.{fresh_credit, fresh_budget}
use ntsync_android.Block.Asleep.{Thread}
use ntsync_android.Block.Whole.{Meets}
use ntsync_android.Ffi.Wait.{WaitArgs, Clocks, timeout_to_duration, ntsync_wait_all}
use ntsync_android.Ffi.Poll.{Polled, ntsync_wait_all-Polled}
use ntsync_android.Block.Asleep.{Turn}
use ntsync_android.Sweep.Auto.{Meanwhile}
use ntsync_android.Tests.Data.{alone, furnished}

-- The semaphore, the mutex that the thread 9 holds, and the signaled event.
abbrev handles : List ℕ
handles = 1 ∷ 2 ∷ 3 ∷ []

abbrev named : List Target
named =
    record { handle = 1; entry_seq = 0 }
    ∷ record { handle = 2; entry_seq = 0 }
    ∷ record { handle = 3; entry_seq = 0 }
    ∷ []

named-found : fast_targets furnished handles ≡ some named
unfolding fast_targets fast_target slot
named-found = refl

handles-apart : has_duplicate [] handles ≡ false
unfolding has_duplicate
handles-apart = refl

furnished-IsTyped : (i : ℕ) → IsTyped (furnished.slots i)
furnished-IsTyped i = record {
  sem = λ e. ground arith;
  mutex = λ e. ground arith;
  event = λ e. ground arith;
}

wait_entry-AllOf_example :
    (out : Option WaitOutcome) × AllOf furnished furnished 9 [] false named out
      (wait_entry [] alone furnished handles 9 true true 0).1
    × ((wait_entry [] alone furnished handles 9 true true 0).0 ≡ or_timeout true out)
wait_entry-AllOf_example =
    wait_entry-AllOf furnished alone handles 9 named true refl (omega arith) (omega arith)
      (omega arith) (omega arith) handles-apart named-found furnished-IsTyped

-- The same through the C interface, with a deadline that is past.
abbrev clocks : Clocks
clocks = record { realtime = 0; monotonic = 1000; pid = 7 }

abbrev pub nobody : Meets
nobody = record { at_entry = []; debug = false; spin_max = 0; turns = [] }

abbrev pub thread : Thread
thread = record { credit = fresh_credit; tail = fresh_budget; calls = 0 }

abbrev wait_args : WaitArgs
wait_args = record {
  timeout = 999;
  objs = some handles;
  count = 3;
  index = 7;
  flags = 0;
  owner = 9;
  alert = 0;
}

past : timeout_to_duration clocks wait_args.timeout wait_args.flags ≡ some 0
unfolding timeout_to_duration
past = refl

ntsync_wait_all-Polled_example :
    Polled furnished 9 named wait_args thread
      (ntsync_wait_all alone clocks nobody thread (some wait_args) furnished).0
      (ntsync_wait_all alone clocks nobody thread (some wait_args) furnished).1
      (ntsync_wait_all alone clocks nobody thread (some wait_args) furnished).2
      (ntsync_wait_all alone clocks nobody thread (some wait_args) furnished).3
ntsync_wait_all-Polled_example =
    ntsync_wait_all-Polled alone clocks nobody thread wait_args furnished handles named refl refl
      refl (omega arith) (omega arith) handles-apart named-found (omega arith) (omega arith) refl
      past refl furnished-IsTyped

-- A turn with nobody else, that begins before the deadline, and one after it.
abbrev unswept : Meanwhile
unswept = record {
  interval = 0;
  now = 0;
  now_locked = 0;
  lock_ok = true;
  probe = λ _. true;
  others = λ _ r. r;
  relock_ok = λ _. true;
}

abbrev pub early : Turn
early = record {
  lock_ok = true;
  again_ok = true;
  under_lock = [];
  due = false;
  moves = λ _. [];
  spin_lock_ok = true;
  sweep = unswept;
  remaining = some 500;
  tail = none;
  budget = 0;
  now = 0;
  asleep = λ r. r;
  answer = 110;
  sweep_again = unswept;
  detach_ok = true;
}

abbrev late : Turn
late = record early { due = true }

abbrev two_turns : Meets
two_turns = record nobody { turns = early ∷ late ∷ [] }

-- The event in slot 4 is not signaled, so that the wait blocks once and times out.
abbrev blocking : WaitArgs
blocking = record wait_args { objs = some (4 ∷ []); count = 1; timeout = 1500 }
