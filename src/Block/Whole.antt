-- ===== src/Block/Whole.antt =====
-- `wait` of src/core.rs (lines 1372-1378 and 1481-1825) as a whole: the attempt without the lock, and the
-- loop.
use ntsync_android.Base.{ℕ, Bool, none, some, List, [], map}
use ntsync_android.Region.{Region, Env}
use ntsync_android.Satisfy.{Target, Others}
use ntsync_android.Wait.{fast_targets, wait_entry}
use ntsync_android.Block.{Call}
use ntsync_android.Block.Asleep.{Thread, Turn, Turned, ends, wait_loop}

-- `entry_seqs` when the loop begins; the first turn reads those of the events again.
abbrev pub entry_targets : Region → (handles : List ℕ) → List Target
entry_targets r handles = elim (fast_targets r handles) [
  | some ts ↦ ts
  | none ↦ map (λ (h : ℕ). record { handle = h; entry_seq = 0 }) handles
]

-- What a wait meets: others during the attempt without the lock, and the turns of the loop.
pub record Meets : Type 0 where
  pub at_entry : Others
  pub debug : Bool
  pub spin_max : ℕ
  pub turns : List Turn

-- `poll` is whether the timeout is zero.
unfoldable pub wait :
    Env
    → Meets
    → (handles : List ℕ) → (poll : Bool) → Call
    → Thread
    → Region
    → Turned × Thread × Region
wait env m handles poll c th r =
    let (entry, r1) = wait_entry m.at_entry env r handles c.owner poll c.all c.alert in
    elim entry [
      | some out ↦ (ends out, th, r1)
      | none ↦ wait_loop m.debug m.spin_max c m.turns (entry_targets r handles) [] th r1
    ]
