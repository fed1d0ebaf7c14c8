-- ===== src/Wait.antt =====
-- src/core.rs, lines 1427 and 1481-1535: what `wait` does before it may block. It checks its arguments,
-- looks every handle up without the lock, and tries once to satisfy the wait.
pub mod Poll
use ntsync_android.Base.{
  ℕ, ◌+◌, Bool, true, false, not, ◌&&◌, ◌||◌, Option, none, some, List, [], ◌∷◌, ◌==◌, ltb,
  contains, length, if◌then◌else◌,
}
use ntsync_android.Word.{lo}
use ntsync_android.Region.{
  Region, Slot, Env, WaitOutcome, signaled, timeout, slot, index_of, max_wait_count, type_sem,
  type_mutex, type_event,
}
use ntsync_android.Satisfy.{Target, Others, try_satisfy}

abbrev pub waitable : ℕ → Bool
waitable obj_type = obj_type == type_sem || (obj_type == type_mutex || obj_type == type_event)

-- One handle and its entry in `entry_seqs`, if it names an object to wait for.
unfoldable pub fast_target : Region → (handle : ℕ) → Option Target
fast_target r handle = elim (slot r handle) [
  | none ↦ none
  | some i ↦
      let s = r.slots i in
      if waitable s.obj_type
      then some
          (record { handle = handle; entry_seq = if s.obj_type == type_event then s.d else 0 })
      else none
]

abbrev pub cons_target : Option Target → Option (List Target) → Option (List Target)
cons_target none ts = none
cons_target (some t) none = none
cons_target (some t) (some ts) = some (t ∷ ts)

unfoldable pub fast_targets : Region → (handles : List ℕ) → Option (List Target)
fast_targets r [] = some []
fast_targets r (h ∷ hs) = cons_target (fast_target r h) (fast_targets r hs)

-- Whether `handles[..i].contains(h)` for some `i`; `seen` is the part before, the last one first.
unfoldable pub has_duplicate : (seen handles : List ℕ) → Bool
has_duplicate seen [] = false
has_duplicate seen (h ∷ hs) = contains seen h || has_duplicate (h ∷ seen) hs

unfoldable pub alert_valid : Region → (alert : ℕ) → Bool
alert_valid r alert =
    alert == 0 || elim (slot r alert) [ none ↦ false | some i ↦ (r.slots i).obj_type == type_event ]

unfoldable pub alert_signaled : Region → (alert : ℕ) → Bool
alert_signaled r alert = not (alert == 0) && not (lo (r.slots (index_of alert)).w0 == 0)

-- `poll` is whether the timeout is zero.
abbrev pub or_timeout : (poll : Bool) → Option WaitOutcome → Option WaitOutcome
or_timeout poll (some out) = some out
or_timeout true none = some timeout
or_timeout false none = none

-- The fast path; no outcome means that `wait` goes on to block.
unfoldable pub fast_path :
    Others
    → Region
    → (handles : List ℕ) → (owner : ℕ) → (poll all : Bool) → (alert : ℕ)
    → Option WaitOutcome × Region
fast_path fs r handles owner poll all alert = elim (fast_targets r handles) [
  | none ↦ (none, r)
  | some ts ↦
      let (out, r') = try_satisfy fs r owner ts all in
      if not (alert_valid r alert)
      then (none, r)
      else if alert_signaled r alert
      then (some (signaled (length handles) false), r)
      else (or_timeout poll out, r')
]

unfoldable pub wait_entry :
    Others
    → Env
    → Region
    → (handles : List ℕ) → (owner : ℕ) → (poll all : Bool) → (alert : ℕ)
    → Option WaitOutcome × Region
wait_entry fs env r handles owner poll all alert =
    let go = fast_path fs r handles owner poll all alert in
    if owner == 0 || (length handles == 0 || ltb max_wait_count (length handles))
    then (some WaitOutcome.invalid, r)
    else if has_duplicate [] handles
    then (some WaitOutcome.invalid, r)
    else elim env.region_error [ some e ↦ (some WaitOutcome.invalid, r) | none ↦ go ]
