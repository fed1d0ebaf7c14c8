-- ===== src/Spec/Waits.antt =====
-- A wait with no time to wait, as the whole `wait` of src/core.rs (lines 1372-1378 and 1481-1825): what the attempt
-- without the lock does not answer, the first turn of the loop does.
use ntsync_android.Base.{
  ℕ, ◌≡◌, refl, Bool, true, Option, none, some, List, [], ◌∷◌, map, arith, Option-cases, inl, inr,
}
use ntsync_android.Region.{Region, Env, WaitOutcome, slot}
use ntsync_android.Waiter.{waiter_cleanup}
use ntsync_android.Satisfy.{Target, try_satisfy}
use ntsync_android.Wait.{
  fast_target, fast_targets, fast_path, or_timeout, alert_valid, alert_signaled, wait_entry,
}
use ntsync_android.Block.{Call, returned, revalidate_one, revalidate, locked_cycle}
use ntsync_android.Block.Asleep.{Thread, Turn, Turned, ends, turn, wait_loop}
use ntsync_android.Block.Whole.{Meets, entry_targets, wait}

-- The poll of the process `env.pid`, which has no alert.
abbrev pub poll_call : Env → (all : Bool) → (owner : ℕ) → Call
poll_call env all owner = record { pid = env.pid; owner = owner; all = all; alert = 0 }

-- A poll is answered by its attempt, or else its handles are not all valid.
abbrev pub or_invalid : Option WaitOutcome → Turned
or_invalid (some out) = ends out
or_invalid none = ends WaitOutcome.invalid

-- The target of a handle that the attempt found no object for.
abbrev fresh_target : ℕ → Target
fresh_target h = record { handle = h; entry_seq = 0 }

or_timeout-some : (o : Option WaitOutcome) → or_timeout true o ≡ none → ⊥
or_timeout-some none e = cc
or_timeout-some (some out) e = cc

module _ (r : Region) where
  revalidate_one-none :
      (h : ℕ) → fast_target r h ≡ none → revalidate_one true r (fresh_target h) ≡ none
  unfolding fast_target revalidate_one
  revalidate_one-none h e = elim (Option-cases (slot r h)) [
    | inl f ↦ rw (f, revalidate_one) refl
    | inr (i, f) ↦ ground (arith, e, f)
  ]

  revalidate-none :
      (hs : List ℕ) → fast_targets r hs ≡ none → revalidate true r (map fresh_target hs) ≡ none
  unfolding fast_targets revalidate
  revalidate-none [] e = cc
  revalidate-none (h ∷ hs) e = elim (Option-cases (fast_target r h)) [
    | inl f ↦ rw (revalidate_one-none h f, revalidate) refl
    | inr (t, f) ↦ elim (Option-cases (fast_targets r hs)) [
      | inr (ts, g) ↦ absurd (ground (arith, e, f, g))
      | inl g ↦
          let rest = revalidate-none hs g in
          elim (Option-cases (revalidate_one true r (fresh_target h))) [
            | inl k ↦ rw (k, revalidate) refl
            | inr (u, k) ↦ rw (k, rest, revalidate) refl
          ]
    ]
  ]

  -- The first turn refuses the targets of handles that are not all valid.
  locked_cycle-unnamed :
      (c : Call) (t : Turn) (hs : List ℕ)
      → fast_targets r hs ≡ none
      → locked_cycle t.under_lock c t.due (map fresh_target hs) [] r
        ≡ (returned WaitOutcome.invalid, r)
  unfolding locked_cycle waiter_cleanup
  locked_cycle-unnamed c t hs e = rw (revalidate-none hs e, locked_cycle) refl

  turn-unnamed :
      (debug : Bool) (iters : ℕ) (c : Call) (t : Turn) (hs : List ℕ) (th : Thread)
      → t.lock_ok ≡ true
      → fast_targets r hs ≡ none
      → turn debug iters c t (map fresh_target hs) [] th r ≡ (ends WaitOutcome.invalid, th, r)
  unfolding turn
  turn-unnamed debug iters c t hs th ok e =
      let cycle = locked_cycle-unnamed c t hs e in ground (arith, ok, cycle)

  wait_loop-unnamed :
      (debug : Bool) (iters : ℕ) (c : Call) (t : Turn) (turns : List Turn) (hs : List ℕ)
      (th : Thread)
      → t.lock_ok ≡ true
      → fast_targets r hs ≡ none
      → wait_loop debug iters c (t ∷ turns) (map fresh_target hs) [] th r
        ≡ (ends WaitOutcome.invalid, th, r)
  unfolding wait_loop
  wait_loop-unnamed debug iters c t turns hs th ok e =
      let one = turn-unnamed debug iters c t hs th ok e in ground (arith, one)

module _ (env : Env) (r : Region) (all : Bool) (owner : ℕ) (handles : List ℕ) where
  abbrev attempted : Option WaitOutcome × Region
  attempted = wait_entry [] env r handles owner true all 0

  -- The attempt of a poll comes to nothing only where the handles are not all valid.
  wait_entry-none : attempted.0 ≡ none → (fast_targets r handles ≡ none) × (attempted.1 ≡ r)
  unfolding wait_entry fast_path alert_valid alert_signaled
  wait_entry-none e = elim (Option-cases (fast_targets r handles)) [
    | inl f ↦ (f, ground (arith, f))
    | inr (ts, f) ↦
        let ne = or_timeout-some (try_satisfy [] r owner ts all).0 in
        absurd (ground (arith, e, f, ne))
  ]

  pub wait-attempted :
      (m : Meets) (t : Turn) (turns : List Turn) (th : Thread)
      → m.at_entry ≡ []
      → m.turns ≡ t ∷ turns
      → t.lock_ok ≡ true
      → wait env m handles true (poll_call env all owner) th r
        ≡ (or_invalid attempted.0, th, attempted.1)
  unfolding wait
  wait-attempted m t turns th quiet first ok = elim (Option-cases attempted.0) [
    | inr (out, e) ↦ ground (arith, quiet, e)
    | inl e ↦
        let (unnamed, same) = wait_entry-none e in
        let c = poll_call env all owner in
        let looped = wait_loop-unnamed r m.debug m.spin_max c t turns handles th ok unnamed in
        let again : wait_loop m.debug m.spin_max c m.turns (entry_targets r handles) [] th
              attempted.1
            ≡ (ends WaitOutcome.invalid, th, r) =
          rw (first, same, unnamed, looped, entry_targets) refl in
        ground (arith, quiet, e, again, same)
  ]
