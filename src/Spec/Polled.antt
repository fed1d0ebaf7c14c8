-- ===== src/Spec/Polled.antt =====
-- The attempt of `wait` without the lock (src/core.rs, lines 1481-1535), with no time to wait, against the table.
use ntsync_android.Base.{
  ℕ, ◌^◌, ◌<◌, ◌≡◌, refl, ◌∙◌, ap, Bool, true, false, ◌||◌, ltb, Option, none, some, arith, ◌==◌,
  if◌then◌else◌, Option-cases, Bool-cases, inl, inr, ◌⊎◌, List, [], ◌∷◌, length,
}
use ntsync_android.Region.{Region, Env, WaitOutcome, slot, index_of, type_event, max_wait_count}
use ntsync_android.Region.Handle.{slot-some}
use ntsync_android.Satisfy.{Target, try_satisfy}
use ntsync_android.Wait.{
  waitable, fast_target, fast_targets, fast_path, has_duplicate, or_timeout, wait_entry,
}
use ntsync_android.Wait.Poll.{entry-satisfy, fast_targets-AllSound}
use ntsync_android.Spec.View.{view, object_of, view-some, view-none}
use ntsync_android.Spec.Changes.{IsSound}
use ntsync_android.Spec.Ages.{Ages-refl}
use ntsync_android.Spec.Calls.{IsQuiet}
use ntsync_android.Spec.Polls.{is_named, all_named, poll_spec, attempt_spec}
use ntsync_android.Spec.Takes.{IsReady}
use ntsync_android.Spec.Attempts.{AllReady, handles_of, Attempted, try_satisfy-Attempted}

waitable-object : (t w : ℕ) → is_named (object_of t w) ≡ waitable t
unfolding object_of
waitable-object t w = ground arith

-- A handle has a target exactly if it names an object.
module _ (r : Region) where
  fast_target-cases :
      (h : ℕ)
      → ((fast_target r h ≡ none) × (is_named (view r h) ≡ false))
        ⊎ ((t : Target) × (fast_target r h ≡ some t)
            × (t.handle ≡ h)
            × IsReady r t
            × (is_named (view r h) ≡ true))
  unfolding fast_target
  fast_target-cases h = elim (Option-cases (slot r h)) [
    | inl e ↦ inl (ground arith, ap is_named (view-none r h e))
    | inr (i, e) ↦
        let s = r.slots i in
        let (at, _, _) = slot-some r h e in
        let seen = ap is_named (view-some r h e) ∙ waitable-object s.obj_type s.w0 in
        elim (Bool-cases (waitable s.obj_type)) [
          | inr other ↦ inl (ground arith, seen ∙ other)
          | inl known ↦
              let t : Target = record {
                handle = h;
                entry_seq = if s.obj_type == type_event then s.d else 0;
              } in
              let found : slot r h ≡ some (index_of h) = rw (← at) e in
              inr (
                t,
                ground arith,
                refl,
                record {
                  named = found;
                  kind = rw (← at) known;
                  pulses = λ k. rw (← at) (ground (arith, k, at));
                },
                seen ∙ known,
              )
        ]
  ]

  fast_targets-cases :
      (hs : List ℕ)
      → ((fast_targets r hs ≡ none) × (all_named (view r) hs ≡ false))
        ⊎ ((ts : List Target) × (fast_targets r hs ≡ some ts)
            × (handles_of ts ≡ hs)
            × AllReady r ts
            × (all_named (view r) hs ≡ true))
  unfolding fast_targets
  fast_targets-cases [] = inr ([], refl, refl, tt, refl)
  fast_targets-cases (h ∷ hs) = elim (fast_target-cases h) [
    | inl (e, f) ↦ inl (rw (e, fast_targets) refl, ground arith)
    | inr (t, e, at, ready, f) ↦ elim (fast_targets-cases hs) [
      | inl (g, k) ↦ inl (rw (e, g, fast_targets) refl, ground arith)
      | inr (ts, g, ats, readies, k) ↦
          inr (
            t ∷ ts,
            rw (e, g, fast_targets) refl,
            rw (at, ats) refl,
            (ready, readies),
            ground arith,
          )
    ]
  ]

module _ (env : Env) (quiet : IsQuiet env) (n : ℕ) (r : Region) (v : IsSound n r) (all : Bool)
    (owner : ℕ) (fits : owner < 2 ^ 32) (handles : List ℕ) where
  abbrev polled : Option WaitOutcome × Region
  polled = wait_entry [] env r handles owner true all 0

  stays-Attempted : (out : Option WaitOutcome) → Attempted n r (out, r) (out, view r)
  stays-Attempted out = record {
    outcome = refl;
    table = refl;
    sound = v;
    aged = λ j. Ages-refl (r.slots j);
  }

  -- Arguments that the poll does not look at objects for.
  abbrev is_bad : Bool
  is_bad =
      (owner == 0 || (length handles == 0 || ltb max_wait_count (length handles)))
      || has_duplicate [] handles

  bad-Attempted : is_bad ≡ true → Attempted n r polled (poll_spec all owner handles (view r))
  unfolding wait_entry
  bad-Attempted bad =
      let one : polled ≡ (some WaitOutcome.invalid, r) = ground (arith, bad) in
      let two : poll_spec all owner handles (view r) ≡ (some WaitOutcome.invalid, view r) =
        ground (arith, bad) in
      rw (one, two) (stays-Attempted (some WaitOutcome.invalid))

  unnamed-Attempted :
      is_bad ≡ false
      → fast_targets r handles ≡ none
      → all_named (view r) handles ≡ false
      → Attempted n r polled (poll_spec all owner handles (view r))
  unfolding wait_entry fast_path
  unnamed-Attempted good gone unnamed =
      let one : polled ≡ (none, r) = ground (arith, good, gone, quiet.opened) in
      let two : poll_spec all owner handles (view r) ≡ (none, view r) =
        ground (arith, good, unnamed) in
      rw (one, two) (stays-Attempted none)

  named-Attempted :
      is_bad ≡ false
      → (ts : List Target) → fast_targets r handles ≡ some ts
      → handles_of ts ≡ handles
      → AllReady r ts
      → all_named (view r) handles ≡ true
      → Attempted n r polled (poll_spec all owner handles (view r))
  named-Attempted good ts found at ready named =
      let apart : has_duplicate [] handles ≡ false = ground (arith, good) in
      let one : polled
          ≡ (or_timeout true (try_satisfy [] r owner ts all).0, (try_satisfy [] r owner ts all).1) =
        entry-satisfy r env handles owner ts true all quiet.opened (ground (arith, good))
          (ground (arith, good)) (ground (arith, good)) apart found in
      let (sounds, places) = fast_targets-AllSound r handles [] found apart tt v.typed in
      let k =
        try_satisfy-Attempted n owner all ts r (ground (arith, good)) fits v ready places sounds in
      let got = attempt_spec all (view r) owner handles in
      let two : poll_spec all owner handles (view r) ≡ (or_timeout true got.0, got.1) =
        ground (arith, good, named) in
      rw (one, two)
        (record {
          outcome = ap (or_timeout true) (k.outcome ∙ (rw at refl));
          table = k.table ∙ (rw at refl);
          sound = k.sound;
          aged = k.aged;
        })

  -- The attempt without the lock of a wait for any or all of some handles, with no time to wait and no
  -- alert, by an owner below 2 ^ 32 in a process that meets no error and no other thread, on a region that
  -- is sound: it ends with the outcome, and leaves the table of objects, that a poll promises, for bad
  -- arguments, for handles that name no object, for busy objects and for an acquisition, and the region
  -- stays sound.
  pub wait_entry-Attempted : Attempted n r polled (poll_spec all owner handles (view r))
  wait_entry-Attempted = elim (Bool-cases is_bad) [
    | inl bad ↦ bad-Attempted bad
    | inr good ↦ elim (fast_targets-cases r handles) [
      | inl (e, f) ↦ unnamed-Attempted good e f
      | inr (ts, e, at, ready, f) ↦ named-Attempted good ts e at ready f
    ]
  ]
