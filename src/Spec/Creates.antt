-- ===== src/Spec/Creates.antt =====
-- `create_semaphore`, `create_mutex`, `create_event` and `sweep_dead` of src/core.rs (lines 791-867 and 2321-2329)
-- against the table.
use ntsync_android.Base.{
  ℕ, ◌+◌, ◌^◌, ◌<◌, ◌≡◌, ◌≢◌, refl, true, Option, none, some, arith, Option-cases, Bool-cases, inl,
  inr, ltb,
}
use ntsync_android.Region.{Region, Slot, Env, slot_free, slot_count}
use ntsync_android.Sweep.{sweep_dead_locked}
use ntsync_android.Slot.{alloc_slot, alloc_slot_or_sweep, create}
use ntsync_android.Slot.Alloc.{alloc_slot-none}
use ntsync_android.Wait.{waitable}
use ntsync_android.Wait.Poll.{IsTyped}
use ntsync_android.Spec.{Object, number}
use ntsync_android.Spec.View.{view, object_of}
use ntsync_android.Spec.Changes.{IsSound, IsSound-later}
use ntsync_android.Spec.Ages.{IsNext, Ages-trans}
use ntsync_android.Spec.Calls.{IsQuiet, answered}
use ntsync_android.Spec.Reaps.{Reaps-Loses, Reaps-IsSound, Reaps-Ages, sweep_dead_locked-Reaps}
use ntsync_android.Spec.Spares.{sweep_dead_locked-spared}
use ntsync_android.Spec.Makes.{Makes, all_used-IsFull, placed, placed-IsMade}

module _ (env : Env) (quiet : IsQuiet env) (n : ℕ) (r : Region) (v : IsSound n r)
    (young : n + 1 < 2 ^ 18) (t w : ℕ) (o : Object) (typed : waitable t ≡ true)
    (made : object_of t w ≡ some o)
    (kept : (s : Slot) → s.obj_type ≡ t → s.w0 ≡ w → IsTyped s) where
  -- What `create` returns and leaves once the search has ended with `out`.
  abbrev IsCreation : Option ℕ × Region → Type 0
  IsCreation out =
      Makes (view r) o (answered number (placed env.pid t w out)).0
        (view (placed env.pid t w out).1)
      × IsNext (n + 1) r (placed env.pid t w out).1

  found-IsCreation : IsCreation (alloc_slot r)
  found-IsCreation =
      let (one, (sound, ages)) = placed-IsMade n r v (omega arith) env.pid t w o typed made kept in
      (inl one, (IsSound-later n _ sound, ages))

  -- A full table, whose sweep frees nothing, or frees something.
  module _ (full : (i : ℕ) → i < slot_count → (r.slots i).state ≢ slot_free) where
    spared-IsCreation :
        (sweep_dead_locked env.probe r).1 ≡ 0 → IsCreation (none, (sweep_dead_locked env.probe r).0)
    spared-IsCreation e =
        let swept = (sweep_dead_locked env.probe r).0 in
        let reaps = sweep_dead_locked-Reaps env.probe r in
        let same = sweep_dead_locked-spared env.probe r e in
        let sound = Reaps-IsSound n r swept reaps v in
        let ages = Reaps-Ages n r swept reaps v (omega (arith, young)) in
        let still : (i : ℕ) → i < slot_count → (swept.slots i).state ≢ slot_free =
          λ i lt. rw ((same i).state) (full i lt) in
        (
          inr (
            all_used-IsFull n r v (omega arith) full,
            (
              view swept,
              Reaps-Loses r swept reaps,
              inr (refl, all_used-IsFull (n + 1) swept sound young still, λ k. refl),
            ),
          ),
          (sound, ages),
        )

    freed-IsCreation : IsCreation (alloc_slot (sweep_dead_locked env.probe r).0)
    freed-IsCreation =
        let swept = (sweep_dead_locked env.probe r).0 in
        let reaps = sweep_dead_locked-Reaps env.probe r in
        let sound = Reaps-IsSound n r swept reaps v in
        let ages = Reaps-Ages n r swept reaps v (omega (arith, young)) in
        let (one, (after, later)) =
          placed-IsMade (n + 1) swept sound young env.pid t w o typed made kept in
        (
          inr (
            all_used-IsFull n r v (omega arith) full,
            (view swept, Reaps-Loses r swept reaps, one),
          ),
          (after, λ i. Ages-trans (ages i) (later i)),
        )

  searched-IsCreation : IsCreation (alloc_slot_or_sweep env.probe r)
  unfolding alloc_slot_or_sweep
  searched-IsCreation = elim (Option-cases (alloc_slot r).0) [
    | inr (h, e) ↦
        let same : alloc_slot_or_sweep env.probe r ≡ alloc_slot r = ground arith in
        rw same found-IsCreation
    | inl e ↦
        let (full, left) = alloc_slot-none r e in
        elim (Bool-cases (ltb 0 (sweep_dead_locked env.probe r).1)) [
          | inl freed ↦
              let same : alloc_slot_or_sweep env.probe r
                  ≡ alloc_slot (sweep_dead_locked env.probe r).0 =
                ground (arith, e, left, freed) in
              rw same (freed-IsCreation full)
          | inr spared ↦
              let same : alloc_slot_or_sweep env.probe r
                  ≡ (none, (sweep_dead_locked env.probe r).0) =
                ground (arith, e, left, spared) in
              rw same (spared-IsCreation full (ground arith))
        ]
  ]

  pub create-Makes :
      Makes (view r) o (answered number (create env t w r)).0 (view (create env t w r).1)
      × IsNext (n + 1) r (create env t w r).1
  unfolding create
  create-Makes =
      let same : create env t w r ≡ placed env.pid t w (alloc_slot_or_sweep env.probe r) =
        ground (arith, quiet.opened, quiet.locked) in
      rw (same, create) searched-IsCreation
