-- ===== src/Spec/Closes.antt =====
-- `close` of src/core.rs (lines 901-922) takes an object out of the table.
use ntsync_android.Base.{
  ℕ, ◌+◌, ◌%◌, ◌^◌, ◌<◌, ◌≡◌, ◌≢◌, refl, ◌∙◌, true, false, none, some, arith, inl, inr,
}
use ntsync_android.Region.{Region, Slot, Env, ok, slot, index_of, set_slot, slot_free}
use ntsync_android.Region.Handle.{slot-some}
use ntsync_android.Holder.{holder_remove}
use ntsync_android.Waiter.{wake_object}
use ntsync_android.Waiter.Slots.{wake_object-SameObject}
use ntsync_android.Slot.{close, close_slot}
use ntsync_android.Spec.{Object, nothing, Outcome, at_handle, closes, call_spec}
use ntsync_android.Spec.View.{view, SameView-of_same}
use ntsync_android.Spec.Changes.{IsSound, view-Frees, IsSound-Frees}
use ntsync_android.Spec.Ages.{Elsewhere-Ages}
use ntsync_android.Spec.Known.{view_known}
use ntsync_android.Spec.Calls.{IsQuiet, Agrees, Serves}
use ntsync_android.Spec.Agree.{at_handle-some}
use ntsync_android.Spec.Handles.{handle-cases, absent-Agrees, holder_remove-SameView}

module _ (env : Env) (quiet : IsQuiet env) (n : ℕ) (r : Region) (v : IsSound n r) (h : ℕ) where
  abbrev removed : Object → Outcome
  removed o = (ok nothing, none)

  close_slot-Agrees :
      (i : ℕ)
      → n + 1 < 2 ^ 32
      → index_of h ≢ 0
      → slot r h ≡ some i
      → Agrees n r (ok nothing) (close_slot env i r) (at_handle (view r) h removed)
  unfolding close_slot
  close_slot-Agrees i young ne found =
      let (at, _, _) = slot-some r h found in
      let (o, seen) = view_known n r v h i found ne in
      let s = holder_remove (r.slots i) env.pid in
      let e = holder_remove-SameView (r.slots i) env.pid in
      let t : Slot = record s { state = slot_free; generation = (s.generation + 1) % 2 ^ 32 } in
      let target = set_slot r i t in
      let same = λ (j : ℕ). wake_object-SameObject target i j in
      let here = same i in
      let others = λ (j : ℕ) (off : j ≢ i).
        let off : target.slots j ≡ r.slots j = ground arith in
        rw off at (SameView-of_same (same j)) in
      let free : ((wake_object target i).slots i).state ≡ slot_free = here.state ∙ ground arith in
      rw (at_handle-some (view r) h removed seen) (record {
        answers = refl;
        table = λ k. view-Frees r _ h found (ground (arith, free)) others k;
        sound =
            IsSound-Frees n r _ v i (ground (arith, at)) others
              (here.obj_type ∙ ground (arith, e.obj_type)) (here.w0 ∙ ground (arith, e.w0)) free
              (ground (arith, here.generation, e.generation, v.young i));
        aged = Elsewhere-Ages r (wake_object target i) i others (record {
          later = ground (arith, here.generation, e.generation, v.young i, young);
          kept = λ g used. absurd (ground (arith, here.generation, e.generation, v.young i, young));
        });
      })

  pub closes-Serves : n + 1 < 2 ^ 32 → Serves env n r h closes
  unfolding close call_spec
  closes-Serves young = elim (handle-cases env quiet n r v h) [
    | inl gone ↦
        let e : close env h r ≡ (false, r) = ground (arith, quiet.opened, quiet.locked, gone) in
        rw (e, close) (absent-Agrees env quiet n r v h removed gone)
    | inr (i, ne, f) ↦
        let e : close env h r ≡ (true, close_slot env i r) =
          ground (arith, quiet.opened, quiet.locked, ne, f) in
        rw (e, close) (close_slot-Agrees i young ne f)
  ]
