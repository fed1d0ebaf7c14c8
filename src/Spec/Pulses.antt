-- ===== src/Spec/Pulses.antt =====
-- `event_pulse` of src/core.rs (lines 987-1004) leaves the event unsignaled in the table.
use ntsync_android.Base.{
  ℕ, ◌+◌, ◌%◌, ◌^◌, ◌≡◌, refl, sym, ◌∙◌, ap, some, arith, ◌==◌, Option-cases, Bool-cases, inl, inr,
  ==→eq,
}
use ntsync_android.Word.{lo, clear_low}
use ntsync_android.Region.{Region, Slot, Env, Error, Result, ok, err, slot, set_slot, type_event}
use ntsync_android.Waiter.{wake_object}
use ntsync_android.Object.State.{IsEvent, event_of}
use ntsync_android.Signal.{event_pulse, pulse, reload}
use ntsync_android.Spec.{
  Object, an_event, number, Outcome, outcome, answer_with, pulse_spec, on_event, at_handle, pulses,
  call_spec,
}
use ntsync_android.Spec.View.{object_of, view, view-some, view-none}
use ntsync_android.Spec.Changes.{IsSound, Writes, view-Writes, IsSound-Writes}
use ntsync_android.Spec.Calls.{IsQuiet, Agrees, Serves}
use ntsync_android.Spec.Ages.{Writes-Ages}
use ntsync_android.Spec.Kinds.{event-reads, event-other, event-keeps}
use ntsync_android.Spec.Agree.{refused-Agrees, at_handle-some}
use ntsync_android.Spec.Handles.{wake_object-Writes}

clear_low-IsEvent :
    (w : ℕ)
    → IsEvent w
    → IsEvent (clear_low w)
      × (event_of (clear_low w) ≡ (pulse_spec (event_of w)).1)
      × (ok (lo w) ≡ (pulse_spec (event_of w)).0)
unfolding clear_low
clear_low-IsEvent w v = (ground arith, ground arith, ground arith)

module _ (env : Env) (quiet : IsQuiet env) (n : ℕ) (r : Region) (v : IsSound n r) (h : ℕ) where
  abbrev pulsed : Object → Outcome
  pulsed = on_event (λ e. outcome number an_event (pulse_spec e))

  pulse-Agrees :
      (i : ℕ)
      → slot r h ≡ some i
      → (r.slots i).obj_type ≡ type_event
      → Agrees n r (ok (number (lo (r.slots i).w0))) (pulse env i r).1 (at_handle (view r) h pulsed)
  unfolding pulse
  pulse-Agrees i found typed =
      let s = r.slots i in
      let w = s.w0 in
      let (kept, object, answer) = clear_low-IsEvent w ((v.typed i).event typed) in
      let t : Slot = record s {
        w0 = clear_low (reload env.interference w);
        d = (s.d + 1) % 2 ^ 64;
      } in
      let calm : reload env.interference w ≡ w = rw quiet.alone refl in
      let c : Writes r (wake_object (set_slot r i t) i) i t.w0 =
        wake_object-Writes r i t
          (record { state = refl; generation = refl; obj_type = refl; w0 = refl; pid = refl }) in
      let seen : view r h ≡ some (an_event (event_of w)) =
        view-some r h found ∙ (rw typed (event-reads w)) in
      let after : object_of s.obj_type t.w0 ≡ some (an_event (pulse_spec (event_of w)).1) =
        rw (typed, calm) (event-reads (clear_low w) ∙ (rw object refl)) in
      rw (at_handle-some (view r) h pulsed seen) (record {
        answers = ap (λ (a : Result ℕ). answer_with number a) answer;
        table = λ k. view-Writes r _ h t.w0 found c k ∙ (rw after refl);
        sound =
            IsSound-Writes n r _ v (n + 1) i t.w0 (omega arith) c
              (event-keeps s t.w0 typed (rw calm kept));
        aged = Writes-Ages r _ i t.w0 c;
      })

  pub pulses-Serves : Serves env n r h pulses
  unfolding event_pulse call_spec pulse
  pulses-Serves = elim (Option-cases (slot r h)) [
    | inl f ↦
        let e : event_pulse env h r ≡ (err Error.invalid, r) =
          ground (arith, quiet.opened, quiet.locked, f) in
        rw (e, event_pulse)
          (refused-Agrees env quiet n r v h pulsed
            (λ o seen. absurd (ground (arith, seen, view-none r h f))))
    | inr (i, f) ↦ elim (Bool-cases ((r.slots i).obj_type == type_event)) [
      | inl typed ↦
          let t = ==→eq (r.slots i).obj_type type_event typed in
          let e : event_pulse env h r ≡ (ok (lo (r.slots i).w0), (pulse env i r).1) =
            ground (arith, quiet.opened, quiet.locked, f, t) in
          rw (e, event_pulse) (pulse-Agrees i f t)
      | inr other ↦
          let e : event_pulse env h r ≡ (err Error.invalid, r) =
            ground (arith, quiet.opened, quiet.locked, f, other) in
          rw (e, event_pulse)
            (refused-Agrees env quiet n r v h pulsed (λ o seen.
              event-other (λ a. outcome number an_event (pulse_spec a)) (r.slots i).obj_type
                (r.slots i).w0 o (ground arith) (sym (view-some r h f) ∙ seen)))
    ]
  ]
