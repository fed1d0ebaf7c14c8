-- ===== src/Spec/Handles.antt =====
-- The calls of src/core.rs that work on a slot whatever its object is: `retain`, `release`, `close` (lines 869-922)
-- and `event_pulse` (lines 987-1004).
use ntsync_android.Base.{
  ◌+◌, ℕ, ◌≡◌, ◌≢◌, refl, sym, ◌∙◌, none, some, arith, ◌==◌, Option-cases, Bool-cases, inl, inr,
  ◌⊎◌, ==→eq,
}
use ntsync_android.Region.{Region, Slot, Env, Error, ok, err, slot, index_of, set_slot}
use ntsync_android.Holder.{holder_add, holder_remove}
use ntsync_android.Waiter.{wake_object}
use ntsync_android.Waiter.Slots.{wake_object-SameObject}
use ntsync_android.Slot.{retain, release}
use ntsync_android.Spec.{Object, nothing, Outcome, at_handle, retains, lets_go, call_spec}
use ntsync_android.Spec.View.{object_of, view, SameView, view-some, view-none}
use ntsync_android.Spec.Changes.{IsSound, Writes, view-Writes, IsSound-Writes}
use ntsync_android.Spec.Ages.{Writes-Ages}
use ntsync_android.Spec.Known.{view_zero, view_known}
use ntsync_android.Spec.Calls.{IsQuiet, Agrees, Serves}
use ntsync_android.Spec.Agree.{refused-Agrees, at_handle-some}

-- A change of the holders is none of the table.
pub holder_add-SameView : (s : Slot) (pid : ℕ) → SameView (holder_add s pid) s
unfolding holder_add
holder_add-SameView s pid = ground arith

pub holder_remove-SameView : (s : Slot) (pid : ℕ) → SameView (holder_remove s pid) s
unfolding holder_remove
holder_remove-SameView s pid = ground arith

module _ (r : Region) (i : ℕ) (s : Slot) where
  -- A slot that is written back with another word.
  pub set_slot-Writes :
      SameView s (record (r.slots i) { w0 = s.w0 }) → Writes r (set_slot r i s) i s.w0
  set_slot-Writes e = record {
    state = ground (arith, e.state);
    generation = ground (arith, e.generation);
    obj_type = ground (arith, e.obj_type);
    word = ground arith;
    pid = ground (arith, e.pid);
    others = λ j ne. record {
      state = ground arith;
      generation = ground arith;
      obj_type = ground arith;
      w0 = ground arith;
      pid = ground arith;
    };
  }

  pub wake_object-Writes :
      SameView s (record (r.slots i) { w0 = s.w0 })
      → Writes r (wake_object (set_slot r i s) i) i s.w0
  wake_object-Writes e =
      let c = set_slot-Writes e in
      let same = λ (j : ℕ). wake_object-SameObject (set_slot r i s) i j in
      let here = same i in
      record {
        state = here.state ∙ c.state;
        generation = here.generation ∙ c.generation;
        obj_type = here.obj_type ∙ c.obj_type;
        word = here.w0 ∙ c.word;
        pid = here.pid ∙ c.pid;
        others = λ j ne.
            let a = same j in
            let b = c.others j ne in
            record {
              state = a.state ∙ b.state;
              generation = a.generation ∙ b.generation;
              obj_type = a.obj_type ∙ b.obj_type;
              w0 = a.w0 ∙ b.w0;
              pid = a.pid ∙ b.pid;
            };
      }

module _ (env : Env) (quiet : IsQuiet env) (n : ℕ) (r : Region) (v : IsSound n r) (h : ℕ) where
  abbrev granted : Object → Outcome
  granted o = (ok nothing, some o)

  -- What `retain` and `release` do to the slot that they find.
  held-Agrees :
      (f : Slot → ℕ → Slot) (i : ℕ)
      → ((s : Slot) → SameView (f s env.pid) s)
      → slot r h ≡ some i
      → index_of h ≢ 0
      → Agrees n r
          (ok nothing)
          (set_slot r i (f (r.slots i) env.pid))
          (at_handle (view r) h granted)
  held-Agrees f i same found ne =
      let s = r.slots i in
      let e = same s in
      let c = set_slot-Writes r i (f s env.pid) (record {
        state = e.state;
        generation = e.generation;
        obj_type = e.obj_type;
        w0 = refl;
        pid = e.pid;
      }) in
      let (o, seen) = view_known n r v h i found ne in
      let before : object_of s.obj_type s.w0 ≡ some o = sym (view-some r h found) ∙ seen in
      rw (at_handle-some (view r) h granted seen) (record {
        answers = refl;
        table = λ k. view-Writes r _ h (f s env.pid).w0 found c k ∙ (rw (e.w0, before) refl);
        sound =
            IsSound-Writes n r _ v (n + 1) i (f s env.pid).w0 (omega arith) c (rw e.w0 (v.typed i));
        aged = Writes-Ages r _ i (f s env.pid).w0 c;
      })

  -- A handle names the reserved slot, none, or an object.
  abbrev pub Absent : Type 0
  Absent = (index_of h ≡ 0) ⊎ (slot r h ≡ none)

  pub handle-cases : Absent ⊎ ((i : ℕ) × (index_of h ≢ 0) × (slot r h ≡ some i))
  handle-cases = elim (Bool-cases (index_of h == 0)) [
    | inl zeroth ↦ inl (inl (==→eq (index_of h) 0 zeroth))
    | inr ne ↦ elim (Option-cases (slot r h)) [
      | inl f ↦ inl (inr f)
      | inr (i, f) ↦ inr (i, ground arith, f)
    ]
  ]

  pub absent-Agrees :
      (f : Object → Outcome) → Absent → Agrees n r (err Error.invalid) r (at_handle (view r) h f)
  absent-Agrees f gone =
      let none_there : view r h ≡ none = elim gone [
        | inl zeroth ↦ view_zero n r v h zeroth
        | inr e ↦ view-none r h e
      ] in
      refused-Agrees env quiet n r v h f (λ o seen. absurd (ground (arith, seen, none_there)))

  pub retains-Serves : Serves env n r h retains
  unfolding retain call_spec
  retains-Serves = elim handle-cases [
    | inl gone ↦
        let e : retain env h r ≡ (err Error.invalid, r) =
          ground (arith, quiet.opened, quiet.locked, gone) in
        rw (e, retain) (absent-Agrees granted gone)
    | inr (i, ne, f) ↦
        let e : retain env h r ≡ (ok tt, set_slot r i (holder_add (r.slots i) env.pid)) =
          ground (arith, quiet.opened, quiet.locked, ne, f) in
        rw (e, retain) (held-Agrees holder_add i (λ s. holder_add-SameView s env.pid) f ne)
  ]

  pub lets_go-Serves : Serves env n r h lets_go
  unfolding release call_spec
  lets_go-Serves = elim handle-cases [
    | inl gone ↦
        let e : release env h r ≡ (err Error.invalid, r) =
          ground (arith, quiet.opened, quiet.locked, gone) in
        rw (e, release) (absent-Agrees granted gone)
    | inr (i, ne, f) ↦
        let e : release env h r ≡ (ok tt, set_slot r i (holder_remove (r.slots i) env.pid)) =
          ground (arith, quiet.opened, quiet.locked, ne, f) in
        rw (e, release) (held-Agrees holder_remove i (λ s. holder_remove-SameView s env.pid) f ne)
  ]
