-- ===== src/Spec/Takes.antt =====
-- `try_acquire` of src/core.rs (lines 1105-1171) on the slot of a handle takes the object of the table.
use ntsync_android.Base.{
  ℕ, ◌^◌, ◌<◌, ◌≡◌, refl, sym, ◌∙◌, ap, fun_ext, Bool, true, false, not, Option, some, arith, ◌==◌,
  inl, inr, update, [],
}
use ntsync_android.Region.{Region, Slot, slot, index_of, type_sem, type_mutex, type_event, set_slot}
use ntsync_android.Object.{try_acquire}
use ntsync_android.Object.State.{sem_of, mutex_of, event_of, Sem, Mutex, Event}
use ntsync_android.Object.Acquire.{try_acquire-IsSem, try_acquire-IsMutex, try_acquire-IsEvent}
use ntsync_android.Satisfy.{Target, acquire_at}
use ntsync_android.Wait.{waitable}
use ntsync_android.Wait.Poll.{IsTyped, waitable-typed}
use ntsync_android.Spec.{Table, Object, a_sem, a_mutex, an_event}
use ntsync_android.Spec.View.{view, object_of, view-some}
use ntsync_android.Spec.Changes.{IsSound, IsSound-Writes, Writes, view-Writes}
use ntsync_android.Spec.Ages.{AllAges, Writes-Ages}
use ntsync_android.Spec.Kinds.{sem_kind, mutex_kind, event_kind}
use ntsync_android.Spec.Handles.{set_slot-Writes}
use ntsync_android.Spec.Polls.{take_spec, take_at}

-- A target of a wait that names an object, and was made when the object had its pulses.
pub record IsReady (r : Region) (t : Target) : Type 0 where
  pub named : slot r t.handle ≡ some (index_of t.handle)
  pub kind : waitable (r.slots (index_of t.handle)).obj_type ≡ true
  pub pulses :
      (r.slots (index_of t.handle)).obj_type ≡ type_event
      → t.entry_seq ≡ (r.slots (index_of t.handle)).d

-- What the attempt on one slot does to an object.
record Grants (owner : ℕ) (s : Slot) (seq : ℕ) : Type 0 where
  object : Object
  before : object_of s.obj_type s.w0 ≡ some object
  after :
      object_of s.obj_type (try_acquire [] s.obj_type s.w0 s.d owner seq).0
      ≡ some (take_spec owner object).1
  got : (try_acquire [] s.obj_type s.w0 s.d owner seq).1 ≡ (take_spec owner object).0
  kept : IsTyped (record s { w0 = (try_acquire [] s.obj_type s.w0 s.d owner seq).0 })

module _ (owner : ℕ) (pos_owner : 0 < owner) (fits : owner < 2 ^ 32) (s : Slot) (seq : ℕ) where
  sem-Grants : IsTyped s → s.obj_type ≡ type_sem → Grants owner s seq
  unfolding take_spec
  sem-Grants v e =
      let (keeps, got, object) = try_acquire-IsSem s.d owner seq s.w0 (v.sem e) in
      record {
        object = a_sem (sem_of s.w0);
        before = rw e (sem_kind.reads s.w0);
        after = rw e (sem_kind.reads _ ∙ ap (λ (o : Sem). some (a_sem o)) object);
        got = rw e got;
        kept = sem_kind.keeps s _ e (rw e keeps);
      }

  mutex-Grants : IsTyped s → s.obj_type ≡ type_mutex → Grants owner s seq
  unfolding take_spec
  mutex-Grants v e =
      let (keeps, got, object) =
        try_acquire-IsMutex s.d owner seq s.w0 pos_owner fits (v.mutex e) in
      record {
        object = a_mutex (mutex_of s.w0);
        before = rw e (mutex_kind.reads s.w0);
        after = rw e (mutex_kind.reads _ ∙ ap (λ (o : Mutex). some (a_mutex o)) object);
        got = rw e got;
        kept = mutex_kind.keeps s _ e (rw e keeps);
      }

  event-Grants : IsTyped s → s.obj_type ≡ type_event → seq ≡ s.d → Grants owner s seq
  unfolding take_spec
  event-Grants v e d =
      let (keeps, got, object) = try_acquire-IsEvent s.d owner seq s.w0 (v.event e) in
      let calm : not (s.d == seq) ≡ false = ground arith in
      record {
        object = an_event (event_of s.w0);
        before = rw e (event_kind.reads s.w0);
        after =
            rw e (event_kind.reads _ ∙ ap (λ (o : Event). some (an_event o)) (rw calm at object));
        got = rw e (rw calm at got);
        kept = event_kind.keeps s _ e (rw e keeps);
      }

  slot-Grants :
      IsTyped s
      → waitable s.obj_type ≡ true
      → (s.obj_type ≡ type_event → seq ≡ s.d)
      → Grants owner s seq
  slot-Grants v known d = elim (waitable-typed s.obj_type known) [
    | inl e ↦ sem-Grants v e
    | inr (inl e) ↦ mutex-Grants v e
    | inr (inr e) ↦ event-Grants v e (d e)
  ]

-- What it does to the region and to the table.
pub record Takes (n : ℕ) (r : Region) (owner : ℕ) (t : Target) : Type 0 where
  pub got : (acquire_at r owner t).0 ≡ (take_at (view r) owner t.handle).0
  pub table : view (acquire_at r owner t).1 ≡ (take_at (view r) owner t.handle).1
  pub sound : IsSound n (acquire_at r owner t).1
  pub aged : AllAges r (acquire_at r owner t).1

pub acquire_at-Takes :
    (n : ℕ) (r : Region) (owner : ℕ) (t : Target)
    → IsSound n r
    → 0 < owner
    → owner < 2 ^ 32
    → IsReady r t
    → Takes n r owner t
unfolding acquire_at
acquire_at-Takes n r owner t v h k ready =
    let i = index_of t.handle in
    let s = r.slots i in
    let g = slot-Grants owner h k s t.entry_seq (v.typed i) ready.kind ready.pulses in
    let out = try_acquire [] s.obj_type s.w0 s.d owner t.entry_seq in
    let s' : Slot = record s { w0 = out.0 } in
    let c : Writes r (set_slot r i s') i out.0 =
      set_slot-Writes r i s'
        (record { state = refl; generation = refl; obj_type = refl; w0 = refl; pid = refl }) in
    let seen : view r t.handle ≡ some g.object = view-some r t.handle ready.named ∙ g.before in
    let spec = take_spec owner g.object in
    let taken : take_at (view r) owner t.handle ≡ (spec.0, update (view r) t.handle (some spec.1)) =
      rw (seen, take_at) refl in
    record {
      got = g.got ∙ ap (λ (x : Option Bool × Table). x.0) (sym taken);
      table = fun_ext (λ k.
          view-Writes r (set_slot r i s') t.handle out.0 ready.named c k
          ∙ (rw (taken, g.after) refl));
      sound = IsSound-Writes n r (set_slot r i s') v n i out.0 (omega arith) c g.kept;
      aged = Writes-Ages r (set_slot r i s') i out.0 c;
    }
