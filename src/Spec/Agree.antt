-- ===== src/Spec/Agree.antt =====
-- A signal operation of src/core.rs (lines 924-1062) on an object of its type against the kernel's operation.
use ntsync_android.Base.{
  ◌+◌, ℕ, ◌≡◌, ◌≢◌, refl, sym, ◌∙◌, ap, Bool, true, false, Option, none, some, arith, ◌==◌,
  if◌then◌else◌, update, Option-cases, Bool-cases, inl, inr, ==→eq,
}
use ntsync_android.Cas.{Attempt, atomic, cas_loop}
use ntsync_android.Region.{
  ◌>>=◌, ◌>>◌, region, Region, Env, Error, Result, err, Op, slot, set_slot, find,
}
use ntsync_android.Object.{Reply}
use ntsync_android.Object.Refines.{Implements}
use ntsync_android.Waiter.{wake_waiters_if_any}
use ntsync_android.Waiter.Slots.{SameObject, SameObject-refl, wake_if_any-SameObject}
use ntsync_android.Signal.{lock_ok, signal}
use ntsync_android.Spec.{Table, refused, Object, Answer, Outcome, outcome, answer_with, at_handle}
use ntsync_android.Spec.View.{object_of, view, SameView-of_same, view-some, view-none}
use ntsync_android.Spec.Changes.{IsSound, IsSound-later, Writes, view-Writes, IsSound-Writes}
use ntsync_android.Spec.Calls.{IsQuiet, Agrees}
use ntsync_android.Spec.Ages.{Ages-refl, Writes-Ages}
use ntsync_android.Spec.Kinds.{Kind}

wake_if-SameObject :
    (b l : Bool) (r : Region) (i j : ℕ)
    → SameObject ((if b then wake_waiters_if_any l r i else r).slots j) (r.slots j)
wake_if-SameObject true l r i j = wake_if_any-SameObject l r i j
wake_if-SameObject false l r i j = SameObject-refl (r.slots j)

signal-Writes :
    {A : Type 0} (env : Env) (i : ℕ) (round : ℕ → Attempt (Reply A)) (r : Region)
    → Writes r (signal env i round r).1 i (cas_loop round env.interference (r.slots i).w0).0
unfolding signal
signal-Writes env i round r =
    let s = r.slots i in
    let out = cas_loop round env.interference s.w0 in
    let target = set_slot r i (record s { w0 = out.0 }) in
    let same = λ (j : ℕ). wake_if-SameObject out.1.wake (lock_ok env) target i j in
    let here = same i in
    record {
      state = here.state ∙ ground arith;
      generation = here.generation ∙ ground arith;
      obj_type = here.obj_type ∙ ground arith;
      word = here.w0 ∙ ground arith;
      pid = here.pid ∙ ground arith;
      others = λ j ne.
          let off : target.slots j ≡ r.slots j = ground arith in
          rw off at (SameView-of_same (same j));
    }

signal-result :
    {A : Type 0} (env : Env) (i : ℕ) (round : ℕ → Attempt (Reply A)) (r : Region)
    → (signal env i round r).0 ≡ (cas_loop round env.interference (r.slots i).w0).1.result
unfolding signal
signal-result env i round r = refl

pub at_handle-some :
    (T : Table) (h : ℕ) (f : Object → Outcome) {o : Object}
    → T h ≡ some o
    → at_handle T h f ≡ ((f o).0, update T h (f o).1)
at_handle-some T h f e = rw (e, at_handle) refl

pub at_handle-none :
    (T : Table) (h : ℕ) (f : Object → Outcome)
    → T h ≡ none
    → at_handle T h f ≡ (err Error.invalid, T)
at_handle-none T h f e = rw (e, at_handle) refl

pub update_same : (T : Table) (h k : ℕ) (o : Option Object) → T h ≡ o → T k ≡ update T h o k
update_same T h k o e = ground arith

-- What every signal operation is.
abbrev pub signal_call : {A : Type 0} → Env → (t h : ℕ) → (ℕ → Attempt (Reply A)) → Op A
signal_call env t h round = do region env; i ← find t h; signal env i round

module _ {A : Type 0} (env : Env) (t h : ℕ) (round : ℕ → Attempt (Reply A)) (r : Region)
    (opened : env.region_error ≡ none) where
  signal_call-found :
      (i : ℕ)
      → slot r h ≡ some i
      → (r.slots i).obj_type ≡ t
      → signal_call env t h round r ≡ signal env i round r
  signal_call-found i e k = ground arith

  signal_call-other :
      (i : ℕ)
      → slot r h ≡ some i
      → (r.slots i).obj_type ≢ t
      → signal_call env t h round r ≡ (err Error.invalid, r)
  signal_call-other i e k = ground arith

  signal_call-none : slot r h ≡ none → signal_call env t h round r ≡ (err Error.invalid, r)
  signal_call-none e = ground arith

module _ (env : Env) (quiet : IsQuiet env) (n : ℕ) (r : Region) (v : IsSound n r) (h : ℕ) where
  -- A call that finds no object of its type.
  pub refused-Agrees :
      (f : Object → Outcome)
      → ((o : Object) → view r h ≡ some o → f o ≡ refused o)
      → Agrees n r (err Error.invalid) r (at_handle (view r) h f)
  refused-Agrees f wrong = elim (Option-cases (view r h)) [
    | inl e ↦ rw (at_handle-none (view r) h f e) (record {
      answers = refl;
      table = λ k. refl;
      sound = IsSound-later n r v;
      aged = λ i. Ages-refl (r.slots i);
    })
    | inr (o, e) ↦
        rw (at_handle-some (view r) h f e, wrong o e)
          (record {
            answers = refl;
            table = λ k. update_same (view r) h k (some o) e;
            sound = IsSound-later n r v;
            aged = λ i. Ages-refl (r.slots i);
          })
  ]

  -- A call that leaves the region as it is.
  pub same-Agrees :
      (f : Object → Outcome) (o : Object) (a : Result Answer)
      → view r h ≡ some o
      → f o ≡ (a, some o)
      → Agrees n r a r (at_handle (view r) h f)
  same-Agrees f o a e g =
      rw (at_handle-some (view r) h f e, g)
        (record {
          answers = refl;
          table = λ k. update_same (view r) h k (some o) e;
          sound = IsSound-later n r v;
          aged = λ i. Ages-refl (r.slots i);
        })

  -- A signal operation on an object of its type.
  signal-Agrees :
      {A O : Type 0} (k : Kind O) (i : ℕ) (round : ℕ → Attempt (Reply A)) (spec : O → Result A × O)
      (g : A → Answer) (f : Object → Outcome)
      → slot r h ≡ some i
      → (r.slots i).obj_type ≡ k.number
      → Implements k.Ok k.of round spec
      → ((o : O) → f (k.con o) ≡ outcome g k.con (spec o))
      → Agrees n r
          (answer_with g (signal env i round r).0)
          (signal env i round r).1
          (at_handle (view r) h f)
  unfolding cas_loop
  signal-Agrees k i round spec g f found typed imp same =
      let w = (r.slots i).w0 in
      let out = cas_loop round env.interference w in
      let (kept, result, object) = imp w (k.typed (r.slots i) (v.typed i) typed) in
      let one : out ≡ atomic w (round w) = rw (quiet.alone, cas_loop) refl in
      let seen : view r h ≡ some (k.con (k.of w)) = view-some r h found ∙ (rw typed (k.reads w)) in
      let c = signal-Writes env i round r in
      let after : object_of (r.slots i).obj_type out.0 ≡ some (k.con (spec (k.of w)).1) =
        rw typed (k.reads out.0 ∙ (rw (one, object) refl)) in
      rw (at_handle-some (view r) h f seen, same (k.of w))
        (record {
          answers = ap (answer_with g) (signal-result env i round r ∙ (rw one result));
          table = λ j. view-Writes r _ h out.0 found c j ∙ (rw after refl);
          sound =
              IsSound-Writes n r _ v (n + 1) i out.0 (omega arith) c
                (k.keeps (r.slots i) out.0 typed (rw one kept));
          aged = Writes-Ages r _ i out.0 c;
        })

  -- The whole call: the lookup of the handle, and the loop.
  pub call-Agrees :
      {A O : Type 0} (k : Kind O) (round : ℕ → Attempt (Reply A)) (spec : O → Result A × O)
      (g : A → Answer)
      → Implements k.Ok k.of round spec
      → Agrees n r
          (answer_with g (signal_call env k.number h round r).0)
          (signal_call env k.number h round r).1
          (at_handle (view r) h (k.on (λ o. outcome g k.con (spec o))))
  call-Agrees k round spec g imp =
      let f = k.on (λ o. outcome g k.con (spec o)) in
      elim (Option-cases (slot r h)) [
        | inl e ↦
            rw (signal_call-none env k.number h round r quiet.opened e)
              (refused-Agrees f (λ o seen. absurd (ground (arith, seen, view-none r h e))))
        | inr (i, e) ↦ elim (Bool-cases ((r.slots i).obj_type == k.number)) [
          | inl typed ↦
              let same = ==→eq (r.slots i).obj_type k.number typed in
              rw (signal_call-found env k.number h round r quiet.opened i e same) (
                signal-Agrees k i round spec g f e same imp
                  (λ o. k.on_own (λ a. outcome g k.con (spec a)) o))
          | inr other ↦
              rw (signal_call-other env k.number h round r quiet.opened i e (ground arith)) (
                refused-Agrees f (λ o seen.
                  k.on_other (λ a. outcome g k.con (spec a)) (r.slots i).obj_type (r.slots i).w0 o
                    (ground arith) (sym (view-some r h e) ∙ seen)))
        ]
      ]
