-- ===== src/Spec/Reads.antt =====
-- The reads of src/core.rs (lines 1064-1087) report the objects of the table.
use ntsync_android.Base.{
  ℕ, ◌≡◌, ◌≢◌, refl, sym, ◌∙◌, not, none, some, arith, ◌==◌, Option-cases, Bool-cases, inl, inr,
  ==→eq, ◌/◌, ◌^◌,
}
use ntsync_android.Word.{lo, hi, mutex_count, mutex_dead}
use ntsync_android.Region.{Region, Env, Error, ok, err, Op, slot, ◌>>=◌, ◌>>◌, region, find}
use ntsync_android.Signal.{read_sem, read_mutex, read_event}
use ntsync_android.Spec.{
  Answer, contents, Outcome, answer_with, at_handle, reads_sem, reads_mutex, reads_event, call_spec,
}
use ntsync_android.Spec.View.{view, view-some, view-none}
use ntsync_android.Spec.Changes.{IsSound}
use ntsync_android.Spec.Calls.{
  IsQuiet, Agrees, Serves, sem_contents, mutex_contents, event_contents,
}
use ntsync_android.Spec.Kinds.{Kind, sem_kind, mutex_kind, event_kind}
use ntsync_android.Spec.Agree.{refused-Agrees, same-Agrees}

-- What every read is.
abbrev read_call : {A : Type 0} → Env → (t h : ℕ) → (ℕ → A) → Op A
read_call env t h get = do region env; i ← find t h; λ r. (ok (get (r.slots i).w0), r)

module _ {A : Type 0} (env : Env) (t h : ℕ) (get : ℕ → A) (r : Region)
    (opened : env.region_error ≡ none) where
  read_call-found :
      (i : ℕ)
      → slot r h ≡ some i
      → (r.slots i).obj_type ≡ t
      → read_call env t h get r ≡ (ok (get (r.slots i).w0), r)
  read_call-found i e k = ground arith

  read_call-other :
      (i : ℕ)
      → slot r h ≡ some i
      → (r.slots i).obj_type ≢ t
      → read_call env t h get r ≡ (err Error.invalid, r)
  read_call-other i e k = ground arith

  read_call-none : slot r h ≡ none → read_call env t h get r ≡ (err Error.invalid, r)
  read_call-none e = ground arith

module _ (env : Env) (quiet : IsQuiet env) (n : ℕ) (r : Region) (v : IsSound n r) (h : ℕ) where
  read-Agrees :
      {A O : Type 0} (k : Kind O) (get : ℕ → A) (g : A → Answer)
      → ((w : ℕ) → k.Ok w → g (get w) ≡ contents (k.con (k.of w)))
      → Agrees n r
          (answer_with g (read_call env k.number h get r).0)
          (read_call env k.number h get r).1
          (at_handle (view r) h (k.on (λ o. (ok (contents (k.con o)), some (k.con o)))))
  read-Agrees {A} {O} k get g same =
      let own : O → Outcome = λ o. (ok (contents (k.con o)), some (k.con o)) in
      elim (Option-cases (slot r h)) [
        | inl e ↦ rw (read_call-none env k.number h get r quiet.opened e) (
            refused-Agrees env quiet n r v h (k.on own)
              (λ o seen. absurd (ground (arith, seen, view-none r h e))))
        | inr (i, e) ↦ elim (Bool-cases ((r.slots i).obj_type == k.number)) [
          | inl typed ↦
              let t = ==→eq (r.slots i).obj_type k.number typed in
              let w = (r.slots i).w0 in
              let seen : view r h ≡ some (k.con (k.of w)) = view-some r h e ∙ (rw t (k.reads w)) in
              rw
                (
                  read_call-found env k.number h get r quiet.opened i e t,
                  same w (k.typed (r.slots i) (v.typed i) t),
                )
                (same-Agrees env quiet n r v h (k.on own) (k.con (k.of w))
                  (ok (contents (k.con (k.of w)))) seen (k.on_own own (k.of w)))
          | inr other ↦ rw (read_call-other env k.number h get r quiet.opened i e (ground arith)) (
              refused-Agrees env quiet n r v h (k.on own) (λ o seen.
                k.on_other own (r.slots i).obj_type (r.slots i).w0 o (ground arith)
                  (sym (view-some r h e) ∙ seen)))
        ]
      ]

  pub reads_sem-Serves : Serves env n r h reads_sem
  unfolding read_sem call_spec
  reads_sem-Serves = read-Agrees sem_kind (λ w. (lo w, hi w)) sem_contents (λ w k. refl)

  pub reads_mutex-Serves : Serves env n r h reads_mutex
  unfolding read_mutex call_spec
  reads_mutex-Serves =
      read-Agrees mutex_kind (λ w. (mutex_count w, lo w, mutex_dead w)) mutex_contents (λ w k. refl)

  pub reads_event-Serves : Serves env n r h reads_event
  unfolding read_event call_spec
  reads_event-Serves =
      read-Agrees event_kind (λ w. (not (w / 2 ^ 32 == 0), not (lo w == 0))) event_contents
        (λ w k. let e : hi w ≡ w / 2 ^ 32 = omega (arith, k.fits) in rw e refl)
