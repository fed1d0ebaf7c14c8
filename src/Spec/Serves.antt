-- ===== src/Spec/Serves.antt =====
-- One request to src/core.rs (lines 767-1087 and 2321-2329) against the table.
use ntsync_android.Base.{
  ℕ, ◌+◌, ◌^◌, ◌<◌, ◌≡◌, refl, ◌∙◌, Bool, false, ltb, none, arith, Bool-cases, Option-cases, inl,
  inr, ap, Option, List,
}
use ntsync_android.Word.{pack_sem, pack_mutex, pack_event}
use ntsync_android.Region.{
  WaitOutcome, Region, Env, Error, Result, ok, err, type_sem, type_mutex, type_event,
}
use ntsync_android.Sweep.{sweep_dead_locked}
use ntsync_android.Slot.{create, create_semaphore, create_mutex, create_event, sweep_dead}
use ntsync_android.Spec.{Table, a_sem, a_mutex, an_event, Answer, waited}
use ntsync_android.Spec.View.{view}
use ntsync_android.Spec.Changes.{IsSound, IsSound-later}
use ntsync_android.Spec.Ages.{AllAges, IsNext, Ages-refl}
use ntsync_android.Spec.Calls.{IsQuiet}
use ntsync_android.Spec.Refines.{serve_call-Agrees}
use ntsync_android.Spec.Reaps.{Reaps-Loses, Reaps-IsSound, Reaps-Ages, sweep_dead_locked-Reaps}
use ntsync_android.Spec.Creates.{create-Makes}
use ntsync_android.Spec.Requests.{
  Request, on, creates_sem, creates_mutex, creates_event, sweeps, polls, Fits, serve, new_mutex,
  Creates, Allowed,
}
use ntsync_android.Block.Asleep.{Thread, Turned}
use ntsync_android.Block.Whole.{Meets}
use ntsync_android.Spec.Waits.{or_invalid, wait-attempted}
use ntsync_android.Spec.Polled.{wait_entry-Attempted}
use ntsync_android.Spec.Words.{
  pack_sem-IsSem, pack_mutex-IsMutex, pack_event-IsEvent, IsTyped-sem, IsTyped-mutex, IsTyped-event,
  pack_sem-reads, pack_mutex-reads, pack_event-reads,
}

-- What one request returns and leaves.
pub record IsServed (n : ℕ) (r : Region) (c : Request) (out : Result Answer × Region) : Type 0 where
  pub allowed : Allowed (view r) c out.0 (view out.1)
  pub sound : IsSound (n + 1) out.1
  pub aged : AllAges r out.1

module _ (env : Env) (quiet : IsQuiet env) (n : ℕ) (r : Region) (v : IsSound n r)
    (young : n + 1 < 2 ^ 18) where
  refused-Creates : Creates (view r) none (err Error.invalid) (view r) × IsNext (n + 1) r r
  refused-Creates = ((refl, λ k. refl), (IsSound-later n r v, λ i. Ages-refl (r.slots i)))

  creates_sem-IsServed :
      (count max : ℕ)
      → Fits (creates_sem count max)
      → IsServed n r (creates_sem count max) (serve env (creates_sem count max) r)
  unfolding create_semaphore
  creates_sem-IsServed count max (hc, hm) = elim (Bool-cases (ltb max count)) [
    | inl over ↦
        let (a, (s, g)) = refused-Creates in
        rw over (record { allowed = rw over a; sound = s; aged = g })
    | inr within ↦
        let w = pack_sem count max in
        let kept = IsTyped-sem w (pack_sem-IsSem count max (ground arith) hm) in
        let (a, (s, g)) =
          create-Makes env quiet n r v young type_sem w
            (a_sem (record { count = count; max = max })) refl (pack_sem-reads count max hc hm)
            kept in
        rw within (record { allowed = rw within a; sound = s; aged = g })
  ]

  creates_mutex-IsServed :
      (owner count : ℕ)
      → Fits (creates_mutex owner count)
      → IsServed n r (creates_mutex owner count) (serve env (creates_mutex owner count) r)
  unfolding create_mutex
  creates_mutex-IsServed owner count ho = elim (Option-cases (new_mutex owner count)) [
    | inl e ↦
        let (a, (s, g)) = refused-Creates in
        let same : create_mutex env owner count r ≡ (err Error.invalid, r) = ground arith in
        record { allowed = rw (e, same) a; sound = rw same s; aged = rw same g }
    | inr (o, e) ↦
        let w = pack_mutex owner count false in
        let small : count < 2 ^ 31 = ground arith in
        let is : o ≡ a_mutex (record { owner = owner; count = count; abandoned = false }) =
          ground arith in
        let same : create_mutex env owner count r ≡ create env type_mutex w r = ground arith in
        let kept =
          IsTyped-mutex w
            (pack_mutex-IsMutex owner count ho small (λ z. ground arith) (λ z. ground arith)) in
        let (a, (s, g)) =
          create-Makes env quiet n r v young type_mutex w o refl
            (pack_mutex-reads owner count ho small ∙ (rw is refl)) kept in
        record { allowed = rw (e, same) a; sound = rw same s; aged = rw same g }
  ]

  creates_event-IsServed :
      (manual signaled : Bool)
      → IsServed n r (creates_event manual signaled) (serve env (creates_event manual signaled) r)
  unfolding create_event
  creates_event-IsServed manual signaled =
      let w = pack_event signaled manual in
      let kept = IsTyped-event w (pack_event-IsEvent manual signaled) in
      let (a, (s, g)) =
        create-Makes env quiet n r v young type_event w
          (an_event (record { manual = manual; signaled = signaled })) refl
          (pack_event-reads manual signaled) kept in
      record { allowed = a; sound = s; aged = g }

  sweeps-IsServed : IsServed n r sweeps (serve env sweeps r)
  unfolding sweep_dead
  sweeps-IsServed =
      let out = sweep_dead_locked env.probe r in
      let same : sweep_dead env r ≡ (ok out.1, out.0) =
        ground (arith, quiet.opened, quiet.locked) in
      let reaps = sweep_dead_locked-Reaps env.probe r in
      rw (same, sweep_dead)
        (record {
          allowed = ((out.1, refl), Reaps-Loses r out.0 reaps);
          sound = Reaps-IsSound n r out.0 reaps v;
          aged = Reaps-Ages n r out.0 reaps v (omega (arith, young));
        })

  polls-IsServed :
      (all : Bool) (owner : ℕ) (handles : List ℕ) (m : Meets) (th : Thread)
      → Fits (polls all owner handles m th)
      → IsServed n r (polls all owner handles m th) (serve env (polls all owner handles m th) r)
  polls-IsServed all owner handles m th (fits, none_acts, (t, turns, first, locks)) =
      let k = wait_entry-Attempted env quiet n r v all owner fits handles in
      let whole = wait-attempted env r all owner handles m t turns th none_acts first locks in
      let answered = ap (λ (o : Turned × Thread × Region). ok (waited o.0)) whole in
      let left = ap (λ (o : Turned × Thread × Region). o.2) whole in
      record {
        allowed = (
          answered ∙ ap (λ (o : Option WaitOutcome). ok (waited (or_invalid o))) k.outcome,
          λ h. ap (λ (r' : Region). view r' h) left ∙ ap (λ (T : Table). T h) k.table,
        );
        sound = rw left (IsSound-later n _ k.sound);
        aged = rw left k.aged;
      }

  pub serve-IsServed : (c : Request) → Fits c → IsServed n r c (serve env c r)
  serve-IsServed (on handle c) f =
      let k = serve_call-Agrees env quiet n r v (omega (arith, young)) handle c in
      record { allowed = (k.answers, k.table); sound = k.sound; aged = k.aged }
  serve-IsServed (creates_sem count max) f = creates_sem-IsServed count max f
  serve-IsServed (creates_mutex owner count) f = creates_mutex-IsServed owner count f
  serve-IsServed (creates_event manual signaled) f = creates_event-IsServed manual signaled
  serve-IsServed sweeps f = sweeps-IsServed
  serve-IsServed (polls all owner handles m th) f = polls-IsServed all owner handles m th f
