-- ===== src/Block/Signaled.antt =====
-- The signal operations (src/core.rs, lines 591-604 and 924-1062) against a blocked wait (lines 1640-1658 and
-- 1776): a signal between the sample of the futex word and the futex call is not lost.
use ntsync_android.Base.{
  ℕ, ◌≤◌, ◌≡◌, ◌≢◌, refl, sym, ◌∙◌, ap, true, none, List, arith, length, Option-cases, inl, inr,
}
use ntsync_android.Cas.{Attempt, atomic, cas_loop}
use ntsync_android.Cas.Linear.{after, cas_loop-atomic}
use ntsync_android.Region.{Region, Slot, Env, ok, slot, index_of, set_slot, nil}
use ntsync_android.Region.Handle.{slot-some}
use ntsync_android.Object.{
  Reply, sem_release_round, event_set_round, mutex_unlock_round, mutex_kill_round,
}
use ntsync_android.Waiter.{wake_object, wake_waiters_if_any}
use ntsync_android.Waiter.Wake.{Woke}
use ntsync_android.Signal.{
  lock_ok, signal, sem_release, event_set, mutex_unlock, mutex_kill, pulse, event_pulse,
}
use ntsync_android.Waiter.Seg.{Waiters}
use ntsync_android.Region.{node_count}
use ntsync_android.Slot.{close}
use ntsync_android.Slot.Close.{set_slot-Woke, close-Closed}

-- A call that signals the object of `handle` and succeeds: a release of a semaphore, the set of an event that
-- was not signaled, the last unlock or the kill of a mutex, a pulse; or its
-- close.
pub data Signals (env : Env) (handle : ℕ) (r r' : Region) : Type 0 where
  released :
      (count prev : ℕ) → sem_release env handle count r ≡ (ok prev, r') → Signals env handle r r'
  set : event_set env handle r ≡ (ok 0, r') → Signals env handle r r'
  freed : (owner : ℕ) → mutex_unlock env handle owner r ≡ (ok 1, r') → Signals env handle r r'
  killed : (owner : ℕ) → mutex_kill env handle owner r ≡ (ok tt, r') → Signals env handle r r'
  pulsed : (prev : ℕ) → event_pulse env handle r ≡ (ok prev, r') → Signals env handle r r'
  closed : close env handle r ≡ (true, r') → Signals env handle r r'

-- The waiters of the object are woken, whatever becomes of its words.
record Wakes (i : ℕ) (r r' : Region) : Type 0 where
  slot : Slot
  head : slot.waiter_head ≡ (r.slots i).waiter_head
  woken : r' ≡ wake_object (set_slot r i slot) i

if_any :
    (r : Region) (i : ℕ)
    → (r.slots i).waiter_head ≢ nil
    → wake_waiters_if_any true r i ≡ wake_object r i
unfolding wake_waiters_if_any
if_any r i some_one = ground (arith, some_one)

module _ (env : Env) (r : Region) where
  signal-Wakes :
      {A : Type 0} (i : ℕ) (round : ℕ → Attempt (Reply A)) (v : A) (r' : Region)
      → ((w : ℕ) → (atomic w (round w)).1.result ≡ ok v → (atomic w (round w)).1.wake ≡ true)
      → env.lock_error ≡ none
      → (r.slots i).waiter_head ≢ nil
      → signal env i round r ≡ (ok v, r')
      → Wakes i r r'
  unfolding signal
  signal-Wakes i round v r' wakes locked some_one e =
      let s = r.slots i in
      let (n, _, a) = cas_loop-atomic round env.interference s.w0 in
      let out = cas_loop round env.interference s.w0 in
      let got : out.1.result ≡ ok v = ap (λ x. x.0) e in
      let wake : out.1.wake ≡ true = rw a (wakes (after n env.interference s.w0) (rw a at got)) in
      let t : Slot = record s { w0 = out.0 } in
      let target = set_slot r i t in
      let head : (target.slots i).waiter_head ≢ nil = ground (arith, some_one) in
      let walked : wake_waiters_if_any (lock_ok env) target i ≡ wake_object target i =
        rw locked (if_any target i head) in
      record { slot = t; head = refl; woken = sym (ap (λ x. x.1) e) ∙ (rw wake walked) }

  module _ (handle : ℕ) where
    abbrev i : ℕ
    i = index_of handle

    sem_release-signaled :
        (count prev : ℕ) (r' : Region)
        → sem_release env handle count r ≡ (ok prev, r')
        → signal env i (sem_release_round count) r ≡ (ok prev, r')
    unfolding sem_release
    sem_release-signaled count prev r' e = elim (Option-cases (slot r handle)) [
      | inl f ↦ absurd (ground arith)
      | inr (j, f) ↦ let (at, _, _) = slot-some r handle f in ground arith
    ]

    event_set-signaled :
        (prev : ℕ) (r' : Region)
        → event_set env handle r ≡ (ok prev, r')
        → signal env i event_set_round r ≡ (ok prev, r')
    unfolding event_set
    event_set-signaled prev r' e = elim (Option-cases (slot r handle)) [
      | inl f ↦ absurd (ground arith)
      | inr (j, f) ↦ let (at, _, _) = slot-some r handle f in ground arith
    ]

    mutex_unlock-signaled :
        (owner prev : ℕ) (r' : Region)
        → mutex_unlock env handle owner r ≡ (ok prev, r')
        → signal env i (mutex_unlock_round owner) r ≡ (ok prev, r')
    unfolding mutex_unlock
    mutex_unlock-signaled owner prev r' e = elim (Option-cases (slot r handle)) [
      | inl f ↦ absurd (ground arith)
      | inr (j, f) ↦ let (at, _, _) = slot-some r handle f in ground arith
    ]

    mutex_kill-signaled :
        (owner : ℕ) (r' : Region)
        → mutex_kill env handle owner r ≡ (ok tt, r')
        → signal env i (mutex_kill_round owner) r ≡ (ok tt, r')
    unfolding mutex_kill
    mutex_kill-signaled owner r' e = elim (Option-cases (slot r handle)) [
      | inl f ↦ absurd (ground arith)
      | inr (j, f) ↦ let (at, _, _) = slot-some r handle f in ground arith
    ]

    event_pulse-pulsed :
        (prev : ℕ) (r' : Region)
        → event_pulse env handle r ≡ (ok prev, r')
        → pulse env i r ≡ (ok prev, r')
    unfolding event_pulse
    event_pulse-pulsed prev r' e = elim (Option-cases (slot r handle)) [
      | inl f ↦ absurd (ground arith)
      | inr (j, f) ↦ let (at, _, _) = slot-some r handle f in ground arith
    ]

    pulse-Wakes : (prev : ℕ) (r' : Region) → pulse env i r ≡ (ok prev, r') → Wakes i r r'
    unfolding pulse
    pulse-Wakes prev r' e = record { slot = _; head = refl; woken = sym (ap (λ x. x.1) e) }

    Wakes-Woke :
        (r' : Region) (xs : List ℕ)
        → length xs ≤ node_count
        → Waiters r i xs
        → Wakes i r r'
        → Woke i xs r r'
    Wakes-Woke r' xs few w k = rw k.woken (set_slot-Woke r i k.slot xs k.head few w)

    -- A signal of an object with waiters wakes them.
    pub Signals-Woke :
        (r' : Region) (xs : List ℕ)
        → env.lock_error ≡ none
        → (r.slots i).waiter_head ≢ nil
        → length xs ≤ node_count
        → Waiters r i xs
        → Signals env handle r r'
        → Woke i xs r r'
    unfolding sem_release_round event_set_round mutex_unlock_round mutex_kill_round
    Signals-Woke r' xs locked head few w (released count prev e) = Wakes-Woke r' xs few w (
        signal-Wakes i (sem_release_round count) prev r' (λ w k. ground arith) locked head
          (sem_release-signaled count prev r' e))
    Signals-Woke r' xs locked head few w (set e) = Wakes-Woke r' xs few w (
        signal-Wakes i event_set_round 0 r' (λ w k. ground arith) locked head
          (event_set-signaled 0 r' e))
    Signals-Woke r' xs locked head few w (freed owner e) = Wakes-Woke r' xs few w (
        signal-Wakes i (mutex_unlock_round owner) 1 r' (λ w k. ground arith) locked head
          (mutex_unlock-signaled owner 1 r' e))
    Signals-Woke r' xs locked head few w (killed owner e) = Wakes-Woke r' xs few w (
        signal-Wakes i (mutex_kill_round owner) tt r' (λ w k. ground arith) locked head
          (mutex_kill-signaled owner r' e))
    Signals-Woke r' xs locked head few w (pulsed prev e) =
        Wakes-Woke r' xs few w (pulse-Wakes prev r' (event_pulse-pulsed prev r' e))
    Signals-Woke r' xs locked head few w (closed e) = (close-Closed env r handle xs few w e).woke
