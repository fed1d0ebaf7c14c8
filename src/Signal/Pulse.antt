-- ===== src/Signal/Pulse.antt =====
-- `event_pulse` of src/core.rs (lines 987-1004).
use ntsync_android.Base.{
  ℕ, ◌+◌, ◌-◌, ◌%◌, ◌^◌, ◌≤◌, ◌<◌, ◌≡◌, ◌≢◌, refl, true, none, List, [], ◌∷◌, length, arith,
}
use ntsync_android.Word.{lo, hi, clear_low}
use ntsync_android.Region.{Region, Slot, Env, ok, index_of, type_event, node_count, set_slot}
use ntsync_android.Object.{is_locked}
use ntsync_android.Object.State.{IsEvent}
use ntsync_android.Object.Linear.{AllKeep}
use ntsync_android.Waiter.Seg.{Waiters}
use ntsync_android.Waiter.Slots.{wake_object-SameObject}
use ntsync_android.Waiter.Wake.{Woke}
use ntsync_android.Slot.Close.{set_slot-Woke}
use ntsync_android.Signal.{event_pulse, pulse, reload}
use ntsync_android.Signal.Effect.{Names}

-- What a pulse of the event at `i`, found with the word `w`, leaves.
pub record Pulsed (env : Env) (r r' : Region) (i : ℕ) (xs : List ℕ) : Type 0 where
  pub word : IsEvent (r'.slots i).w0
  pub unsignaled : lo (r'.slots i).w0 ≡ 0
  pub mode : hi (r'.slots i).w0 ≡ hi (reload env.interference (r.slots i).w0)
  -- One more pulse is counted, modulo 2^64.
  pub counted : (r'.slots i).d ≡ ((r.slots i).d + 1) % 2 ^ 64
  -- A wait that began `earlier` pulses before this one has taken the count of that time as its sequence
  -- number.
  pub satisfied :
      (owner earlier seq : ℕ)
      → earlier + 1 < 2 ^ 64
      → seq ≡ ((r.slots i).d + 2 ^ 64 - earlier) % 2 ^ 64
      → is_locked type_event (r'.slots i).w0 (r'.slots i).d owner seq ≡ true
  pub woke : Woke i xs r r'

-- The count of fewer than 2^64 - 1 pulses ago is not the next one.
counted-ne :
    (d earlier seq : ℕ)
    → d < 2 ^ 64
    → earlier + 1 < 2 ^ 64
    → seq ≡ (d + 2 ^ 64 - earlier) % 2 ^ 64
    → seq ≢ (d + 1) % 2 ^ 64
counted-ne d earlier seq fits few e = omega arith

reload-IsEvent :
    (fs : List (ℕ → ℕ)) (w : ℕ) → AllKeep IsEvent fs → IsEvent w → IsEvent (reload fs w)
reload-IsEvent [] w k v = v
reload-IsEvent (f ∷ fs) w k v = k.0 w v

module _ (env : Env) (r : Region) where
  pulse-Pulsed :
      (i : ℕ) (xs : List ℕ)
      → AllKeep IsEvent env.interference
      → IsEvent (r.slots i).w0
      → (r.slots i).d < 2 ^ 64
      → length xs ≤ node_count
      → Waiters r i xs
      → Pulsed env r (pulse env i r).1 i xs
  unfolding pulse is_locked clear_low
  pulse-Pulsed i xs keep v fits few w =
      let s = r.slots i in
      let s' : Slot = record s {
        w0 = clear_low (reload env.interference s.w0);
        d = (s.d + 1) % 2 ^ 64;
      } in
      let same = wake_object-SameObject (set_slot r i s') i i in
      let e = reload-IsEvent env.interference s.w0 keep v in
      record {
        word = ground (arith, same.w0);
        unsignaled = ground (arith, same.w0);
        mode = ground (arith, same.w0);
        counted = ground (arith, same.d);
        satisfied = λ owner earlier seq few_pulses e.
            let ne : seq ≢ (s.d + 1) % 2 ^ 64 = counted-ne s.d earlier seq fits few_pulses e in
            ground (arith, same.w0, same.d, ne);
        woke = set_slot-Woke r i s' xs refl few w;
      }

  pulse-returns : (i : ℕ) → (pulse env i r).0 ≡ ok (lo (r.slots i).w0)
  unfolding pulse
  pulse-returns i = refl

  -- A pulse of an event with the waiters `xs`, under interference that keeps the word an event's and
  -- with a region that opens and locks, returns whether the event was signaled; the event is left
  -- unsignaled in its mode with one more pulse counted, modulo 2^64; a wait that took its sequence number
  -- fewer than 2^64 - 1 pulses before this one would find the event satisfied; and every waiter is
  -- detached and woken.
  pub event_pulse-Pulsed :
      (handle : ℕ) (xs : List ℕ)
      → Names env r handle type_event
      → env.lock_error ≡ none
      → AllKeep IsEvent env.interference
      → IsEvent (r.slots (index_of handle)).w0
      → (r.slots (index_of handle)).d < 2 ^ 64
      → length xs ≤ node_count
      → Waiters r (index_of handle) xs
      → ((event_pulse env handle r).0 ≡ ok (lo (r.slots (index_of handle)).w0))
        × Pulsed env r (event_pulse env handle r).1 (index_of handle) xs
  unfolding event_pulse
  event_pulse-Pulsed handle xs n locked keep v fits few w =
      let runs : event_pulse env handle r ≡ pulse env (index_of handle) r = ground arith in
      rw runs (pulse-returns (index_of handle), pulse-Pulsed (index_of handle) xs keep v fits few w)
