-- ===== src/Wait/Poll.antt =====
-- What an attempt to wait without the lock (src/core.rs, lines 1481-1535) does for the objects that its
-- handles name.
use ntsync_android.Base.{
  ℕ, ◌^◌, ◌≤◌, ◌<◌, ◌≡◌, ◌≢◌, refl, sym, ◌∙◌, ap, Bool, true, false, Option, none, some, List, [],
  ◌∷◌, ◌⊎◌, inl, inr, arith, Bool-cases, Option-cases, ◌==◌, contains, length, map,
}
use ntsync_android.Region.{
  Region, Slot, Env, WaitOutcome, slot, index_of, generation_of, type_sem, type_mutex, type_event,
  max_wait_count,
}
use ntsync_android.Region.Handle.{slot-some}
use ntsync_android.Object.State.{IsSem, IsMutex, IsEvent}
use ntsync_android.Satisfy.{Target, try_satisfy}
use ntsync_android.Satisfy.All.{IsSound}
use ntsync_android.Satisfy.Wait.{AllOf, AllSound, Apart, try_satisfy-AllOf}
use ntsync_android.Wait.{
  waitable, fast_target, fast_targets, has_duplicate, alert_valid, alert_signaled, or_timeout,
  fast_path, wait_entry,
}

-- The word of a slot is one of the type of its object.
pub record IsTyped (s : Slot) : Type 0 where
  pub sem : s.obj_type ≡ type_sem → IsSem s.w0
  pub mutex : s.obj_type ≡ type_mutex → IsMutex s.w0
  pub event : s.obj_type ≡ type_event → IsEvent s.w0

pub waitable-typed :
    (t : ℕ) → waitable t ≡ true → (t ≡ type_sem) ⊎ ((t ≡ type_mutex) ⊎ (t ≡ type_event))
waitable-typed t h = ground arith

module _ (r : Region) where
  -- A target that a handle gives names the handle, and its slot is found sound.
  fast_target-IsSound :
      (h : ℕ) {t : Target}
      → fast_target r h ≡ some t
      → ((i : ℕ) → IsTyped (r.slots i))
      → (t.handle ≡ h)
        × ((r.slots (index_of h)).generation ≡ generation_of h)
        × IsSound (r.slots (index_of h)) t.entry_seq
  unfolding fast_target
  fast_target-IsSound h {t} e typed = elim (Option-cases (slot r h)) [
    | inl f ↦ absurd (ground arith)
    | inr (i, f) ↦
        let (at, _, gen) = slot-some r h f in
        elim (Bool-cases (waitable (r.slots i).obj_type)) [
          | inr other ↦ absurd (ground arith)
          | inl ok ↦
              let v = typed (index_of h) in
              let kind = waitable-typed (r.slots (index_of h)).obj_type (rw at at ok) in
              (
                ground arith,
                rw at at gen,
                record {
                  typed = kind;
                  sem = v.sem;
                  mutex = v.mutex;
                  event = v.event;
                  unpulsed = λ is_event. inl (ground arith);
                },
              )
        ]
  ]

  -- The handles `seen` have the generations of their slots.
  abbrev Current : List ℕ → Type 0
  Current [] = Unit
  Current (s ∷ seen) = ((r.slots (index_of s)).generation ≡ generation_of s) × Current seen

  -- Two current handles of the same slot are the same.
  Current-contains :
      (seen : List ℕ) (h : ℕ)
      → Current seen
      → (r.slots (index_of h)).generation ≡ generation_of h
      → contains seen h ≡ false
      → contains (map index_of seen) (index_of h) ≡ false
  Current-contains [] h c g out = refl
  Current-contains (s ∷ seen) h c g out =
      let rest = Current-contains seen h c.1 g (ground arith) in
      let ne : s ≢ h = ground arith in
      elim (Bool-cases (index_of s == index_of h)) [
        | inr apart ↦ rw apart rest
        | inl same ↦
            let e : index_of s ≡ index_of h = ground arith in
            let k : generation_of s ≡ generation_of h =
              sym c.0 ∙ ap (λ i. (r.slots i).generation) e ∙ g in
            absurd (ne (omega (arith, e, k)))
      ]

  pub fast_targets-AllSound :
      (hs seen : List ℕ) {ts : List Target}
      → fast_targets r hs ≡ some ts
      → has_duplicate seen hs ≡ false
      → Current seen
      → ((i : ℕ) → IsTyped (r.slots i))
      → AllSound r ts × Apart (map index_of seen) ts
  unfolding fast_targets has_duplicate
  fast_targets-AllSound [] seen {ts} e d c typed = let k : ts ≡ [] = ground arith in rw k (tt, tt)
  fast_targets-AllSound (h ∷ hs) seen {ts} e d c typed = elim (Option-cases (fast_target r h)) [
    | inl f ↦ absurd (ground arith)
    | inr (t, f) ↦ elim (Option-cases (fast_targets r hs)) [
      | inl g ↦ absurd (ground arith)
      | inr (us, g) ↦
          let k : ts ≡ t ∷ us = ground arith in
          let (named, gen, sound) = fast_target-IsSound h f typed in
          let (sounds, apart) =
            fast_targets-AllSound hs (h ∷ seen) g (ground arith) (gen, c) typed in
          let out = Current-contains seen h c gen (ground arith) in
          rw (k, named) ((sound, sounds), (out, apart))
    ]
  ]

  module _ (env : Env) (handles : List ℕ) (owner : ℕ) (ts : List Target) (poll : Bool) where
    -- With good arguments, the attempt decides.
    pub entry-satisfy :
        (all : Bool)
        → env.region_error ≡ none
        → 0 < owner
        → 0 < length handles
        → length handles ≤ max_wait_count
        → has_duplicate [] handles ≡ false
        → fast_targets r handles ≡ some ts
        → wait_entry [] env r handles owner poll all 0
          ≡ (or_timeout poll (try_satisfy [] r owner ts all).0, (try_satisfy [] r owner ts all).1)
    unfolding wait_entry fast_path alert_valid alert_signaled
    entry-satisfy all opened pos some_handle few apart found = ground arith

    -- A wait for all of up to 64 different handles of objects, by an owner that is not 0 and below
    -- 2 ^ 32, without an alert and with no other thread in between, in a region that opens and where the
    -- word of every slot is one of its type: its attempt without the lock either acquires every object,
    -- leaves every other slot alone and reports whether one was abandoned; or, some object being busy,
    -- leaves every slot as it was, and a poll reports the timeout while another wait goes on to block.
    pub wait_entry-AllOf :
        env.region_error ≡ none
        → 0 < owner
        → owner < 2 ^ 32
        → 0 < length handles
        → length handles ≤ max_wait_count
        → has_duplicate [] handles ≡ false
        → fast_targets r handles ≡ some ts
        → ((i : ℕ) → IsTyped (r.slots i))
        → (out : Option WaitOutcome) × AllOf r r owner [] false ts out
            (wait_entry [] env r handles owner poll true 0).1
          × ((wait_entry [] env r handles owner poll true 0).0 ≡ or_timeout poll out)
    wait_entry-AllOf opened pos fits some_handle few apart found typed =
        let e = entry-satisfy true opened pos some_handle few apart found in
        let (sound, places) = fast_targets-AllSound handles [] found apart tt typed in
        rw e
          ((try_satisfy [] r owner ts true).0, try_satisfy-AllOf r owner ts fits places sound, refl)
