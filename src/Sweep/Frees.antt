-- ===== src/Sweep/Frees.antt =====
-- What a sweep of src/core.rs (lines 1903-2065) does reap: the objects that nobody alive owns.
use ntsync_android.Base.{
  ℕ, zero, suc, ◌+◌, ◌/◌, ◌%◌, ◌^◌, ◌≡◌, ◌≢◌, refl, ◌∙◌, Bool, true, false, List, [], ◌∷◌, ◌++◌,
  map, length, arith, ◌==◌, Bool-cases, inl, inr, ◌⊎◌, ==→eq,
}
use ntsync_android.Region.{Region, Slot, set_slot, max_holders, slot_used, slot_free}
use ntsync_android.Waiter.Slots.{
  SameObject, SameObject-refl, SameObject-trans, wake_object-SameObject,
}
use ntsync_android.Sweep.{DeadCand, slot_cand, reap_one, reap_dead_locked, holders_eq, still_slot}
use ntsync_android.Sweep.Cache.{owned, owned_cand}
use ntsync_android.Sweep.Reap.{reap_one-other, reap_one-changed}

-- An object that a sweep has to free: nobody alive owns it, and its list of holders did not spill.
pub record IsDead (probe : ℕ → Bool) (s : Slot) : Type 0 where
  pub used : s.state ≡ slot_used
  pub created : s.pid ≢ 0
  pub unowned : owned probe s.pid s.holders_len s.holders ≡ false
  pub unspilled : s.holders_len / 2 ^ 31 % 2 ≡ 0

pub IsDead-of_same :
    (probe : ℕ → Bool) {s t : Slot} → SameObject s t → IsDead probe t → IsDead probe s
IsDead-of_same probe e d = record {
  used = e.state ∙ d.used;
  created = rw e.pid d.created;
  unowned = rw (e.pid, e.holders_len, e.holders) d.unowned;
  unspilled = rw e.holders_len d.unspilled;
}

holders_eq_self : (n : ℕ) (f : ℕ → ℕ) → holders_eq n f f ≡ true
unfolding holders_eq
holders_eq_self zero f = refl
holders_eq_self (suc n) f = ground (arith, holders_eq_self n f)

-- The candidate of a slot among those of a chunk.
abbrev pub Has : DeadCand → List DeadCand → Type 0
Has c [] = ⊥
Has c (d ∷ ds) = (d ≡ c) ⊎ Has c ds

pub Has-append_left : (c : DeadCand) (ds es : List DeadCand) → Has c ds → Has c (ds ++ es)
Has-append_left c [] es h = absurd h
Has-append_left c (d ∷ ds) es (inl e) = inl e
Has-append_left c (d ∷ ds) es (inr h) = inr (Has-append_left c ds es h)

pub Has-append_last : (c : DeadCand) (ds : List DeadCand) → Has c (ds ++ c ∷ [])
Has-append_last c [] = inl refl
Has-append_last c (d ∷ ds) = inr (Has-append_last c ds)

pub length-append : (ds es : List DeadCand) → length (ds ++ es) ≡ length ds + length es
length-append [] es = omega arith
length-append (d ∷ ds) es = omega (arith, length-append ds es)

module _ (probe : ℕ → Bool) (i : ℕ) where
  still_slot-same :
      (r : Region) (s : Slot)
      → SameObject (r.slots i) s
      → IsDead probe s
      → still_slot r (slot_cand i s) ≡ true
  unfolding still_slot
  still_slot-same r s e d =
      let hs = holders_eq_self max_holders s.holders in
      rw (e.state, e.pid, e.generation, e.holders_len, e.holders)
        (ground (arith, d.used, d.unspilled, hs))

  reap_one-frees :
      (r : Region) (c : DeadCand)
      → c.node ≡ false
      → c.index ≡ i
      → still_slot r c ≡ true
      → ((reap_one r c).0.slots i).state ≡ slot_free
  unfolding reap_one still_slot
  reap_one-frees r c n at still =
      let s = r.slots c.index in
      let freed : Slot = record s { state = slot_free; generation = (s.generation + 1) % 2 ^ 32 } in
      let woken = wake_object-SameObject (set_slot r c.index freed) c.index i in
      rw (n, still) (woken.state ∙ ground arith)

  -- A candidate leaves the object as it is, or frees it.
  abbrev pub Fate : (s t : Slot) → Type 0
  Fate s t = SameObject t s ⊎ (t.state ≡ slot_free)

  reap_one-Fate : (r : Region) (c : DeadCand) → Fate (r.slots i) ((reap_one r c).0.slots i)
  reap_one-Fate r c = elim (Bool-cases c.node) [
    | inl n ↦ inl (reap_one-other r c i (inl n))
    | inr n ↦ elim (Bool-cases (c.index == i)) [
      | inr ne ↦ inl (reap_one-other r c i (inr (ground arith)))
      | inl at ↦ elim (Bool-cases (still_slot r c)) [
        | inr changed ↦ rw (reap_one-changed r c n changed) (inl (SameObject-refl (r.slots i)))
        | inl still ↦ inr (reap_one-frees r c n (==→eq c.index i at) still)
      ]
    ]
  ]

  Fate-trans : (r s t : Slot) → Fate s t → Fate r s → Fate r t
  Fate-trans r s t (inr free) b = inr free
  Fate-trans r s t (inl a) (inl b) = inl (SameObject-trans a b)
  Fate-trans r s t (inl a) (inr free) = inr (a.state ∙ free)

  pub reap_dead-Fate :
      (cs : List DeadCand) (bs : List Bool) (r : Region)
      → Fate (r.slots i) ((reap_dead_locked r cs bs).0.slots i)
  unfolding reap_dead_locked
  reap_dead-Fate [] bs r = inl (SameObject-refl (r.slots i))
  reap_dead-Fate (c ∷ cs) [] r = inl (SameObject-refl (r.slots i))
  reap_dead-Fate (c ∷ cs) (true ∷ bs) r = reap_dead-Fate cs bs r
  reap_dead-Fate (c ∷ cs) (false ∷ bs) r =
      Fate-trans (r.slots i) ((reap_one r c).0.slots i)
        ((reap_dead_locked (reap_one r c).0 cs bs).0.slots i)
        (reap_dead-Fate cs bs (reap_one r c).0) (reap_one-Fate r c)

  Fate-free : (s t : Slot) → Fate s t → s.state ≡ slot_free → t.state ≡ slot_free
  Fate-free s t (inl same) free = same.state ∙ free
  Fate-free s t (inr free) before = free

  pub reap_dead-free :
      (cs : List DeadCand) (bs : List Bool) (r : Region)
      → (r.slots i).state ≡ slot_free
      → ((reap_dead_locked r cs bs).0.slots i).state ≡ slot_free
  reap_dead-free cs bs r free =
      Fate-free (r.slots i) ((reap_dead_locked r cs bs).0.slots i) (reap_dead-Fate cs bs r) free

  -- A chunk with the candidate of a dead object frees it.
  pub reap_dead-frees :
      (cs : List DeadCand) (r : Region) (s : Slot)
      → SameObject (r.slots i) s
      → IsDead probe s
      → Has (slot_cand i s) cs
      → ((reap_dead_locked r cs (map (owned_cand probe) cs)).0.slots i).state ≡ slot_free
  unfolding reap_dead_locked
  reap_dead-frees [] r s e d h = absurd h
  reap_dead-frees (c ∷ cs) r s e d (inl k) =
      let dead : owned_cand probe c ≡ false = rw k d.unowned in
      let still : still_slot r c ≡ true = rw k (still_slot-same r s e d) in
      let one = reap_one-frees r c (rw k refl) (rw k refl) still in
      rw dead (reap_dead-free cs (map (owned_cand probe) cs) (reap_one r c).0 one)
  reap_dead-frees (c ∷ cs) r s e d (inr h) = elim (Bool-cases (owned_cand probe c)) [
    | inl live ↦ rw live (reap_dead-frees cs r s e d h)
    | inr dead ↦ elim (reap_one-Fate r c) [
      | inl same ↦ rw dead (reap_dead-frees cs (reap_one r c).0 s (SameObject-trans same e) d h)
      | inr free ↦ rw dead (reap_dead-free cs (map (owned_cand probe) cs) (reap_one r c).0 free)
    ]
  ]
