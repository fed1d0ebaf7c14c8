-- ===== src/Sweep/Freed.antt =====
-- What reaping makes of a slot (src/core.rs, lines 2009-2046): it is left as it is, or freed once, with its next
-- generation.
use ntsync_android.Base.{
  ℕ, ◌+◌, ◌%◌, ◌^◌, ◌≡◌, refl, ◌∙◌, Bool, true, false, List, [], ◌∷◌, arith, ◌==◌, Bool-cases, inl,
  inr, ◌⊎◌, ==→eq,
}
use ntsync_android.Region.{Region, Slot, set_slot, slot_used, slot_free}
use ntsync_android.Waiter.Slots.{
  SameObject, SameObject-refl, SameObject-trans, wake_object-SameObject,
}
use ntsync_android.Sweep.{DeadCand, reap_one, reap_dead_locked, still_slot}
use ntsync_android.Sweep.Reap.{reap_one-other, reap_one-changed}

-- The slot when its object has been freed.
abbrev pub freed_slot : Slot → Slot
freed_slot s = record s { state = slot_free; generation = (s.generation + 1) % 2 ^ 32 }

-- A slot `s` that is left as it is, or freed.
abbrev pub Freed : (s t : Slot) → Type 0
Freed s t = SameObject t s ⊎ ((s.state ≡ slot_used) × SameObject t (freed_slot s))

Freed-of_same : {s s' t : Slot} → SameObject s' s → Freed s' t → Freed s t
Freed-of_same e (inl f) = inl (SameObject-trans f e)
Freed-of_same e (inr (used, f)) = inr (
  rw (← e.state) used,
  record {
    state = f.state;
    generation = f.generation ∙ (rw e.generation refl);
    obj_type = f.obj_type ∙ e.obj_type;
    pid = f.pid ∙ e.pid;
    holders_len = f.holders_len ∙ e.holders_len;
    holders = f.holders ∙ e.holders;
    w0 = f.w0 ∙ e.w0;
    d = f.d ∙ e.d;
  },
)

module _ (i : ℕ) where
  still_slot-used :
      (r : Region) (c : DeadCand) → still_slot r c ≡ true → (r.slots c.index).state ≡ slot_used
  unfolding still_slot
  still_slot-used r c still = ground arith

  reap_one-freed_slot :
      (r : Region) (c : DeadCand)
      → c.node ≡ false
      → c.index ≡ i
      → still_slot r c ≡ true
      → SameObject ((reap_one r c).0.slots i) (freed_slot (r.slots i))
  unfolding reap_one still_slot
  reap_one-freed_slot r c n at still =
      let freed = freed_slot (r.slots c.index) in
      let woken = wake_object-SameObject (set_slot r c.index freed) c.index i in
      let put : (set_slot r c.index freed).slots i ≡ freed_slot (r.slots i) =
        rw at (ground arith) in
      rw (n, still) (rw put at woken)

  pub reap_one-Freed : (r : Region) (c : DeadCand) → Freed (r.slots i) ((reap_one r c).0.slots i)
  reap_one-Freed r c = elim (Bool-cases c.node) [
    | inl n ↦ inl (reap_one-other r c i (inl n))
    | inr n ↦ elim (Bool-cases (c.index == i)) [
      | inr ne ↦ inl (reap_one-other r c i (inr (ground arith)))
      | inl here ↦ elim (Bool-cases (still_slot r c)) [
        | inr changed ↦ rw (reap_one-changed r c n changed) (inl (SameObject-refl (r.slots i)))
        | inl still ↦
            let at = ==→eq c.index i here in
            inr (rw at at (still_slot-used r c still), reap_one-freed_slot r c n at still)
      ]
    ]
  ]

  -- A free slot is left as it is.
  reap_dead-free_slot :
      (cs : List DeadCand) (bs : List Bool) (r : Region)
      → (r.slots i).state ≡ slot_free
      → SameObject ((reap_dead_locked r cs bs).0.slots i) (r.slots i)
  unfolding reap_dead_locked
  reap_dead-free_slot [] bs r free = SameObject-refl (r.slots i)
  reap_dead-free_slot (c ∷ cs) [] r free = SameObject-refl (r.slots i)
  reap_dead-free_slot (c ∷ cs) (true ∷ bs) r free = reap_dead-free_slot cs bs r free
  reap_dead-free_slot (c ∷ cs) (false ∷ bs) r free = elim (reap_one-Freed r c) [
    | inl same ↦
        SameObject-trans (reap_dead-free_slot cs bs (reap_one r c).0 (same.state ∙ free)) same
    | inr (used, f) ↦ absurd (ground (arith, used, free))
  ]

  pub reap_dead-Freed :
      (cs : List DeadCand) (bs : List Bool) (r : Region)
      → Freed (r.slots i) ((reap_dead_locked r cs bs).0.slots i)
  unfolding reap_dead_locked
  reap_dead-Freed [] bs r = inl (SameObject-refl (r.slots i))
  reap_dead-Freed (c ∷ cs) [] r = inl (SameObject-refl (r.slots i))
  reap_dead-Freed (c ∷ cs) (true ∷ bs) r = reap_dead-Freed cs bs r
  reap_dead-Freed (c ∷ cs) (false ∷ bs) r = elim (reap_one-Freed r c) [
    | inl same ↦ Freed-of_same same (reap_dead-Freed cs bs (reap_one r c).0)
    | inr (used, f) ↦
        inr (used, SameObject-trans (reap_dead-free_slot cs bs (reap_one r c).0 f.state) f)
  ]
