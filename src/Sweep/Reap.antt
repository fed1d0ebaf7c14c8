-- ===== src/Sweep/Reap.antt =====
-- The reaping of src/core.rs (lines 1903-2065): what a sweep may not touch. A candidate is a copy of
-- what the scan saw, and is reaped only if its slot still looks the same.
use ntsync_android.Base.{
  ℕ, zero, suc, ◌+◌, ◌/◌, ◌%◌, ◌^◌, ◌<◌, ◌≡◌, ◌≢◌, refl, Bool, true, false, List, [], ◌∷◌, map,
  arith, ◌==◌, Bool-cases, inl, inr, ◌⊎◌, ==→eq,
}
use ntsync_android.Region.{Region, Slot, set_slot, max_holders}
use ntsync_android.Holder.{cap_of}
use ntsync_android.Waiter.{node_detach}
use ntsync_android.Waiter.Slots.{
  SameObject, SameObject-refl, SameObject-trans, node_detach-SameObject, node_free-SameObject,
  wake_object-SameObject,
}
use ntsync_android.Sweep.{
  DeadCand, SweepScan, PidCache, next_chunk, unvisited, reap_one, reap_dead_locked, holders_eq,
  still_slot, sweep_loop, sweep_dead_locked, scan_new, cache_new, verdicts_of,
}
use ntsync_android.Sweep.Cache.{
  IsValid, cache_new-IsValid, any_alive, owned, owned_cand, verdicts_of-eq,
}

-- A slot that a sweep must keep: its creator or a holder is alive, or its list of holders spilled.
abbrev pub Kept : (probe : ℕ → Bool) → Slot → Type 0
Kept probe s =
    (owned probe s.pid s.holders_len s.holders ≡ true) ⊎ ((s.holders_len / 2 ^ 31 % 2) ≢ 0)

pub Kept-of_same : (probe : ℕ → Bool) {s t : Slot} → SameObject s t → Kept probe t → Kept probe s
Kept-of_same probe e k = rw (e.pid, e.holders_len, e.holders) k

pub reap_one-other :
    (r : Region) (c : DeadCand) (i : ℕ)
    → (c.node ≡ true) ⊎ (c.index ≢ i)
    → SameObject ((reap_one r c).0.slots i) (r.slots i)
unfolding reap_one
reap_one-other r c i h =
    let a = node_free-SameObject (node_detach r c.index) c.index i in
    let b = node_detach-SameObject r c.index i in
    let s = r.slots c.index in
    let freed : Slot = record s { state = 0; generation = (s.generation + 1) % 2 ^ 32 } in
    let d = wake_object-SameObject (set_slot r c.index freed) c.index i in ground arith

-- The end of the loop at an empty chunk.
pub stop-SameObject :
    (i : ℕ) (s : Slot) (cands : List DeadCand) (ended going : Region × ℕ)
    → SameObject (ended.0.slots i) s
    → SameObject (going.0.slots i) s
    → SameObject ((elim cands as (λ _. Region × ℕ) [ [] ↦ ended | c ∷ cs ↦ going ]).0.slots i) s
stop-SameObject i s [] ended going a b = a
stop-SameObject i s (c ∷ cs) ended going a b = b

holders_eq-below : (n : ℕ) (f g : ℕ → ℕ) → holders_eq n f g ≡ true → (j : ℕ) → j < n → f j ≡ g j
unfolding holders_eq
holders_eq-below zero f g h j lt = absurd (omega arith)
holders_eq-below (suc n) f g h j lt = elim (Bool-cases (j == n)) [
  | inl last ↦ let e = ==→eq j n last in rw e (ground arith)
  | inr before ↦ holders_eq-below n f g (ground arith) j (ground arith)
]

any_alive_ext :
    (probe : ℕ → Bool) (left i : ℕ) (f g : ℕ → ℕ)
    → ((j : ℕ) → j < i + left → f j ≡ g j)
    → any_alive probe left i f ≡ any_alive probe left i g
any_alive_ext probe zero i f g same = refl
any_alive_ext probe (suc left) i f g same =
    rw (same i (omega arith), any_alive_ext probe left (i + 1) f g (λ j lt. same j (omega arith)))
      refl

-- A candidate whose slot still looks the same has the owners of the slot.
still_slot-owned :
    (probe : ℕ → Bool) (r : Region) (c : DeadCand)
    → still_slot r c ≡ true
    → (owned_cand probe c
        ≡ owned probe (r.slots c.index).pid (r.slots c.index).holders_len (r.slots c.index).holders)
      × ((r.slots c.index).holders_len / 2 ^ 31 % 2 ≡ 0)
unfolding still_slot
still_slot-owned probe r c h =
    let s = r.slots c.index in
    let eq : holders_eq max_holders s.holders c.holders ≡ true = ground arith in
    let pids : s.pid ≡ c.pid = ground arith in
    let lens : s.holders_len ≡ c.holders_len = ground arith in
    let same =
      any_alive_ext probe (cap_of s.holders_len) 0 s.holders c.holders
        (λ j lt. holders_eq-below max_holders s.holders c.holders eq j (omega arith)) in
    (rw (← pids, ← lens, same) refl, ground arith)

pub reap_one-changed :
    (r : Region) (c : DeadCand) → c.node ≡ false → still_slot r c ≡ false → (reap_one r c).0 ≡ r
unfolding reap_one
reap_one-changed r c n h = ground arith

module _ (probe : ℕ → Bool) (i : ℕ) where
  -- One candidate with its verdict, however old the scan is that saw it.
  judged-SameObject :
      (r : Region) (c : DeadCand)
      → Kept probe (r.slots i)
      → owned_cand probe c ≡ false
      → SameObject ((reap_one r c).0.slots i) (r.slots i)
  judged-SameObject r c k dead = elim (Bool-cases c.node) [
    | inl n ↦ reap_one-other r c i (inl n)
    | inr n ↦ elim (Bool-cases (c.index == i)) [
      | inr ne ↦ reap_one-other r c i (inr (ground arith))
      | inl at ↦ elim (Bool-cases (still_slot r c)) [
        | inr changed ↦ rw (reap_one-changed r c n changed) (SameObject-refl (r.slots i))
        | inl still ↦
            let e = ==→eq c.index i at in
            let (owners, unspilled) = still_slot-owned probe r c still in
            elim k [ inl live ↦ absurd (ground arith) | inr spilled ↦ absurd (ground arith) ]
      ]
    ]
  ]

  pub reap_dead-SameObject :
      (cs : List DeadCand) (r : Region)
      → Kept probe (r.slots i)
      → SameObject ((reap_dead_locked r cs (map (owned_cand probe) cs)).0.slots i) (r.slots i)
  unfolding reap_dead_locked
  reap_dead-SameObject [] r k = SameObject-refl (r.slots i)
  reap_dead-SameObject (c ∷ cs) r k = elim (Bool-cases (owned_cand probe c)) [
    | inl live ↦ rw live (reap_dead-SameObject cs r k)
    | inr dead ↦
        let one = judged-SameObject r c k dead in
        rw dead (
          SameObject-trans (reap_dead-SameObject cs (reap_one r c).0 (Kept-of_same probe one k))
            one)
  ]

  sweep_loop-SameObject :
      (fuel : ℕ) (r : Region) (scan : SweepScan) (cache : PidCache) (freed : ℕ)
      → IsValid probe cache
      → Kept probe (r.slots i)
      → SameObject ((sweep_loop fuel probe r scan cache freed).0.slots i) (r.slots i)
  unfolding sweep_loop next_chunk
  sweep_loop-SameObject zero r scan cache freed v k = SameObject-refl (r.slots i)
  sweep_loop-SameObject (suc fuel) r scan cache freed v k =
      let out = next_chunk r scan in
      let judged = verdicts_of probe out.1 cache in
      let (verdicts, valid) = verdicts_of-eq probe out.1 cache v in
      let reaped = reap_dead_locked r out.1 judged.0 in
      let same : SameObject (reaped.0.slots i) (r.slots i) =
        rw verdicts (reap_dead-SameObject out.1 r k) in
      let rest =
        sweep_loop-SameObject fuel reaped.0 out.0 judged.1 (freed + reaped.1) valid
          (Kept-of_same probe same k) in
      stop-SameObject i (r.slots i) out.1 (r, freed)
        (sweep_loop fuel probe reaped.0 out.0 judged.1 (freed + reaped.1))
        (SameObject-refl (r.slots i)) (SameObject-trans rest same)

  -- A sweep frees no object whose creator or one of whose recorded holders is alive, and none whose
  -- list of holders spilled: its slot keeps every field but the head of its waiter list.
  pub sweep_dead-SameObject :
      (r : Region)
      → Kept probe (r.slots i)
      → SameObject ((sweep_dead_locked probe r).0.slots i) (r.slots i)
  unfolding sweep_dead_locked
  sweep_dead-SameObject r k =
      sweep_loop-SameObject (unvisited (scan_new r) + 1) r (scan_new r) cache_new 0
        (cache_new-IsValid probe) k
