-- ===== src/Sweep/Visits.antt =====
-- Which entries a chunk of the scan visits (src/core.rs, lines 1903-1940), and that a sweep ends.
use ntsync_android.Base.{
  ℕ, zero, suc, ◌+◌, ◌≤◌, ◌<◌, ◌≡◌, ◌≢◌, refl, Bool, List, [], ◌∷◌, ◌++◌, map, length, arith, ◌==◌,
  ltb, Bool-cases, inl, inr, ◌⊎◌, ==→eq,
}
use ntsync_android.Region.{Region, slot_free}
use ntsync_android.Waiter.Slots.{SameObject-refl}
use ntsync_android.Sweep.{
  DeadCand, SweepScan, PidCache, node_find, slot_find, slot_cand, sweep_chunk, chunk_loop,
  next_chunk, unvisited, reap_dead_locked, sweep_loop, sweep_dead_locked, scan_new, cache_new,
  verdicts_of,
}
use ntsync_android.Sweep.Cache.{IsValid, cache_new-IsValid, verdicts_of-eq, owned_cand}
use ntsync_android.Sweep.Frees.{
  IsDead, Has, Has-append_left, Has-append_last, length-append, reap_dead-frees, reap_dead-free,
  reap_dead-Fate, IsDead-of_same,
}

module _ (probe : ℕ → Bool) (i : ℕ) (r : Region) where
  -- What the rest of a chunk does, from a scan and what it has found on: each entry found is paid for by one
  -- visited, the slot `i` is found when the scan passes it, and the chunk ends full or with all visited.
  record Chunked (s : SweepScan) (out : List DeadCand) (s' : SweepScan) (out' : List DeadCand)
      : Type 0 where
    slot_hi : s'.slot_hi ≡ s.slot_hi
    pays : unvisited s' + length out' ≤ unvisited s + length out
    keeps : Has (slot_cand i (r.slots i)) out → Has (slot_cand i (r.slots i)) out'
    passes :
        IsDead probe (r.slots i)
        → s.next_slot ≤ i
        → (s'.next_slot ≤ i) ⊎ Has (slot_cand i (r.slots i)) out'
    ends : (sweep_chunk ≤ length out') ⊎ (s'.slot_hi ≤ s'.next_slot)

  node_find-le : (k : ℕ) → length (node_find r k) ≤ 1
  node_find-le k = ground arith

  slot_find-le : (k : ℕ) → length (slot_find r k) ≤ 1
  slot_find-le k = ground arith

  slot_find-dead : IsDead probe (r.slots i) → slot_find r i ≡ slot_cand i (r.slots i) ∷ []
  slot_find-dead d = ground (arith, d.used, d.created)

  stop-Chunked :
      (s : SweepScan) (out : List DeadCand)
      → (sweep_chunk ≤ length out) ⊎ (s.slot_hi ≤ s.next_slot)
      → Chunked s out s out
  stop-Chunked s out end = record {
    slot_hi = refl;
    pays = omega arith;
    keeps = λ h. h;
    passes = λ d le. inl le;
    ends = end;
  }

  node-Chunked :
      (s : SweepScan) (out : List DeadCand) (s' : SweepScan) (out' : List DeadCand)
      → s.next_node < s.node_hi
      → Chunked (record s { next_node = s.next_node + 1 }) (out ++ node_find r s.next_node) s' out'
      → Chunked s out s' out'
  node-Chunked s out s' out' lt k = record {
    slot_hi = k.slot_hi;
    pays =
        omega (
          arith,
          k.pays,
          lt,
          length-append out (node_find r s.next_node),
          node_find-le s.next_node,
        );
    keeps =
        λ h. k.keeps (Has-append_left (slot_cand i (r.slots i)) out (node_find r s.next_node) h);
    passes = k.passes;
    ends = k.ends;
  }

  slot-Chunked :
      (s : SweepScan) (out : List DeadCand) (s' : SweepScan) (out' : List DeadCand)
      → s.next_slot < s.slot_hi
      → Chunked (record s { next_slot = s.next_slot + 1 }) (out ++ slot_find r s.next_slot) s' out'
      → Chunked s out s' out'
  slot-Chunked s out s' out' lt k = record {
    slot_hi = k.slot_hi;
    pays =
        omega (
          arith,
          k.pays,
          lt,
          length-append out (slot_find r s.next_slot),
          slot_find-le s.next_slot,
        );
    keeps =
        λ h. k.keeps (Has-append_left (slot_cand i (r.slots i)) out (slot_find r s.next_slot) h);
    passes = λ d le. elim (Bool-cases (s.next_slot == i)) [
      | inl here ↦
          let e = ==→eq s.next_slot i here in
          let last = Has-append_last (slot_cand i (r.slots i)) out in
          inr (k.keeps (rw (e, slot_find-dead d) last))
      | inr before ↦ k.passes d (ground arith)
    ];
    ends = k.ends;
  }

  chunk_loop-Chunked :
      (left : ℕ) (s : SweepScan) (out : List DeadCand)
      → unvisited s < left
      → Chunked s out (chunk_loop left r s out).0 (chunk_loop left r s out).1
  unfolding chunk_loop
  chunk_loop-Chunked zero s out lt = absurd (omega (arith, lt))
  chunk_loop-Chunked (suc left) s out lt = elim (Bool-cases (ltb (length out) sweep_chunk)) [
    | inr full ↦ rw full (stop-Chunked s out (inl (ground arith)))
    | inl room ↦ elim (Bool-cases (ltb s.next_node s.node_hi)) [
      | inl node ↦
          let below : s.next_node < s.node_hi = ground arith in
          let rest =
            chunk_loop-Chunked left (record s { next_node = s.next_node + 1 })
              (out ++ node_find r s.next_node) (omega (arith, lt, below)) in
          rw (room, node) (node-Chunked s out _ _ below rest)
      | inr nodes ↦ elim (Bool-cases (ltb s.next_slot s.slot_hi)) [
        | inl at ↦
            let below : s.next_slot < s.slot_hi = ground arith in
            let rest =
              chunk_loop-Chunked left (record s { next_slot = s.next_slot + 1 })
                (out ++ slot_find r s.next_slot) (omega (arith, lt, below)) in
            rw (room, nodes, at) (slot-Chunked s out _ _ below rest)
        | inr slots ↦ rw (room, nodes, slots) (stop-Chunked s out (inr (ground arith)))
      ]
    ]
  ]

  next_chunk-Chunked : (s : SweepScan) → Chunked s [] (next_chunk r s).0 (next_chunk r s).1
  unfolding next_chunk
  next_chunk-Chunked s = chunk_loop-Chunked (unvisited s + 1) s [] (omega arith)

-- What holds at the end of the sweep's loop and of what follows a chunk that is not empty.
ends_or :
    (P : Region → Type 0) (cands : List DeadCand) (ended going : Region × ℕ)
    → (cands ≡ [] → P ended.0)
    → (cands ≢ [] → P going.0)
    → P (elim cands as (λ _. Region × ℕ) [ [] ↦ ended | c ∷ cs ↦ going ]).0
ends_or P [] ended going e g = e refl
ends_or P (c ∷ cs) ended going e g = g (ground arith)

length-nonempty : (cs : List DeadCand) → cs ≢ [] → 0 < length cs
length-nonempty [] ne = absurd (ne refl)
length-nonempty (c ∷ cs) ne = omega arith

module _ (probe : ℕ → Bool) (i : ℕ) where
  -- What is left to do for the object `i`: nothing, or the scan has still to pass it.
  abbrev Left : Region → SweepScan → Type 0
  Left r scan = ((r.slots i).state ≡ slot_free) ⊎ (IsDead probe (r.slots i) × (scan.next_slot ≤ i))

  -- A chunk is empty only when the scan is over.
  emptied :
      (r : Region) (scan : SweepScan)
      → i < scan.slot_hi
      → Left r scan
      → (next_chunk r scan).1 ≡ []
      → (r.slots i).state ≡ slot_free
  emptied r scan below (inl free) e = free
  emptied r scan below (inr (d, le)) e =
      let k = next_chunk-Chunked probe i r scan in
      let over : (next_chunk r scan).0.slot_hi ≤ (next_chunk r scan).0.next_slot = elim k.ends [
        | inl full ↦ absurd (ground (arith, e))
        | inr over ↦ over
      ] in
      elim (k.passes d le) [
        | inl before ↦ absurd (omega (arith, over, k.slot_hi, below, before))
        | inr has ↦ absurd (rw e at has)
      ]

  -- What a chunk and its reaping leave to do.
  chunk-Left :
      (r : Region) (scan : SweepScan)
      → Left r scan
      → Left
          (reap_dead_locked r
            (next_chunk r scan).1
            (map (owned_cand probe) (next_chunk r scan).1)).0
          (next_chunk r scan).0
  chunk-Left r scan (inl free) =
      let out = (next_chunk r scan).1 in
      inl (reap_dead-free probe i out (map (owned_cand probe) out) r free)
  chunk-Left r scan (inr (d, le)) =
      let k = next_chunk-Chunked probe i r scan in
      let out = (next_chunk r scan).1 in
      elim (k.passes d le) [
        | inr has ↦
            inl (reap_dead-frees probe i out r (r.slots i) (SameObject-refl (r.slots i)) d has)
        | inl before ↦ elim (reap_dead-Fate probe i out (map (owned_cand probe) out) r) [
          | inl same ↦ inr (IsDead-of_same probe same d, before)
          | inr free ↦ inl free
        ]
      ]

  sweep_loop-frees :
      (fuel : ℕ) (r : Region) (scan : SweepScan) (cache : PidCache) (freed : ℕ)
      → IsValid probe cache
      → unvisited scan < fuel
      → i < scan.slot_hi
      → Left r scan
      → ((sweep_loop fuel probe r scan cache freed).0.slots i).state ≡ slot_free
  unfolding sweep_loop
  sweep_loop-frees zero r scan cache freed v lt below todo = absurd (omega (arith, lt))
  sweep_loop-frees (suc fuel) r scan cache freed v lt below todo =
      let k = next_chunk-Chunked probe i r scan in
      let out = next_chunk r scan in
      let judged = verdicts_of probe out.1 cache in
      let (verdicts, valid) = verdicts_of-eq probe out.1 cache v in
      let reaped = reap_dead_locked r out.1 judged.0 in
      ends_or (λ r'. (r'.slots i).state ≡ slot_free) out.1 (r, freed)
        (sweep_loop fuel probe reaped.0 out.0 judged.1 (freed + reaped.1))
        (λ e. emptied r scan below todo e)
        (λ ne.
          let paid : unvisited out.0 < fuel =
            ground (arith, k.pays, lt, length-nonempty out.1 ne) in
          sweep_loop-frees fuel reaped.0 out.0 judged.1 (freed + reaped.1) valid paid
            (omega (arith, k.slot_hi, below)) (rw verdicts (chunk-Left r scan todo)))

  -- A sweep frees every object below the mark of the slots that were ever handed out whose creator is dead, of
  -- whose recorded holders none is alive, and whose list of holders did not spill.
  pub sweep_dead-frees :
      (r : Region)
      → i < (scan_new r).slot_hi
      → IsDead probe (r.slots i)
      → ((sweep_dead_locked probe r).0.slots i).state ≡ slot_free
  unfolding sweep_dead_locked scan_new
  sweep_dead-frees r below dead =
      let scan = scan_new r in
      sweep_loop-frees (unvisited scan + 1) r scan cache_new 0 (cache_new-IsValid probe)
        (omega arith) below (inr (dead, ground arith))
