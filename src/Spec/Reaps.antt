-- ===== src/Spec/Reaps.antt =====
-- What the sweeps of src/core.rs (lines 1827-2068) do to the table: objects are lost, and nothing else changes.
use ntsync_android.Base.{
  ℕ, zero, suc, ◌+◌, ◌%◌, ◌^◌, ◌<◌, ◌≡◌, ◌≢◌, refl, sym, ◌∙◌, Bool, true, false, List, [], ◌∷◌,
  none, arith, ◌==◌, Bool-cases, inl, inr, ◌⊎◌, ==→eq,
}
use ntsync_android.Region.{Region, Slot, set_slot, slot_used, slot_free, index_of}
use ntsync_android.Waiter.Slots.{wake_object-SameObject}
use ntsync_android.Sweep.{
  DeadCand, SweepScan, PidCache, next_chunk, unvisited, reap_one, reap_dead_locked, verdicts_of,
  still_slot, sweep_loop, sweep_dead_locked, scan_new, cache_new,
}
use ntsync_android.Sweep.Reap.{reap_one-other, reap_one-changed}
use ntsync_android.Spec.{Table}
use ntsync_android.Spec.Ages.{Ages, SameView-Ages}
use ntsync_android.Spec.View.{
  view, view_same, SameView, SameView-of_same, slot_free_none, view-none,
}
use ntsync_android.Spec.Scans.{IsCreated, AllCreated, chunk_loop-AllCreated}
use ntsync_android.Spec.Changes.{IsSound, IsTyped-of_same}

-- A slot that was freed: it had an object and a creator.
pub record Reaped (s t : Slot) : Type 0 where
  pub used : s.state ≡ slot_used
  pub created : s.pid ≢ 0
  pub free : t.state ≡ slot_free
  pub generation : t.generation ≡ (s.generation + 1) % 2 ^ 32
  pub obj_type : t.obj_type ≡ s.obj_type
  pub w0 : t.w0 ≡ s.w0

abbrev pub Fate : (s t : Slot) → Type 0
Fate s t = SameView t s ⊎ Reaped s t

abbrev pub Reaps : (r r' : Region) → Type 0
Reaps r r' = (i : ℕ) → Fate (r.slots i) (r'.slots i)

pub SameView-refl : (s : Slot) → SameView s s
SameView-refl s = record { state = refl; generation = refl; obj_type = refl; w0 = refl; pid = refl }

pub SameView-trans : {s t u : Slot} → SameView s t → SameView t u → SameView s u
SameView-trans a b = record {
  state = a.state ∙ b.state;
  generation = a.generation ∙ b.generation;
  obj_type = a.obj_type ∙ b.obj_type;
  w0 = a.w0 ∙ b.w0;
  pid = a.pid ∙ b.pid;
}

Fate-trans : (s t u : Slot) → Fate s t → Fate t u → Fate s u
Fate-trans s t u (inl a) (inl b) = inl (SameView-trans b a)
Fate-trans s t u (inl a) (inr b) = inr (record {
  used = sym a.state ∙ b.used;
  created = rw (← a.pid) b.created;
  free = b.free;
  generation = rw (← a.generation) b.generation;
  obj_type = b.obj_type ∙ a.obj_type;
  w0 = b.w0 ∙ a.w0;
})
Fate-trans s t u (inr a) (inl b) = inr (record {
  used = a.used;
  created = a.created;
  free = b.state ∙ a.free;
  generation = b.generation ∙ a.generation;
  obj_type = b.obj_type ∙ a.obj_type;
  w0 = b.w0 ∙ a.w0;
})
Fate-trans s t u (inr a) (inr b) = absurd (ground (arith, a.free, b.used))

pub Reaps-refl : (r : Region) → Reaps r r
Reaps-refl r i = inl (SameView-refl (r.slots i))

Reaps-trans : (r r' r'' : Region) → Reaps r r' → Reaps r' r'' → Reaps r r''
Reaps-trans r r' r'' a b i = Fate-trans (r.slots i) (r'.slots i) (r''.slots i) (a i) (b i)

still_slot-created :
    (r : Region) (c : DeadCand)
    → still_slot r c ≡ true
    → ((r.slots c.index).state ≡ slot_used) × ((r.slots c.index).pid ≡ c.pid)
unfolding still_slot
still_slot-created r c e = (ground (arith, e), ground (arith, e))

reap_one-frees :
    (r : Region) (c : DeadCand)
    → c.node ≡ false
    → c.pid ≢ 0
    → still_slot r c ≡ true
    → Reaped (r.slots c.index) ((reap_one r c).0.slots c.index)
unfolding reap_one still_slot
reap_one-frees r c n created still =
    let s = r.slots c.index in
    let (used, pid) = still_slot-created r c still in
    let freed : Slot = record s { state = slot_free; generation = (s.generation + 1) % 2 ^ 32 } in
    let woken = wake_object-SameObject (set_slot r c.index freed) c.index c.index in
    rw (n, still)
      (record {
        used = used;
        created = rw pid created;
        free = woken.state ∙ ground arith;
        generation = woken.generation ∙ ground arith;
        obj_type = woken.obj_type ∙ ground arith;
        w0 = woken.w0 ∙ ground arith;
      })

reap_one-Reaps : (r : Region) (c : DeadCand) → IsCreated c → Reaps r (reap_one r c).0
reap_one-Reaps r c created i = elim (Bool-cases c.node) [
  | inl n ↦ inl (SameView-of_same (reap_one-other r c i (inl n)))
  | inr n ↦ elim (Bool-cases (c.index == i)) [
    | inr ne ↦ inl (SameView-of_same (reap_one-other r c i (inr (ground arith))))
    | inl at ↦ elim (Bool-cases (still_slot r c)) [
      | inr changed ↦ rw (reap_one-changed r c n changed) (Reaps-refl r i)
      | inl still ↦ elim created [
        | inl node ↦ absurd (ground arith)
        | inr pid ↦ let e = ==→eq c.index i at in rw (← e) (inr (reap_one-frees r c n pid still))
      ]
    ]
  ]
]

reap_dead-Reaps :
    (cs : List DeadCand) (bs : List Bool) (r : Region)
    → AllCreated cs
    → Reaps r (reap_dead_locked r cs bs).0
unfolding reap_dead_locked
reap_dead-Reaps [] bs r a = Reaps-refl r
reap_dead-Reaps (c ∷ cs) [] r a = Reaps-refl r
reap_dead-Reaps (c ∷ cs) (true ∷ bs) r (x, a) = reap_dead-Reaps cs bs r a
reap_dead-Reaps (c ∷ cs) (false ∷ bs) r (x, a) =
    Reaps-trans r (reap_one r c).0 (reap_dead_locked (reap_one r c).0 cs bs).0
      (reap_one-Reaps r c x) (reap_dead-Reaps cs bs (reap_one r c).0 a)

stop-Reaps :
    (r : Region) (cands : List DeadCand) (ended going : Region × ℕ)
    → Reaps r ended.0
    → Reaps r going.0
    → Reaps r (elim cands as (λ _. Region × ℕ) [ [] ↦ ended | c ∷ cs ↦ going ]).0
stop-Reaps r [] ended going a b = a
stop-Reaps r (c ∷ cs) ended going a b = b

sweep_loop-Reaps :
    (fuel : ℕ) (probe : ℕ → Bool) (r : Region) (scan : SweepScan) (cache : PidCache) (freed : ℕ)
    → Reaps r (sweep_loop fuel probe r scan cache freed).0
unfolding sweep_loop next_chunk
sweep_loop-Reaps zero probe r scan cache freed = Reaps-refl r
sweep_loop-Reaps (suc fuel) probe r scan cache freed =
    let out = next_chunk r scan in
    let judged = verdicts_of probe out.1 cache in
    let reaped = reap_dead_locked r out.1 judged.0 in
    let one =
      reap_dead-Reaps out.1 judged.0 r (chunk_loop-AllCreated (unvisited scan + 1) r scan [] tt) in
    let rest = sweep_loop fuel probe reaped.0 out.0 judged.1 (freed + reaped.1) in
    stop-Reaps r out.1 (r, freed) rest (Reaps-refl r)
      (Reaps-trans r reaped.0 rest.0 one
        (sweep_loop-Reaps fuel probe reaped.0 out.0 judged.1 (freed + reaped.1)))

pub sweep_dead_locked-Reaps :
    (probe : ℕ → Bool) (r : Region) → Reaps r (sweep_dead_locked probe r).0
unfolding sweep_dead_locked
sweep_dead_locked-Reaps probe r =
    let scan = scan_new r in sweep_loop-Reaps (unvisited scan + 1) probe r scan cache_new 0

-- Every entry of the table is as before or gone.
abbrev pub Loses : (T T' : Table) → Type 0
Loses T T' = (k : ℕ) → (T' k ≡ T k) ⊎ (T' k ≡ none)

pub Reaps-Loses : (r r' : Region) → Reaps r r' → Loses (view r) (view r')
Reaps-Loses r r' f k = elim (f (index_of k)) [
  | inl same ↦ inl (view_same r r' k same)
  | inr gone ↦ inr (view-none r' k (slot_free_none r' k (ground (arith, gone.free))))
]

pub Reaps-IsSound : (n : ℕ) (r r' : Region) → Reaps r r' → IsSound n r → IsSound (n + 1) r'
Reaps-IsSound n r r' f v =
    let zeroth : SameView (r'.slots 0) (r.slots 0) = elim (f 0) [
      | inl same ↦ same
      | inr gone ↦ absurd (gone.created v.unowned)
    ] in
    record {
      typed = λ i. elim (f i) [
        | inl same ↦ IsTyped-of_same same (v.typed i)
        | inr gone ↦ record {
          sem = λ k. rw gone.w0 ((v.typed i).sem (sym gone.obj_type ∙ k));
          mutex = λ k. rw gone.w0 ((v.typed i).mutex (sym gone.obj_type ∙ k));
          event = λ k. rw gone.w0 ((v.typed i).event (sym gone.obj_type ∙ k));
        }
      ];
      known = λ i ne used. elim (f i) [
        | inl same ↦ rw same.obj_type (v.known i ne (sym same.state ∙ used))
        | inr gone ↦ absurd (ground (arith, gone.free))
      ];
      young = λ i. elim (f i) [
        | inl same ↦ omega (arith, same.generation, v.young i)
        | inr gone ↦ omega (arith, gone.generation, v.young i)
      ];
      settled =
          λ i. elim (f i) [ inl same ↦ rw same.state (v.settled i) | inr gone ↦ inl gone.free ];
      reserved = zeroth.state ∙ v.reserved;
      kernel = zeroth.obj_type ∙ v.kernel;
      unowned = zeroth.pid ∙ v.unowned;
    }

-- Reaping ages the slots, while no generation wraps around.
pub Reaps-Ages :
    (n : ℕ) (r r' : Region)
    → Reaps r r'
    → IsSound n r
    → n + 1 < 2 ^ 32
    → (i : ℕ) → Ages (r.slots i) (r'.slots i)
Reaps-Ages n r r' f v young i = elim (f i) [
  | inl same ↦ SameView-Ages same
  | inr gone ↦ record {
    later = omega (arith, gone.generation, v.young i);
    kept = λ e used. absurd (omega (arith, gone.generation, v.young i, e));
  }
]
