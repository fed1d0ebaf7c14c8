-- ===== src/Spec/Spares.antt =====
-- The count of a sweep of src/core.rs (lines 1903-2065): a sweep that counts nothing has freed nothing.
use ntsync_android.Base.{
  ℕ, zero, suc, ◌+◌, ◌≤◌, ◌≡◌, Bool, true, false, List, [], ◌∷◌, arith, Bool-cases, inl, inr,
}
use ntsync_android.Region.{Region}
use ntsync_android.Sweep.{
  DeadCand, SweepScan, PidCache, next_chunk, unvisited, reap_one, reap_dead_locked, verdicts_of,
  still_slot, sweep_loop, sweep_dead_locked, scan_new, cache_new,
}
use ntsync_android.Sweep.Reap.{reap_one-other, reap_one-changed}
use ntsync_android.Spec.View.{SameView, SameView-of_same}
use ntsync_android.Spec.Reaps.{SameView-refl, SameView-trans}

abbrev pub AllSame : (r r' : Region) → Type 0
AllSame r r' = (i : ℕ) → SameView (r'.slots i) (r.slots i)

-- The count goes up, and stays only if no slot was freed.
record Spares (r : Region) (before : ℕ) (out : Region × ℕ) : Type 0 where
  counts : before ≤ out.1
  spared : out.1 ≡ before → AllSame r out.0

Spares-refl : (r : Region) (n : ℕ) → Spares r n (r, n)
Spares-refl r n = record { counts = omega arith; spared = λ _ i. SameView-refl (r.slots i) }

reap_one-Spares : (r : Region) (c : DeadCand) → Spares r 0 (reap_one r c)
unfolding reap_one
reap_one-Spares r c = elim (Bool-cases c.node) [
  | inl n ↦ record {
    counts = omega arith;
    spared = λ _ i. SameView-of_same (reap_one-other r c i (inl n));
  }
  | inr n ↦ elim (Bool-cases (still_slot r c)) [
    | inl still ↦ record { counts = omega arith; spared = λ e. absurd (ground (arith, n, still)) }
    | inr changed ↦ record {
      counts = omega arith;
      spared = λ _ i. rw (reap_one-changed r c n changed) (SameView-refl (r.slots i));
    }
  ]
]

Spares-trans :
    (r r' r'' : Region) (before n total : ℕ)
    → Spares r 0 (r', n)
    → Spares r' (before + n) (r'', total)
    → Spares r before (r'', total)
Spares-trans r r' r'' before n total a b = record {
  counts = omega (arith, b.counts);
  spared = λ e i.
      let x = a.spared (omega (arith, e, b.counts)) i in
      let y = b.spared (omega (arith, e, b.counts)) i in SameView-trans y x;
}

reap_dead-Spares :
    (cs : List DeadCand) (bs : List Bool) (r : Region) → Spares r 0 (reap_dead_locked r cs bs)
unfolding reap_dead_locked
reap_dead-Spares [] bs r = Spares-refl r 0
reap_dead-Spares (c ∷ cs) [] r = Spares-refl r 0
reap_dead-Spares (c ∷ cs) (true ∷ bs) r =
    let rest = reap_dead-Spares cs bs r in
    record { counts = omega arith; spared = λ e i. rest.spared (omega (arith, e)) i }
reap_dead-Spares (c ∷ cs) (false ∷ bs) r =
    let one = reap_one-Spares r c in
    let rest = reap_dead-Spares cs bs (reap_one r c).0 in
    record {
      counts = omega arith;
      spared = λ e i.
          SameView-trans (rest.spared (omega (arith, e)) i) (one.spared (omega (arith, e)) i);
    }

stop-Spares :
    (r : Region) (n : ℕ) (cands : List DeadCand) (going : Region × ℕ)
    → Spares r n going
    → Spares r n (elim cands as (λ _. Region × ℕ) [ [] ↦ (r, n) | c ∷ cs ↦ going ])
stop-Spares r n [] going a = Spares-refl r n
stop-Spares r n (c ∷ cs) going a = a

sweep_loop-Spares :
    (fuel : ℕ) (probe : ℕ → Bool) (r : Region) (scan : SweepScan) (cache : PidCache) (freed : ℕ)
    → Spares r freed (sweep_loop fuel probe r scan cache freed)
unfolding sweep_loop
sweep_loop-Spares zero probe r scan cache freed = Spares-refl r freed
sweep_loop-Spares (suc fuel) probe r scan cache freed =
    let out = next_chunk r scan in
    let judged = verdicts_of probe out.1 cache in
    let reaped = reap_dead_locked r out.1 judged.0 in
    let rest = sweep_loop fuel probe reaped.0 out.0 judged.1 (freed + reaped.1) in
    stop-Spares r freed out.1 rest (
      Spares-trans r reaped.0 rest.0 freed reaped.1 rest.1 (reap_dead-Spares out.1 judged.0 r)
        (sweep_loop-Spares fuel probe reaped.0 out.0 judged.1 (freed + reaped.1)))

pub sweep_dead_locked-spared :
    (probe : ℕ → Bool) (r : Region)
    → (sweep_dead_locked probe r).1 ≡ 0
    → AllSame r (sweep_dead_locked probe r).0
unfolding sweep_dead_locked
sweep_dead_locked-spared probe r e =
    let scan = scan_new r in
    (sweep_loop-Spares (unvisited scan + 1) probe r scan cache_new 0).spared e
