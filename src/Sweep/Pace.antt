-- ===== src/Sweep/Pace.antt =====
-- What `auto_sweep_dead` of src/core.rs (lines 2239-2307) keeps, with other processes acting in between.
use ntsync_android.Base.{
  ℕ, zero, suc, ◌+◌, ◌-◌, ◌/◌, ◌%◌, ◌^◌, ◌≤◌, ◌<◌, ◌≡◌, refl, Bool, true, false, List, [], ◌∷◌, map,
  ◌∙◌, arith, ◌==◌, Bool-cases, inl, inr, ◌⊎◌, if◌then◌else◌, not, if_both,
}
use ntsync_android.Region.{Region, Slot, set_slot, slot_used}
use ntsync_android.Waiter.{node_detach}
use ntsync_android.Waiter.Slots.{
  SameObject, SameObject-refl, SameObject-trans, node_detach-sweep_ns, node_free-sweep_ns,
  wake_object-sweep_ns,
}
use ntsync_android.Sweep.{
  DeadCand, SweepScan, PidCache, next_chunk, unvisited, reap_one, reap_dead_locked, scan_new,
  cache_new, verdicts_of,
}
use ntsync_android.Sweep.Cache.{IsValid, cache_new-IsValid, verdicts_of-eq, owned, owned_cand}
use ntsync_android.Sweep.Freed.{freed_slot, reap_dead-Freed}
use ntsync_android.Sweep.Reap.{Kept, reap_dead-SameObject}
use ntsync_android.Sweep.Auto.{Meanwhile, auto_loop, auto_sweep, auto_sweep_dead, claim, too_soon}

-- What holds of each way that the loop goes on holds of the loop: at an empty chunk, with the lock taken
-- again, and without.
ends_each :
    (P : Region → Type 0) (cands : List DeadCand) (relocked : Bool) (ended going left : Region × ℕ)
    → P ended.0
    → P going.0
    → P left.0
    → P
        (elim cands as (λ _. Region × ℕ) [
          | [] ↦ ended
          | c ∷ cs ↦ if relocked then going else left
        ]).0
ends_each P [] b ended going left e g l = e
ends_each P (c ∷ cs) true ended going left e g l = g
ends_each P (c ∷ cs) false ended going left e g l = l

-- No creator and no recorded holder of the slot is alive, and its list of holders did not spill.
abbrev pub Unowned : (probe : ℕ → Bool) → Slot → Type 0
Unowned probe s =
    (owned probe s.pid s.holders_len s.holders ≡ false) × (s.holders_len / 2 ^ 31 % 2 ≡ 0)

Kept-cases : (probe : ℕ → Bool) (s : Slot) → Kept probe s ⊎ Unowned probe s
Kept-cases probe s = elim (Bool-cases (owned probe s.pid s.holders_len s.holders)) [
  | inl live ↦ inl (inl live)
  | inr dead ↦ elim (Bool-cases (s.holders_len / 2 ^ 31 % 2 == 0)) [
    | inl fits ↦ inr (dead, ground arith)
    | inr spilled ↦ inl (inr (ground arith))
  ]
]

module _ (m : Meanwhile) (i : ℕ) where
  -- How the slot `i` comes from `s` to `t`: it is left as it is, the others act on it while the lock is given
  -- up, or its object is freed at a moment when that object is unowned.
  pub data Swept (s : Slot) : Slot → Type 0 where
    kept : {t : Slot} → SameObject t s → Swept s t
    acted :
        {t : Slot} (k : ℕ) (r : Region)
        → Swept s (r.slots i)
        → SameObject t ((m.others k r).slots i)
        → Swept s t
    reaped :
        {t : Slot} (u : Slot)
        → Swept s u
        → u.state ≡ slot_used
        → Unowned m.probe u
        → SameObject t (freed_slot u)
        → Swept s t

  Swept-of_same : {s t u : Slot} → SameObject u t → Swept s t → Swept s u
  Swept-of_same e (kept f) = kept (SameObject-trans e f)
  Swept-of_same e (acted k r h f) = acted k r h (SameObject-trans e f)
  Swept-of_same e (reaped u h used n f) = reaped u h used n (SameObject-trans e f)

  reap_dead-Swept :
      (s : Slot) (cs : List DeadCand) (r : Region)
      → Swept s (r.slots i)
      → Swept s ((reap_dead_locked r cs (map (owned_cand m.probe) cs)).0.slots i)
  reap_dead-Swept s cs r h = elim (Kept-cases m.probe (r.slots i)) [
    | inl keep ↦ Swept-of_same (reap_dead-SameObject m.probe i cs r keep) h
    | inr dead ↦ elim (reap_dead-Freed i cs (map (owned_cand m.probe) cs) r) [
      | inl same ↦ Swept-of_same same h
      | inr (used, f) ↦ reaped (r.slots i) h used dead f
    ]
  ]

  auto_loop-Swept :
      (s : Slot) (left : ℕ) (r : Region) (scan : SweepScan) (cache : PidCache) (freed : ℕ)
      → IsValid m.probe cache
      → Swept s (r.slots i)
      → Swept s ((auto_loop left m r scan cache freed).0.slots i)
  unfolding auto_loop
  auto_loop-Swept s zero r scan cache freed v h = h
  auto_loop-Swept s (suc left) r scan cache freed v h =
      let out = next_chunk r scan in
      let judged = verdicts_of m.probe out.1 cache in
      let (verdicts, valid) = verdicts_of-eq m.probe out.1 cache v in
      let r1 = m.others left r in
      let given_up = acted left r h (SameObject-refl (r1.slots i)) in
      let reap = reap_dead_locked r1 out.1 judged.0 in
      let after : Swept s (reap.0.slots i) = rw verdicts (reap_dead-Swept s out.1 r1 given_up) in
      let rest = auto_loop-Swept s left reap.0 out.0 judged.1 (freed + reap.1) valid after in
      ends_each (λ r'. Swept s (r'.slots i)) out.1 (m.relock_ok left) (r, freed)
        (auto_loop left m reap.0 out.0 judged.1 (freed + reap.1)) (r1, freed) h rest given_up

  -- The rate-limited sweep, which gives the lock up while it asks who is alive, touches an object only to free
  -- it, and only at a moment when its creator and its recorded holders are dead and its list of holders did
  -- not spill, whatever the others do to the slot between the scan and the reaping, such as closing it
  -- and making one of a living process in its slot.
  pub auto_sweep_dead-Swept :
      (calls : ℕ) (r : Region) → Swept (r.slots i) ((auto_sweep_dead calls m r).1.slots i)
  unfolding auto_sweep_dead auto_sweep
  auto_sweep_dead-Swept calls r =
      let claimed = claim m.now_locked r in
      let scan = scan_new claimed in
      let start : Swept (r.slots i) (r.slots i) = kept (SameObject-refl (r.slots i)) in
      let swept =
        auto_loop-Swept (r.slots i) (unvisited scan + 1) claimed scan cache_new 0
          (cache_new-IsValid m.probe) start in
      let Comes = λ (r' : Region). Swept (r.slots i) (r'.slots i) in
      if_both Comes (not (calls % 256 == 0)) start (
        if_both Comes (m.interval == 0) start (
          if_both Comes (too_soon m.now m.interval r) start (
            if_both Comes (not m.lock_ok) start
              (if_both Comes (too_soon m.now_locked m.interval r) start swept))))

-- Reaping leaves the time of the last sweep.
reap_one-sweep_ns :
    (r : Region) (c : DeadCand) → (reap_one r c).0.header.sweep_ns ≡ r.header.sweep_ns
unfolding reap_one
reap_one-sweep_ns r c =
    let s = r.slots c.index in
    let freed : Slot = record s { state = 0; generation = (s.generation + 1) % 2 ^ 32 } in
    let woken = wake_object-sweep_ns (set_slot r c.index freed) c.index in
    let detached = node_detach-sweep_ns r c.index in
    let given_back = node_free-sweep_ns (node_detach r c.index) c.index in ground arith

reap_dead-sweep_ns :
    (r : Region) (cs : List DeadCand) (verdicts : List Bool)
    → (reap_dead_locked r cs verdicts).0.header.sweep_ns ≡ r.header.sweep_ns
unfolding reap_dead_locked
reap_dead-sweep_ns r [] verdicts = refl
reap_dead-sweep_ns r (c ∷ cs) [] = refl
reap_dead-sweep_ns r (c ∷ cs) (true ∷ bs) = reap_dead-sweep_ns r cs bs
reap_dead-sweep_ns r (c ∷ cs) (false ∷ bs) =
    reap_dead-sweep_ns (reap_one r c).0 cs bs ∙ reap_one-sweep_ns r c

auto_loop-sweep_ns :
    (m : Meanwhile) (left : ℕ) (r : Region) (scan : SweepScan) (cache : PidCache) (freed : ℕ)
    → ((k : ℕ) (r : Region) → (m.others k r).header.sweep_ns ≡ r.header.sweep_ns)
    → (auto_loop left m r scan cache freed).0.header.sweep_ns ≡ r.header.sweep_ns
unfolding auto_loop
auto_loop-sweep_ns m zero r scan cache freed same = refl
auto_loop-sweep_ns m (suc left) r scan cache freed same =
    let out = next_chunk r scan in
    let judged = verdicts_of m.probe out.1 cache in
    let r1 = m.others left r in
    let reaped = reap_dead_locked r1 out.1 judged.0 in
    let rest = auto_loop-sweep_ns m left reaped.0 out.0 judged.1 (freed + reaped.1) same in
    let one = reap_dead-sweep_ns r1 out.1 judged.0 in
    let kept = same left r in
    ends_each (λ r'. r'.header.sweep_ns ≡ r.header.sweep_ns) out.1 (m.relock_ok left) (r, freed)
      (auto_loop left m reaped.0 out.0 judged.1 (freed + reaped.1)) (r1, freed) refl
      (rest ∙ one ∙ kept) kept

-- A call of the rate-limited sweep either changes nothing, or it is a 256th call of its thread, with
-- sweeping on, that comes an interval after the last sweep of any process, and it makes its own time
-- that of the last sweep; if no other process sweeps while it has given the lock up.
pub auto_sweep_dead-paced :
    (m : Meanwhile) (calls : ℕ) (r : Region)
    → ((k : ℕ) (r : Region) → (m.others k r).header.sweep_ns ≡ r.header.sweep_ns)
    → ((auto_sweep_dead calls m r).1 ≡ r)
      ⊎ ((calls % 256 ≡ 0)
          × (0 < m.interval)
          × (m.interval ≤ m.now_locked - r.header.sweep_ns)
          × ((auto_sweep_dead calls m r).1.header.sweep_ns ≡ m.now_locked))
unfolding auto_sweep_dead auto_sweep
auto_sweep_dead-paced m calls r same =
    let claimed = claim m.now_locked r in
    let scan = scan_new claimed in
    let ns = auto_loop-sweep_ns m (unvisited scan + 1) claimed scan cache_new 0 same in
    elim (Bool-cases (not (calls % 256 == 0))) [
      | inl off ↦ inl (rw off refl)
      | inr on ↦ elim (Bool-cases (m.interval == 0)) [
        | inl never ↦ inl (rw (on, never) refl)
        | inr interval ↦ elim (Bool-cases (too_soon m.now m.interval r)) [
          | inl soon ↦ inl (ground arith)
          | inr later ↦ elim (Bool-cases (not m.lock_ok)) [
            | inl unlocked ↦ inl (ground arith)
            | inr locked ↦ elim (Bool-cases (too_soon m.now_locked m.interval r)) [
              | inl soon ↦ inl (ground arith)
              | inr due ↦ inr (ground arith, ground arith, ground arith, ground arith)
            ]
          ]
        ]
      ]
    ]
