-- ===== src/Sweep.antt =====
-- src/core.rs, lines 1827-2068: the sweep that reaps the objects and the waiter nodes of dead
-- processes. Every function here but the liveness probes runs with the region lock held.
pub mod Cache
pub mod Reap
pub mod Auto
pub mod Pace
pub mod Frees
pub mod Freed
pub mod Visits
pub mod Held
use ntsync_android.Base.{
  ℕ, zero, suc, ◌+◌, ◌-◌, ◌/◌, ◌%◌, ◌^◌, min, Bool, true, false, not, ◌&&◌, Option, none, some,
  List, [], ◌∷◌, ◌++◌, length, ◌==◌, ltb, if◌then◌else◌, update,
}
use ntsync_android.Region.{
  Region, Slot, WaitNode, set_slot, slot_free, slot_used, slot_count, node_count, max_holders,
  holder_overflow,
}
use ntsync_android.Holder.{cap_of}
use ntsync_android.Waiter.{node_detach, node_free, wake_object}

-- `probe` stands for `kill(pid, 0)`.
unfoldable pub pid_alive : (probe : ℕ → Bool) → ℕ → Bool
pid_alive probe pid = if pid == 0 then false else probe pid

pub record DeadCand : Type 0 where
  pub node : Bool
  pub index : ℕ
  pub pid : ℕ
  pub generation : ℕ
  pub holders : ℕ → ℕ
  pub holders_len : ℕ

abbrev pub node_cand : (index pid : ℕ) → DeadCand
node_cand index pid = record {
  node = true;
  index = index;
  pid = pid;
  generation = 0;
  holders = λ _. 0;
  holders_len = 0;
}

abbrev pub slot_cand : ℕ → Slot → DeadCand
slot_cand index s = record {
  node = false;
  index = index;
  pid = s.pid;
  generation = s.generation;
  holders = s.holders;
  holders_len = s.holders_len;
}

abbrev pub sweep_chunk : ℕ
sweep_chunk = 256

pub record SweepScan : Type 0 where
  pub node_hi : ℕ
  pub slot_hi : ℕ
  pub next_node : ℕ
  pub next_slot : ℕ

-- `next_scan & SCAN_WRAPPED` is the top bit.
unfoldable pub scan_new : Region → SweepScan
scan_new r = record {
  node_hi = min r.header.node_fresh node_count;
  slot_hi = if r.header.next_scan / 2 ^ 31 % 2 == 0 then r.header.next_scan else slot_count;
  next_node = 0;
  next_slot = 0;
}

-- What one round of the scan's loop finds at a node and at a slot.
abbrev pub node_find : Region → ℕ → List DeadCand
node_find r i = if (r.nodes i).registered == 0 then [] else node_cand i (r.nodes i).pid ∷ []

abbrev pub slot_find : Region → ℕ → List DeadCand
slot_find r i =
    let s = r.slots i in if s.state == slot_used && not (s.pid == 0) then slot_cand i s ∷ [] else []

-- The `while` of `next_chunk`; each round visits a node or a slot, so that `left`, the number of
-- those not visited yet, bounds the rounds.
unfoldable pub chunk_loop :
    (left : ℕ) → Region → SweepScan → List DeadCand → SweepScan × List DeadCand
chunk_loop zero r s out = (s, out)
chunk_loop (suc left) r s out =
    let at_node =
      chunk_loop left r (record s { next_node = s.next_node + 1 })
        (out ++ node_find r s.next_node) in
    let at_slot =
      chunk_loop left r (record s { next_slot = s.next_slot + 1 })
        (out ++ slot_find r s.next_slot) in
    if ltb (length out) sweep_chunk
    then (if ltb s.next_node s.node_hi
        then at_node
        else if ltb s.next_slot s.slot_hi
        then at_slot
        else (s, out))
    else (s, out)

abbrev pub unvisited : SweepScan → ℕ
unvisited s = (s.node_hi - s.next_node) + (s.slot_hi - s.next_slot)

unfoldable pub next_chunk : Region → SweepScan → SweepScan × List DeadCand
unfolding chunk_loop
next_chunk r s = chunk_loop (unvisited s + 1) r s []

abbrev pub pid_cache : ℕ
pid_cache = 32

pub record PidCache : Type 0 where
  pub pid : ℕ → ℕ
  pub alive : ℕ → Bool
  pub next : ℕ

unfoldable pub cache_new : PidCache
cache_new = record { pid = λ _. 0; alive = λ _. false; next = 0 }

-- `for i in 0..PID_CACHE { if self.pid[i] == pid { return self.alive[i] } }`
unfoldable pub cache_find : (left i : ℕ) → PidCache → ℕ → Option Bool
cache_find zero i c pid = none
cache_find (suc left) i c pid =
    let rest = cache_find left (i + 1) c pid in if c.pid i == pid then some (c.alive i) else rest

unfoldable pub cache_alive : (probe : ℕ → Bool) → PidCache → ℕ → Bool × PidCache
cache_alive probe c pid = if pid == 0 then (false, c) else elim (cache_find pid_cache 0 c pid) [
  | some b ↦ (b, c)
  | none ↦
      let b = pid_alive probe pid in
      (
        b,
        record {
          next = (c.next + 1) % pid_cache;
          pid = update c.pid c.next pid;
          alive = update c.alive c.next b;
        },
      )
]

-- The holders of a candidate, one by one, up to the first that is alive.
unfoldable pub holders_alive :
    (probe : ℕ → Bool) → (left i : ℕ) → (ℕ → ℕ) → PidCache → Bool × PidCache
holders_alive probe zero i holders c = (false, c)
holders_alive probe (suc left) i holders c =
    let (b, c') = cache_alive probe c (holders i) in
    let skip = holders_alive probe left (i + 1) holders c in
    let rest = holders_alive probe left (i + 1) holders c' in
    if holders i == 0 then skip else if b then (true, c') else rest

unfoldable pub cand_alive : (probe : ℕ → Bool) → DeadCand → PidCache → Bool × PidCache
cand_alive probe c cache =
    let (b, cache') = cache_alive probe cache c.pid in
    let rest = holders_alive probe (cap_of c.holders_len) 0 c.holders cache' in
    if b then (true, cache') else rest

-- `(*slot).holders == c.holders`, on the `max_holders` cells.
unfoldable pub holders_eq : (left : ℕ) → (ℕ → ℕ) → (ℕ → ℕ) → Bool
holders_eq zero f g = true
holders_eq (suc n) f g = (f n == g n) && holders_eq n f g

-- A candidate that is found dead is checked again before it is reaped.
unfoldable pub still_slot : Region → DeadCand → Bool
still_slot r c =
    let s = r.slots c.index in
    (s.state == slot_used)
    && (s.pid == c.pid)
    && (s.generation == c.generation)
    && (s.holders_len == c.holders_len)
    && holders_eq max_holders s.holders c.holders
    && (s.holders_len / 2 ^ 31 % 2 == 0)

unfoldable pub reap_one : Region → DeadCand → Region × ℕ
reap_one r c =
    if c.node
    then (if not ((r.nodes c.index).registered == 0) && (r.nodes c.index).pid == c.pid
        then (node_free (node_detach r c.index) c.index, 0)
        else (r, 0))
    else if still_slot r c
    then (let s = r.slots c.index in
        let freed = record s { state = slot_free; generation = (s.generation + 1) % 2 ^ 32 } in
        (wake_object (set_slot r c.index freed) c.index, 1))
    else (r, 0)

-- `cands.iter().zip(alive.iter())`
unfoldable pub reap_dead_locked : Region → List DeadCand → List Bool → Region × ℕ
reap_dead_locked r [] alive = (r, 0)
reap_dead_locked r (c ∷ cs) [] = (r, 0)
reap_dead_locked r (c ∷ cs) (b ∷ bs) =
    let (r', n) = if b then (r, 0) else reap_one r c in
    let (r'', m) = reap_dead_locked r' cs bs in (r'', n + m)

-- `cands.iter().map(|c| cand_alive(c, &mut cache))`
unfoldable pub verdicts_of : (probe : ℕ → Bool) → List DeadCand → PidCache → List Bool × PidCache
verdicts_of probe [] cache = ([], cache)
verdicts_of probe (c ∷ cs) cache =
    let (b, cache') = cand_alive probe c cache in
    let (bs, cache'') = verdicts_of probe cs cache' in (b ∷ bs, cache'')

-- The `loop` of `sweep_dead_locked`; a chunk that is not empty visits a node or a slot.
unfoldable pub sweep_loop :
    (fuel : ℕ) → (probe : ℕ → Bool) → Region → SweepScan → PidCache → (freed : ℕ) → Region × ℕ
sweep_loop zero probe r scan cache freed = (r, freed)
sweep_loop (suc fuel) probe r scan cache freed =
    let (scan', cands) = next_chunk r scan in
    let (bs, cache') = verdicts_of probe cands cache in
    let (r', n) = reap_dead_locked r cands bs in
    let rest = sweep_loop fuel probe r' scan' cache' (freed + n) in
    elim cands [ [] ↦ (r, freed) | c ∷ cs ↦ rest ]

unfoldable pub sweep_dead_locked : (probe : ℕ → Bool) → Region → Region × ℕ
unfolding sweep_loop
sweep_dead_locked probe r =
    let scan = scan_new r in sweep_loop (unvisited scan + 1) probe r scan cache_new 0
