-- ===== src/Sweep/Auto.antt =====
-- `auto_sweep_dead` of src/core.rs (lines 2067-2081 and 2239-2307), the rate-limited sweep of a waiting
-- thread. It gives the region lock up while it asks which candidates are alive, so that other processes
-- act between a chunk and its reaping.
use ntsync_android.Base.{
  ℕ, zero, suc, ◌+◌, ◌-◌, ◌*◌, ◌%◌, ◌^◌, Bool, not, Option, none, some, [], ◌∷◌, ◌==◌, ltb,
  if◌then◌else◌,
}
use ntsync_android.Region.{Region, set_header}
use ntsync_android.Sweep.{
  SweepScan, PidCache, next_chunk, unvisited, reap_dead_locked, verdicts_of, scan_new, cache_new,
}

-- What `NTSYNC_SWEEP_INTERVAL_SEC` parses to, if it does, as nanoseconds on `u64`.
unfoldable pub sweep_interval_ns : Option ℕ → ℕ
sweep_interval_ns none = 30 * 1000000000
sweep_interval_ns (some secs) = secs * 1000000000 % 2 ^ 64

-- What a call meets: the clock before and under the lock, whether the lock is taken, and for each chunk
-- what the others do while the lock is given up and whether it is taken again.
pub record Meanwhile : Type 0 where
  pub interval : ℕ
  pub now : ℕ
  pub now_locked : ℕ
  pub lock_ok : Bool
  pub probe : ℕ → Bool
  pub others : ℕ → Region → Region
  pub relock_ok : ℕ → Bool

-- The `loop`, with `left` chunks to come at most.
unfoldable pub auto_loop :
    (left : ℕ) → Meanwhile → Region → SweepScan → PidCache → (freed : ℕ) → Region × ℕ
auto_loop zero m r scan cache freed = (r, freed)
auto_loop (suc left) m r scan cache freed =
    let (scan', cands) = next_chunk r scan in
    let (verdicts, cache') = verdicts_of m.probe cands cache in
    let r1 = m.others left r in
    let (r2, n) = reap_dead_locked r1 cands verdicts in
    let rest = auto_loop left m r2 scan' cache' (freed + n) in
    elim cands [ [] ↦ (r, freed) | c ∷ cs ↦ if m.relock_ok left then rest else (r1, freed) ]

-- `now.saturating_sub(sweep_ns) < interval`
abbrev pub too_soon : (now interval : ℕ) → Region → Bool
too_soon now interval r = ltb (now - r.header.sweep_ns) interval

abbrev pub claim : (now : ℕ) → Region → Region
claim now r = let h = r.header in set_header r (record h { sweep_ns = now })

-- From the check of the interval on.
unfoldable pub auto_sweep : Meanwhile → Region → Region
auto_sweep m r =
    let claimed = claim m.now_locked r in
    let scan = scan_new claimed in
    let (swept, freed) = auto_loop (unvisited scan + 1) m claimed scan cache_new 0 in
    if m.interval == 0
    then r
    else if too_soon m.now m.interval r
    then r
    else if not m.lock_ok
    then r
    else if too_soon m.now_locked m.interval r
    then r
    else swept

-- `calls` is the thread-local `CALLS`: every 256th call goes on.
unfoldable pub auto_sweep_dead : (calls : ℕ) → Meanwhile → Region → ℕ × Region
auto_sweep_dead calls m r =
    let swept = auto_sweep m r in (calls + 1, (if not (calls % 256 == 0) then r else swept))
