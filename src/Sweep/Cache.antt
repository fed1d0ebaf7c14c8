-- ===== src/Sweep/Cache.antt =====
-- `PidCache` and `cand_alive` of src/core.rs (lines 1942-1996): the verdicts are those of `pid_alive`,
-- whatever the cache has seen.
use ntsync_android.Base.{
  ℕ, zero, suc, ◌+◌, ◌%◌, ◌≡◌, ◌≢◌, refl, Bool, true, false, ◌||◌, some, List, [], ◌∷◌, map, arith,
  ◌==◌, Option-cases, Bool-cases, inl, inr, update,
}
use ntsync_android.Holder.{cap_of}
use ntsync_android.Sweep.{
  pid_alive, PidCache, cache_new, cache_find, cache_alive, holders_alive, cand_alive, DeadCand,
  verdicts_of, pid_cache,
}

-- Every entry in use holds the verdict for its pid.
pub record IsValid (probe : ℕ → Bool) (c : PidCache) : Type 0 where
  pub entry : (i : ℕ) → c.pid i ≢ 0 → c.alive i ≡ pid_alive probe (c.pid i)

-- Whether one of the holders from the `i`-th on is alive.
abbrev pub any_alive : (probe : ℕ → Bool) → (left i : ℕ) → (ℕ → ℕ) → Bool
any_alive probe zero i holders = false
any_alive probe (suc left) i holders =
    pid_alive probe (holders i) || any_alive probe left (i + 1) holders

-- Whether the creator of a candidate or one of its holders is alive.
abbrev pub owned : (probe : ℕ → Bool) → (pid holders_len : ℕ) → (ℕ → ℕ) → Bool
owned probe pid holders_len holders =
    pid_alive probe pid || any_alive probe (cap_of holders_len) 0 holders

module _ (probe : ℕ → Bool) where
  pub cache_new-IsValid : IsValid probe cache_new
  unfolding cache_new
  cache_new-IsValid = record { entry = λ i h. absurd (h refl) }

  cache_find-eq :
      (left i : ℕ) (c : PidCache) (pid : ℕ) {b : Bool}
      → IsValid probe c
      → pid ≢ 0
      → cache_find left i c pid ≡ some b
      → b ≡ pid_alive probe pid
  unfolding cache_find
  cache_find-eq zero i c pid v ne e = cc
  cache_find-eq (suc left) i c pid v ne e = elim (Bool-cases (c.pid i == pid)) [
    | inl hit ↦ ground (arith, v.entry i)
    | inr miss ↦ cache_find-eq left (i + 1) c pid v ne (rw miss at e)
  ]

  pid_alive-zero : (pid : ℕ) → (pid == 0) ≡ true → false ≡ pid_alive probe pid
  unfolding pid_alive
  pid_alive-zero pid z = ground arith

  remember-IsValid :
      (c : PidCache) (pid : ℕ)
      → IsValid probe c
      → IsValid probe (record {
        pid = update c.pid c.next pid;
        alive = update c.alive c.next (pid_alive probe pid);
        next = (c.next + 1) % pid_cache;
      })
  remember-IsValid c pid v = record { entry = λ i h. ground (arith, v.entry i) }

  pub cache_alive-eq :
      (c : PidCache) (pid : ℕ)
      → IsValid probe c
      → ((cache_alive probe c pid).0 ≡ pid_alive probe pid)
        × IsValid probe (cache_alive probe c pid).1
  unfolding cache_alive
  cache_alive-eq c pid v = elim (Bool-cases (pid == 0)) [
    | inl z ↦ rw z (pid_alive-zero pid z, v)
    | inr nz ↦ elim (Option-cases (cache_find pid_cache 0 c pid)) [
      | inr (b, hit) ↦ rw (nz, hit) (cache_find-eq pid_cache 0 c pid v (ground arith) hit, v)
      | inl miss ↦ rw (nz, miss) (refl, remember-IsValid c pid v)
    ]
  ]

  holders_alive-eq :
      (left i : ℕ) (holders : ℕ → ℕ) (c : PidCache)
      → IsValid probe c
      → ((holders_alive probe left i holders c).0 ≡ any_alive probe left i holders)
        × IsValid probe (holders_alive probe left i holders c).1
  unfolding holders_alive
  holders_alive-eq zero i holders c v = (refl, v)
  holders_alive-eq (suc left) i holders c v =
      let (e, w) = cache_alive-eq c (holders i) v in
      let skip = holders_alive-eq left (i + 1) holders c v in
      let rest = holders_alive-eq left (i + 1) holders (cache_alive probe c (holders i)).1 w in
      elim (Bool-cases (holders i == 0)) [
        | inl z ↦ rw (z, ← pid_alive-zero (holders i) z) skip
        | inr nz ↦ elim (Bool-cases (pid_alive probe (holders i))) [
          | inl live ↦ rw (nz, e, live) (refl, w)
          | inr dead ↦ rw (nz, e, dead) rest
        ]
      ]

  -- The verdict on a candidate is whether its creator or one of its recorded holders is alive,
  -- whatever a valid cache holds, and the cache stays valid.
  pub cand_alive-owned :
      (c : DeadCand) (cache : PidCache)
      → IsValid probe cache
      → ((cand_alive probe c cache).0 ≡ owned probe c.pid c.holders_len c.holders)
        × IsValid probe (cand_alive probe c cache).1
  unfolding cand_alive
  cand_alive-owned c cache v =
      let (e, w) = cache_alive-eq cache c.pid v in
      let rest =
        holders_alive-eq (cap_of c.holders_len) 0 c.holders (cache_alive probe cache c.pid).1 w in
      elim (Bool-cases (pid_alive probe c.pid)) [
        | inl live ↦ rw (e, live) (refl, w)
        | inr dead ↦ rw (e, dead) rest
      ]

  abbrev pub owned_cand : DeadCand → Bool
  owned_cand c = owned probe c.pid c.holders_len c.holders

  pub verdicts_of-eq :
      (cands : List DeadCand) (cache : PidCache)
      → IsValid probe cache
      → ((verdicts_of probe cands cache).0 ≡ map owned_cand cands)
        × IsValid probe (verdicts_of probe cands cache).1
  unfolding verdicts_of
  verdicts_of-eq [] cache v = (refl, v)
  verdicts_of-eq (c ∷ cs) cache v =
      let (e, w) = cand_alive-owned c cache v in
      let (es, w') = verdicts_of-eq cs (cand_alive probe c cache).1 w in (ground arith, w')
