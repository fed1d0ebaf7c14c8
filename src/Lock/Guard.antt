-- ===== src/Lock/Guard.antt =====
-- What `lock_guard` of src/core.rs (lines 352-422) does with the lock and the signal mask.
use ntsync_android.Base.{
  ℕ, ◌≡◌, ◌≢◌, refl, Bool, true, false, if◌then◌else◌, ◌||◌, Option, some, none, List, [], ◌∷◌,
  ◌++◌, ◌⊎◌, inl, inr, arith, Bool-cases, ◌==◌,
}
use ntsync_android.Base.Int.{pos, neg}
use ntsync_android.Lock.{
  LockOutcome, locked, failed, waiting, eintr, etimedout, eownerdead, restore, lock_loop,
  lock_guard, drop_guard,
}

-- The calls that return these are made again.
abbrev pub AllTransient : List ℕ → Type 0
AllTransient [] = Unit
AllTransient (ret ∷ rets) = ((ret ≡ eintr) ⊎ (ret ≡ etimedout)) × AllTransient rets

-- How taking the lock ends for a thread whose mask was `mask` before and is `held` meanwhile.
pub data Guarded {Mask : Type 0} (mask held : Mask) (old_mask : Option Mask) (rets : List ℕ)
    (out : LockOutcome Mask) (mask' : Mask) : Type 0 where
  taken :
      (before : List ℕ) (ret : ℕ) (after : List ℕ)
      → rets ≡ before ++ ret ∷ after
      → AllTransient before
      → (ret ≡ 0) ⊎ (ret ≡ eownerdead)
      → out ≡ locked old_mask (ret == eownerdead)
      → mask' ≡ held
      → Guarded mask held old_mask rets out mask'
  refused :
      (before : List ℕ) (ret : ℕ) (after : List ℕ)
      → rets ≡ before ++ ret ∷ after
      → AllTransient before
      → ret ≢ 0
      → ret ≢ eownerdead
      → out ≡ failed (neg (pos ret))
      → mask' ≡ mask
      → Guarded mask held old_mask rets out mask'
  blocked :
      AllTransient rets → out ≡ waiting → mask' ≡ held → Guarded mask held old_mask rets out mask'

Guarded-cons :
    {Mask : Type 0} (mask held : Mask) (old_mask : Option Mask) (ret : ℕ) (rets : List ℕ)
    {out : LockOutcome Mask} {mask' : Mask}
    → (ret ≡ eintr) ⊎ (ret ≡ etimedout)
    → Guarded mask held old_mask rets out mask'
    → Guarded mask held old_mask (ret ∷ rets) out mask'
Guarded-cons mask held old_mask ret rets t (taken before last after e ts ok o m) =
    taken (ret ∷ before) last after (ground arith) (t, ts) ok o m
Guarded-cons mask held old_mask ret rets t (refused before last after e ts a b o m) =
    refused (ret ∷ before) last after (ground arith) (t, ts) a b o m
Guarded-cons mask held old_mask ret rets t (blocked ts o m) = blocked (t, ts) o m

module _ {Mask : Type 0} (with_sigusr1 : Mask → Mask) where
  lock_loop-Guarded :
      (rets : List ℕ) (old_mask : Option Mask) (held : Mask)
      → Guarded
          (restore with_sigusr1 old_mask held)
          held
          old_mask
          rets
          (lock_loop with_sigusr1 rets old_mask held).0
          (lock_loop with_sigusr1 rets old_mask held).1
  unfolding lock_loop
  lock_loop-Guarded [] old_mask held = blocked tt refl refl
  lock_loop-Guarded (ret ∷ rets) old_mask held =
      let rest = lock_loop-Guarded rets old_mask held in
      elim (Bool-cases (ret == 0 || ret == eownerdead)) [
        | inl got ↦ rw got (taken [] ret rets refl tt (ground arith) refl refl)
        | inr n ↦ elim (Bool-cases (ret == etimedout)) [
          | inl late ↦
              rw (n, late)
                (Guarded-cons (restore with_sigusr1 old_mask held) held old_mask ret rets
                  (ground arith) rest)
          | inr k ↦ elim (Bool-cases (ret == eintr)) [
            | inl hit ↦
                rw (n, k, hit)
                  (Guarded-cons (restore with_sigusr1 old_mask held) held old_mask ret rets
                    (ground arith) rest)
            | inr l ↦
                rw (n, k, l) (refused [] ret rets refl tt (ground arith) (ground arith) refl refl)
          ]
        ]
      ]

  -- The mask while the lock is held: SIGUSR1 is blocked, unless the blocking is switched off.
  abbrev pub held_mask : (sigusr1_block_enabled : Bool) → Mask → Mask
  held_mask block mask = if block then with_sigusr1 mask else mask

  -- The mask that the guard keeps to restore, if it changed it.
  abbrev pub kept_mask : (sigusr1_block_enabled : Bool) → Mask → Option Mask
  kept_mask block mask = if block then some mask else none

  -- Taking the region lock repeats the calls that are interrupted or time out. At the first other return
  -- it either holds the lock, made consistent if its last holder died, with SIGUSR1 blocked if the blocking
  -- is enabled and the mask as it was if not; or it fails with the error negated and has the signal mask
  -- back as it was. Dropping the guard gives the mask back.
  pub lock_guard-Guarded :
      (block : Bool) (rets : List ℕ) (mask : Mask)
      → Guarded mask
          (held_mask block mask)
          (kept_mask block mask)
          rets
          (lock_guard with_sigusr1 block rets mask).0
          (lock_guard with_sigusr1 block rets mask).1
        × (drop_guard with_sigusr1 (kept_mask block mask) (held_mask block mask) ≡ mask)
  unfolding lock_guard drop_guard
  lock_guard-Guarded true rets mask = (lock_loop-Guarded rets (some mask) (with_sigusr1 mask), refl)
  lock_guard-Guarded false rets mask = (lock_loop-Guarded rets none mask, refl)
