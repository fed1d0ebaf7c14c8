-- ===== src/Cas/Linear.antt =====
-- A compare-exchange loop is one atomic action (the `cas64` loops of src/core.rs).
use ntsync_android.Base.{
  ℕ, zero, suc, ◌≤◌, ◌≡◌, refl, List, [], ◌∷◌, arith, length, ◌==◌, true, false, Bool,
}
use ntsync_android.Cas.{Attempt, done, swap, atomic, cas_loop}

-- The word after the first `n` actions of the other threads.
unfoldable pub after : ℕ → List (ℕ → ℕ) → ℕ → ℕ
after zero fs w = w
after (suc n) [] w = w
after (suc n) (f ∷ fs) w = after n fs (f w)

module _ {R : Type 0} (try : ℕ → Attempt R) where
  -- Whatever finitely many actions the other threads make on the word, the compare-exchange loop
  -- returns, and what it does is one round done at once at a moment between two of their actions.
  pub cas_loop-atomic :
      (fs : List (ℕ → ℕ)) (w : ℕ)
      → (n : ℕ) × (n ≤ length fs) × (cas_loop try fs w ≡ atomic (after n fs w) (try (after n fs w)))
  unfolding cas_loop after
  cas_loop-atomic [] w = (0, omega arith, refl)
  cas_loop-atomic (f ∷ fs) w =
      let (n, le, e) = cas_loop-atomic fs (f w) in split (try w) refl (f w == w) refl n le e
    where
      split :
          (a : Attempt R)
          → try w ≡ a
          → (b : Bool) → (f w == w) ≡ b
          → (n : ℕ) → n ≤ length fs
          → cas_loop try fs (f w) ≡ atomic (after n fs (f w)) (try (after n fs (f w)))
          → (n : ℕ) × (n ≤ length (f ∷ fs))
            × (cas_loop try (f ∷ fs) w ≡ atomic (after n (f ∷ fs) w) (try (after n (f ∷ fs) w)))
      split (done r) t b c n le e = (0, omega arith, ground arith)
      split (swap new r) t true c n le e = (0, omega arith, ground arith)
      split (swap new r) t false c n le e = (suc n, omega arith, ground arith)
