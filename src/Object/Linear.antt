-- ===== src/Object/Linear.antt =====
-- The lock-free operations under interference: whatever the other threads do to the word while a
-- loop runs, as long as they keep the words of its type, the loop returns, and it is the kernel's
-- operation done at once at a moment in between (src/core.rs, lines 926-1061).
use ntsync_android.Base.{ℕ, zero, suc, ◌≤◌, ◌≡◌, List, [], ◌∷◌, length}
use ntsync_android.Cas.{Attempt, cas_loop}
use ntsync_android.Cas.Linear.{after, cas_loop-atomic}
use ntsync_android.Region.{Result}
use ntsync_android.Object.{Reply}
use ntsync_android.Object.Refines.{Implements}

abbrev pub AllKeep : (ℕ → Type 0) → List (ℕ → ℕ) → Type 0
AllKeep Ok [] = Unit
AllKeep Ok (f ∷ fs) = ((w : ℕ) → Ok w → Ok (f w)) × AllKeep Ok fs

pub after-keeps :
    (Ok : ℕ → Type 0) (n : ℕ) (fs : List (ℕ → ℕ)) (w : ℕ) → AllKeep Ok fs → Ok w → Ok (after n fs w)
unfolding after
after-keeps Ok zero fs w k h = h
after-keeps Ok (suc n) [] w k h = h
after-keeps Ok (suc n) (f ∷ fs) w k h = after-keeps Ok n fs (f w) k.1 (k.0 w h)

-- A loop took effect as `spec` on the object `of v`, where `v` is the word after the first `moment`
-- actions of the others; it left the word `w'` and returned `result`.
pub record TookEffect {A O : Type 0} (Ok : ℕ → Type 0) (of : ℕ → O) (spec : O → Result A × O)
    (fs : List (ℕ → ℕ)) (w : ℕ) (w' : ℕ) (result : Result A) : Type 0 where
  pub moment : ℕ
  pub in_time : moment ≤ length fs
  pub before : Ok (after moment fs w)
  pub kept : Ok w'
  pub returned : result ≡ (spec (of (after moment fs w))).0
  pub object : of w' ≡ (spec (of (after moment fs w))).1

pub loop-TookEffect :
    {A O : Type 0} (Ok : ℕ → Type 0) (of : ℕ → O) (try : ℕ → Attempt (Reply A))
    (spec : O → Result A × O)
    → Implements Ok of try spec
    → (fs : List (ℕ → ℕ)) (w : ℕ) → AllKeep Ok fs
    → Ok w
    → TookEffect Ok of spec fs w (cas_loop try fs w).0 (cas_loop try fs w).1.result
loop-TookEffect Ok of try spec imp fs w keep ok =
    let (n, le, e) = cas_loop-atomic try fs w in
    let v = after-keeps Ok n fs w keep ok in
    let (kept, result, object) = imp (after n fs w) v in
    rw e (record {
      moment = n;
      in_time = le;
      before = v;
      kept = kept;
      returned = result;
      object = object;
    })
