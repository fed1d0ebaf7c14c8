-- ===== src/Cas.antt =====
-- The compare-exchange loop that every lock-free operation of src/core.rs is written as:
--   loop { let w = ld64(w0); ... return ...; match cas64(w0, w, new) { Ok => ..., Err => continue } }
-- The other threads are the list of what they do to the word between one load and the
-- compare-exchange that follows it; a compare-exchange succeeds when the word has the value that was
-- loaded, changed back or not.
pub mod Linear
use ntsync_android.Base.{ℕ, List, [], ◌∷◌, ◌==◌, if◌then◌else◌}

-- One round of a loop: return without a write, or try to swap in a new word.
pub data Attempt (R : Type 0) : Type 0 where
  done : R → Attempt R
  swap : (new : ℕ) → R → Attempt R

module _ {R : Type 0} where
  -- The round as one atomic action: the word that it leaves, and what it returns.
  abbrev pub atomic : ℕ → Attempt R → ℕ × R
  atomic w (done r) = (w, r)
  atomic w (swap new r) = (new, r)

  unfoldable pub cas_loop : (ℕ → Attempt R) → List (ℕ → ℕ) → ℕ → ℕ × R
  cas_loop try [] w = atomic w (try w)
  cas_loop try (f ∷ fs) w =
      let retry = cas_loop try fs (f w) in
      elim (try w) [ done r ↦ (w, r) | swap new r ↦ if f w == w then (new, r) else retry ]
