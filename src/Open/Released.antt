-- ===== src/Open/Released.antt =====
-- What an attempt to open the region file (src/core.rs, lines 642-734) leaves behind on every path.
use ntsync_android.Base.{ℕ, ◌≡◌, ◌⊎◌, Bool, true, false, List, [], ◌∷◌, arith}
use ntsync_android.Region.{Region, init_region}
use ntsync_android.Open.{
  Answers, OsResult, done, failed, SysCall, opened, flocked, truncated, mapped, initialized,
  unmapped, unlocked, closed, layout_matches, map_and_check, try_open_and_map,
}

-- What the calls so far hold: the descriptor, the file lock, the mapping.
pub record Holding : Type 0 where
  pub descriptor : Bool
  pub lock : Bool
  pub mapping : Bool
  pub written : Bool

abbrev pub nothing : Holding
nothing = record { descriptor = false; lock = false; mapping = false; written = false }

abbrev pub after_call : Holding → SysCall → Holding
after_call h opened = record h { descriptor = true }
after_call h flocked = record h { lock = true }
after_call h truncated = record h { written = true }
after_call h mapped = record h { mapping = true }
after_call h initialized = record h { written = true }
after_call h unmapped = record h { mapping = false }
after_call h unlocked = record h { lock = false }
after_call h closed = record h { descriptor = false }

abbrev pub after_calls : Holding → List SysCall → Holding
after_calls h [] = h
after_calls h (c ∷ cs) = after_calls (after_call h c) cs

abbrev pub is_done : OsResult Region → Bool
is_done (done r) = true
is_done (failed e) = false

-- Which region an attempt returns.
abbrev pub Returns : Answers → (region_size : ℕ) → OsResult Region → Type 0
Returns a region_size (failed e) = Unit
Returns a region_size (done r) =
    ((a.size ≡ 0) × (r ≡ init_region))
    ⊎ ((a.size ≡ region_size) × (layout_matches a.header ≡ true) × (r ≡ a.contents))

-- Every attempt to open the region file gives the descriptor and the file lock back, and keeps the
-- mapping exactly when it succeeds; it writes only to an empty file; and the region that it returns is
-- the initial one in an empty file, or what stands in a file of the right size and layout.
pub try_open_and_map-Returns :
    (region_size : ℕ) (a : Answers)
    → ((after_calls nothing (try_open_and_map region_size a).1).descriptor ≡ false)
      × ((after_calls nothing (try_open_and_map region_size a).1).lock ≡ false)
      × ((after_calls nothing (try_open_and_map region_size a).1).mapping
          ≡ is_done (try_open_and_map region_size a).0)
      × (((after_calls nothing (try_open_and_map region_size a).1).written ≡ false) ⊎ (a.size ≡ 0))
      × Returns a region_size (try_open_and_map region_size a).0
unfolding try_open_and_map map_and_check
try_open_and_map-Returns region_size a = ground arith
