-- ===== src/Satisfy.antt =====
-- src/core.rs, lines 1427-1479: `try_satisfy`, the attempt of a wait to acquire its objects without
-- the lock. What other threads do to the region between one object and the next is a list of
-- functions, one taken before each acquisition; nobody acts inside one. The compare-exchange loops of a
-- semaphore and of a mutex are atomic by `Cas.Linear`; an event's acquisition is a load, a claim loop and
-- a load of the pulse count, and is taken as one step all the same.
pub mod Any
pub mod All
pub mod Wait
pub mod Pulsed
use ntsync_android.Base.{
  ℕ, zero, suc, ◌+◌, Bool, true, false, ◌||◌, Option, none, some, List, [], ◌∷◌, ◌++◌,
}
use ntsync_android.Region.{Region, Slot, WaitOutcome, signaled, set_slot, index_of}
use ntsync_android.Object.{try_acquire, rollback_acquire}

-- What a wait carries of one handle: the handle and its entry in `entry_seqs`.
pub record Target : Type 0 where
  pub handle : ℕ
  pub entry_seq : ℕ

-- `try_acquire` on the slot at an index, and `rollback_acquire`.
unfoldable pub acquire_at : Region → (owner : ℕ) → Target → Option Bool × Region
acquire_at r owner t =
    let s = r.slots (index_of t.handle) in
    let (w, got) = try_acquire [] s.obj_type s.w0 s.d owner t.entry_seq in
    (got, set_slot r (index_of t.handle) (record s { w0 = w }))

unfoldable pub rollback_at : Region → (owner : ℕ) → (handle : ℕ) → Bool → Region
rollback_at r owner handle dead =
    let s = r.slots (index_of handle) in
    set_slot r (index_of handle) (record s { w0 = rollback_acquire [] s.obj_type s.w0 owner dead })

abbrev pub Others : Type 0
Others = List (Region → Region)

-- The region when the other threads have made their next action, and their later ones.
abbrev pub meanwhile : Others → Region → Region
meanwhile [] r = r
meanwhile (f ∷ fs) r = f r

abbrev pub later : Others → Others
later [] = []
later (f ∷ fs) = fs

-- WAIT_ANY: the first object that can be acquired.
unfoldable pub satisfy_any :
    (i : ℕ) → Others → Region → (owner : ℕ) → List Target → Option WaitOutcome × Region
satisfy_any i fs r owner [] = (none, r)
satisfy_any i fs r owner (t ∷ ts) =
    let (got, r') = acquire_at (meanwhile fs r) owner t in
    let rest = satisfy_any (i + 1) (later fs) r' owner ts in
    elim got [ some dead ↦ (some (signaled i dead), r') | none ↦ rest ]

-- The rollback of those acquired so far, the first acquired first.
unfoldable pub rollback_all : Others → Region → (owner : ℕ) → (acquired : List (ℕ × Bool)) → Region
rollback_all fs r owner [] = r
rollback_all fs r owner ((handle, dead) ∷ acquired) =
    rollback_all (later fs) (rollback_at (meanwhile fs r) owner handle dead) owner acquired

-- WAIT_ALL: one by one, with a rollback when an object is busy.
unfoldable pub satisfy_all :
    Others
    → Region
    → (owner : ℕ) → (acquired : List (ℕ × Bool)) → (owner_dead : Bool) → List Target
    → Option WaitOutcome × Region
satisfy_all fs r owner acquired owner_dead [] = (some (signaled 0 owner_dead), r)
satisfy_all fs r owner acquired owner_dead (t ∷ ts) =
    let (got, r') = acquire_at (meanwhile fs r) owner t in
    let undone = rollback_all (later fs) r' owner acquired in
    elim got [
      | some dead ↦
          satisfy_all (later fs) r' owner (acquired ++ (t.handle, dead) ∷ []) (owner_dead || dead)
            ts
      | none ↦ (none, undone)
    ]

unfoldable pub try_satisfy :
    Others → Region → (owner : ℕ) → List Target → (all : Bool) → Option WaitOutcome × Region
unfolding satisfy_any satisfy_all
try_satisfy fs r owner ts false = satisfy_any 0 fs r owner ts
try_satisfy fs r owner ts true = satisfy_all fs r owner [] false ts
