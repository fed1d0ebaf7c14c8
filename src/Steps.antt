-- ===== src/Steps.antt =====
-- The history of a region: the steps that the processes take on it, and the regions that they reach. A
-- step is what a function of src/core.rs does under the region lock, or what is done to the words of
-- the objects without it. `owned` are the waiter nodes that were handed out and not given back.
pub mod Table
pub mod Invariant
pub mod Marks
pub mod Passed
use ntsync_android.Base.{
  ℕ, ◌≡◌, ◌+◌, Bool, true, false, not, ◌&&◌, some, List, [], ◌∷◌, ◌==◌, contains, if◌then◌else◌,
}
use ntsync_android.Region.{Region, Env, slot, init_region, slot_used}
use ntsync_android.Waiter.{node_alloc, node_free, node_detach, node_register, wake_object}
use ntsync_android.Waiter.Pool.{without}
use ntsync_android.Slot.{alloc_slot, slot_publish, close_slot}
use ntsync_android.Sweep.{DeadCand, reap_one}
use ntsync_android.Block.Lockfree.{Untouched}

-- What is owned after a candidate of a sweep was reaped.
abbrev pub reaped : Region → DeadCand → List ℕ → List ℕ
reaped r c owned =
    if c.node && (not ((r.nodes c.index).registered == 0) && ((r.nodes c.index).pid == c.pid))
    then without c.index owned
    else owned

pub data Step : Region → List ℕ → Region → List ℕ → Type 0 where
  lockfree : {r r' : Region} {o : List ℕ} → Untouched r r' → Step r o r' o
  creates :
      {r r1 : Region} {o : List ℕ} (handle pid obj_type w0 : ℕ)
      → alloc_slot r ≡ (some handle, r1)
      → Step r o (slot_publish pid handle obj_type w0 r1) o
  closes :
      {r : Region} {o : List ℕ} (env : Env) (handle i : ℕ)
      → slot r handle ≡ some i
      → Step r o (close_slot env i r) o
  wakes :
      {r : Region} {o : List ℕ} (obj : ℕ)
      → (r.slots obj).state ≡ slot_used
      → Step r o (wake_object r obj) o
  allocates :
      {r r' : Region} {o : List ℕ} (pid idx : ℕ)
      → node_alloc pid r ≡ (some idx, r')
      → Step r o r' (idx ∷ o)
  registers :
      {r : Region} {o : List ℕ} (idx obj word : ℕ)
      → contains o idx ≡ true
      → (r.nodes idx).registered ≡ 0
      → (r.slots obj).state ≡ slot_used
      → Step r o (node_register r idx obj word) o
  detaches :
      {r : Region} {o : List ℕ} (idx : ℕ) → contains o idx ≡ true → Step r o (node_detach r idx) o
  frees :
      {r : Region} {o : List ℕ} (idx : ℕ)
      → contains o idx ≡ true
      → (r.nodes idx).registered ≡ 0
      → Step r o (node_free r idx) (without idx o)
  reaps : {r : Region} {o : List ℕ} (c : DeadCand) → Step r o (reap_one r c).0 (reaped r c o)

-- The regions that are reached from a new file's.
pub data Reach : Region → List ℕ → Type 0 where
  start : Reach init_region []
  after : {r r' : Region} {o o' : List ℕ} → Reach r o → Step r o r' o' → Reach r' o'
