-- ===== src/Block/Lockfree.antt =====
-- What is done to a region without its lock touches neither the waiter nodes nor the lists (src/core.rs,
-- lines 1427-1479 and the signal operations before they wake).
use ntsync_android.Base.{
  ℕ, ◌+◌, ◌≡◌, refl, ◌∙◌, ap, Bool, true, false, ◌||◌, List, [], ◌∷◌, ◌++◌, arith, Option-cases,
  inl, inr,
}
use ntsync_android.Region.{Region}
use ntsync_android.Satisfy.{
  Target, Others, meanwhile, later, acquire_at, rollback_at, satisfy_any, rollback_all, satisfy_all,
  try_satisfy,
}
use ntsync_android.Waiter.Wf.{Layout, IsWf}
use ntsync_android.Waiter.Leaves.{slots-IsWf}

-- From `r` to `r'` only words of objects have changed.
pub record Untouched (r r' : Region) : Type 0 where
  pub nodes : r'.nodes ≡ r.nodes
  pub header : r'.header ≡ r.header
  pub state : (obj : ℕ) → (r'.slots obj).state ≡ (r.slots obj).state
  pub head : (obj : ℕ) → (r'.slots obj).waiter_head ≡ (r.slots obj).waiter_head

pub Untouched-refl : (r : Region) → Untouched r r
Untouched-refl r = record { nodes = refl; header = refl; state = λ obj. refl; head = λ obj. refl }

pub Untouched-trans : {r s t : Region} → Untouched r s → Untouched s t → Untouched r t
Untouched-trans a b = record {
  nodes = b.nodes ∙ a.nodes;
  header = b.header ∙ a.header;
  state = λ obj. b.state obj ∙ a.state obj;
  head = λ obj. b.head obj ∙ a.head obj;
}

pub Untouched-IsWf : {r r' : Region} (l : Layout) → Untouched r r' → IsWf r l → IsWf r' l
Untouched-IsWf {r} {r'} l u v =
    slots-IsWf r l v r' u.nodes (ap (λ h. h.node_free_head) u.header)
      (ap (λ h. h.node_fresh) u.header) (λ obj. (u.state obj, u.head obj))

-- The others act without the lock.
abbrev pub AllLockfree : Others → Type 0
AllLockfree [] = Unit
AllLockfree (f ∷ fs) = ((r : Region) → Untouched r (f r)) × AllLockfree fs

meanwhile-Untouched : (fs : Others) (r : Region) → AllLockfree fs → Untouched r (meanwhile fs r)
meanwhile-Untouched [] r k = Untouched-refl r
meanwhile-Untouched (f ∷ fs) r k = k.0 r

later-AllLockfree : (fs : Others) → AllLockfree fs → AllLockfree (later fs)
later-AllLockfree [] k = tt
later-AllLockfree (f ∷ fs) k = k.1

acquire_at-Untouched : (r : Region) (owner : ℕ) (t : Target) → Untouched r (acquire_at r owner t).1
unfolding acquire_at
acquire_at-Untouched r owner t = record {
  nodes = refl;
  header = refl;
  state = λ obj. ground arith;
  head = λ obj. ground arith;
}

rollback_at-Untouched :
    (r : Region) (owner h : ℕ) (dead : Bool) → Untouched r (rollback_at r owner h dead)
unfolding rollback_at
rollback_at-Untouched r owner h dead = record {
  nodes = refl;
  header = refl;
  state = λ obj. ground arith;
  head = λ obj. ground arith;
}

next_acquire :
    (fs : Others) (r : Region) (owner : ℕ) (t : Target)
    → AllLockfree fs
    → Untouched r (acquire_at (meanwhile fs r) owner t).1
next_acquire fs r owner t k =
    Untouched-trans (meanwhile-Untouched fs r k) (acquire_at-Untouched (meanwhile fs r) owner t)

satisfy_any-Untouched :
    (i : ℕ) (fs : Others) (r : Region) (owner : ℕ) (ts : List Target)
    → AllLockfree fs
    → Untouched r (satisfy_any i fs r owner ts).1
unfolding satisfy_any
satisfy_any-Untouched i fs r owner [] k = Untouched-refl r
satisfy_any-Untouched i fs r owner (t ∷ ts) k =
    let r1 = (acquire_at (meanwhile fs r) owner t).1 in
    let one = next_acquire fs r owner t k in
    let rest = satisfy_any-Untouched (i + 1) (later fs) r1 owner ts (later-AllLockfree fs k) in
    elim (Option-cases (acquire_at (meanwhile fs r) owner t).0) [
      | inl e ↦ rw (e, satisfy_any) (Untouched-trans one rest)
      | inr (dead, e) ↦ rw (e, satisfy_any) one
    ]

rollback_all-Untouched :
    (fs : Others) (r : Region) (owner : ℕ) (acquired : List (ℕ × Bool))
    → AllLockfree fs
    → Untouched r (rollback_all fs r owner acquired)
unfolding rollback_all
rollback_all-Untouched fs r owner [] k = Untouched-refl r
rollback_all-Untouched fs r owner ((h, dead) ∷ acquired) k =
    let r0 = meanwhile fs r in
    Untouched-trans (meanwhile-Untouched fs r k) (
      Untouched-trans (rollback_at-Untouched r0 owner h dead) (
        rollback_all-Untouched (later fs) (rollback_at r0 owner h dead) owner acquired
          (later-AllLockfree fs k)))

satisfy_all-Untouched :
    (fs : Others) (r : Region) (owner : ℕ) (acquired : List (ℕ × Bool)) (od : Bool)
    (ts : List Target)
    → AllLockfree fs
    → Untouched r (satisfy_all fs r owner acquired od ts).1
unfolding satisfy_all
satisfy_all-Untouched fs r owner acquired od [] k = Untouched-refl r
satisfy_all-Untouched fs r owner acquired od (t ∷ ts) k =
    let r1 = (acquire_at (meanwhile fs r) owner t).1 in
    let one = next_acquire fs r owner t k in
    let k' = later-AllLockfree fs k in
    elim (Option-cases (acquire_at (meanwhile fs r) owner t).0) [
      | inl e ↦
          rw (e, satisfy_all)
            (Untouched-trans one (rollback_all-Untouched (later fs) r1 owner acquired k'))
      | inr (dead, e) ↦
          rw (e, satisfy_all)
            (Untouched-trans one (
              satisfy_all-Untouched (later fs) r1 owner (acquired ++ (t.handle, dead) ∷ [])
                (od || dead) ts k'))
    ]

pub try_satisfy-Untouched :
    (fs : Others) (r : Region) (owner : ℕ) (ts : List Target) (all : Bool)
    → AllLockfree fs
    → Untouched r (try_satisfy fs r owner ts all).1
unfolding try_satisfy
try_satisfy-Untouched fs r owner ts false k = satisfy_any-Untouched 0 fs r owner ts k
try_satisfy-Untouched fs r owner ts true k = satisfy_all-Untouched fs r owner [] false ts k
