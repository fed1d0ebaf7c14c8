-- ===== src/Steps/Invariant.antt =====
-- Every region that a history reaches has well-formed waiter nodes (src/core.rs, lines 482-604, 767-922 and
-- 1998-2044).
use ntsync_android.Base.{ℕ, ◌≡◌, refl, ap, some, List, [], ◌∷◌, arith, inl, inr}
use ntsync_android.Region.{Region, init_region}
use ntsync_android.Waiter.{node_alloc}
use ntsync_android.Waiter.Pool.{node_alloc-cases, without}
use ntsync_android.Waiter.Wf.{Layout, IsWf}
use ntsync_android.Waiter.Keeps.{Handed-IsWf, node_free-IsWf, node_register-IsWf, with_alloc}
use ntsync_android.Waiter.Leaves.{Rearranged, node_detach-Rearranged, wake_object-IsWf}
use ntsync_android.Block.Lockfree.{Untouched-IsWf}
use ntsync_android.Steps.{
  Step, lockfree, creates, closes, wakes, allocates, registers, detaches, frees, reaps, Reach,
  start, after,
}
use ntsync_android.Steps.Table.{Owning, publish-IsWf, close_slot-Rearranged, reap_one-Owning}

abbrev empty_layout : Layout
empty_layout = record { free = []; owned = []; queue = λ _. [] }

init-IsWf : IsWf init_region empty_layout
init-IsWf = record {
  pool = record {
    chain = refl;
    free_distinct = tt;
    owned_distinct = tt;
    apart = λ x c. cc;
    free_below = λ x c. cc;
    owned_below = λ x c. cc;
    capacity = omega arith;
    counted = refl;
  };
  queues = λ obj used. record { chain = ground arith; distinct = tt };
  unused = λ obj un. refl;
  queued = λ obj x c. cc;
  listed = λ x c. cc;
  idle = λ x c. refl;
}

-- What a node that was handed out leaves.
allocates-Owning :
    (pid idx : ℕ) (r r' : Region) (l : Layout)
    → IsWf r l
    → node_alloc pid r ≡ (some idx, r')
    → Owning r' (idx ∷ l.owned)
allocates-Owning pid idx r r' l v e =
    let at : (node_alloc pid r).1 ≡ r' = ap (λ a. a.1) e in
    let got : (node_alloc pid r).0 ≡ some idx = ap (λ a. a.0) e in
    elim (node_alloc-cases pid r l.free l.owned v.pool) [
      | inl full ↦ absurd (cc)
      | inr h ↦
          let (i, found, handed) = h in
          let same : i ≡ idx = ground arith in
          rw (← at, ← same)
            (record {
              layout = with_alloc r l v i handed.rest;
              wf = Handed-IsWf r l v pid i (node_alloc pid r).1 handed;
              owned = refl;
            })
    ]

Rearranged-Owning : {r' : Region} {l : Layout} → Rearranged r' l → Owning r' l.owned
Rearranged-Owning k = record { layout = k.layout; wf = k.wf; owned = k.owned }

-- What every step leaves of a region whose nodes are well formed.
Step-Owning :
    (r r' : Region) (o o' : List ℕ) (l : Layout)
    → IsWf r l
    → l.owned ≡ o
    → Step r o r' o'
    → Owning r' o'
Step-Owning r r' o o' l v e (lockfree u) = record {
  layout = l;
  wf = Untouched-IsWf l u v;
  owned = e;
}
Step-Owning r r' o o' l v e (creates handle pid t w made) = record {
  layout = l;
  wf = publish-IsWf r l v handle pid t w _ made;
  owned = e;
}
Step-Owning r r' o o' l v e (closes env handle i at) =
    rw (← e) (Rearranged-Owning (close_slot-Rearranged r l v env handle i at))
Step-Owning r r' o o' l v e (wakes obj used) = record {
  layout = _;
  wf = wake_object-IsWf r l v obj used;
  owned = e;
}
Step-Owning r r' o o' l v e (allocates pid idx a) = rw (← e) (allocates-Owning pid idx r r' l v a)
Step-Owning r r' o o' l v e (registers idx obj word c z used) = record {
  layout = _;
  wf = node_register-IsWf r l v idx obj word (rw e c) z used;
  owned = e;
}
Step-Owning r r' o o' l v e (detaches idx c) =
    rw (← e) (Rearranged-Owning (node_detach-Rearranged r l v idx (rw e c)))
Step-Owning r r' o o' l v e (frees idx c z) = record {
  layout = _;
  wf = node_free-IsWf r l v idx (rw e c) z;
  owned = ap (λ (o : List ℕ). without idx o) e;
}
Step-Owning r r' o o' l v e (reaps c) = rw (← e) (reap_one-Owning r l v c)

-- In every region that a history of creating, closing, waking, registering, detaching, reaping, handing out,
-- giving back and changing objects without the lock reaches from a new file, the waiter nodes are well
-- formed: the list of every used object links exactly the nodes registered for it, in both directions and
-- without repetition, and each node that was ever used is either free, once, or owned by one waiter.
pub Reach-Owning : {r : Region} {o : List ℕ} → Reach r o → Owning r o
Reach-Owning start = record { layout = empty_layout; wf = init-IsWf; owned = refl }
Reach-Owning (after {r} {r'} {o} {o'} h s) =
    let k = Reach-Owning h in Step-Owning r r' o o' k.layout k.wf k.owned s
