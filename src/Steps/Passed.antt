-- ===== src/Steps/Passed.antt =====
-- No step of a history puts an object beyond the mark of the slots that were handed out, so that a sweep passes
-- every object (src/core.rs, lines 482-604, 767-922 and 1886-2046).
use ntsync_android.Base.{ℕ, zero, suc, ◌+◌, ◌<◌, ◌≡◌, ◌≢◌, refl, List, Bool, arith, inl, inr, ap}
use ntsync_android.Region.{Region, Env, slot_free, node_count, set_slot}
use ntsync_android.Waiter.{
  node_alloc, node_free, node_detach, node_register, wake_object, wake_loop, bump_and_wake,
}
use ntsync_android.Waiter.Slots.{
  node_detach-SameObject, node_free-SameObject, wake_object-SameObject,
}
use ntsync_android.Holder.{holder_remove}
use ntsync_android.Slot.{close_slot}
use ntsync_android.Sweep.{DeadCand, reap_one, scan_new, sweep_dead_locked}
use ntsync_android.Sweep.Freed.{freed_slot, reap_one-Freed}
use ntsync_android.Sweep.Frees.{IsDead}
use ntsync_android.Sweep.Visits.{sweep_dead-frees}
use ntsync_android.Steps.{
  Step, lockfree, creates, closes, wakes, allocates, registers, detaches, frees, reaps, Reach,
  start, after,
}
use ntsync_android.Steps.Marks.{Marked, Marked-frame, publish-Marked}

-- The lists and the pool of the waiter nodes leave the cursor.
node_detach-next_scan :
    (r : Region) (idx : ℕ) → (node_detach r idx).header.next_scan ≡ r.header.next_scan
unfolding node_detach
node_detach-next_scan r idx = ground arith

node_free-next_scan :
    (r : Region) (idx : ℕ) → (node_free r idx).header.next_scan ≡ r.header.next_scan
unfolding node_free
node_free-next_scan r idx = ground arith

wake_loop-next_scan :
    (fuel : ℕ) (r : Region) (idx : ℕ) → (wake_loop fuel r idx).header.next_scan ≡ r.header.next_scan
unfolding wake_loop
wake_loop-next_scan zero r idx = refl
wake_loop-next_scan (suc fuel) r idx =
    let word = (r.nodes idx).wait_word in
    let rest =
      wake_loop-next_scan fuel (bump_and_wake (node_detach r idx) word) (r.nodes idx).obj_next in
    let one = node_detach-next_scan r idx in ground arith

wake_object-next_scan :
    (r : Region) (obj : ℕ) → (wake_object r obj).header.next_scan ≡ r.header.next_scan
unfolding wake_object
wake_object-next_scan r obj = wake_loop-next_scan (node_count + 1) r (r.slots obj).waiter_head

node_alloc-header :
    (pid : ℕ) (r : Region)
    → ((node_alloc pid r).1.header.next_scan ≡ r.header.next_scan)
      × ((node_alloc pid r).1.slots ≡ r.slots)
unfolding node_alloc
node_alloc-header pid r = ground arith

node_register-next_scan :
    (r : Region) (idx obj word : ℕ)
    → (node_register r idx obj word).header.next_scan ≡ r.header.next_scan
unfolding node_register
node_register-next_scan r idx obj word = ground arith

node_register-state :
    (r : Region) (idx obj word j : ℕ)
    → ((node_register r idx obj word).slots j).state ≡ (r.slots j).state
unfolding node_register
node_register-state r idx obj word j = ground arith

reap_one-next_scan :
    (r : Region) (c : DeadCand) → (reap_one r c).0.header.next_scan ≡ r.header.next_scan
unfolding reap_one
reap_one-next_scan r c =
    let freed = freed_slot (r.slots c.index) in
    let woken = wake_object-next_scan (set_slot r c.index freed) c.index in
    let detached = node_detach-next_scan r c.index in
    let given_back = node_free-next_scan (node_detach r c.index) c.index in ground arith

close_slot-Marked : (env : Env) (i : ℕ) (r : Region) → Marked r → Marked (close_slot env i r)
unfolding close_slot
close_slot-Marked env i r v =
    let freed = freed_slot (holder_remove (r.slots i) env.pid) in
    let gone = set_slot r i freed in
    Marked-frame v (wake_object-next_scan gone i)
      (λ j used. let same = wake_object-SameObject gone i j in ground (arith, same.state, used))

Step-Marked : {r r' : Region} {o o' : List ℕ} → Marked r → Step r o r' o' → Marked r'
Step-Marked v (lockfree u) =
    Marked-frame v (ap (λ h. h.next_scan) u.header) (λ j used. rw (← u.state j) used)
Step-Marked {r} v (creates {r1 = r1} handle pid t w made) =
    publish-Marked r r1 handle pid t w v made
Step-Marked {r} v (closes env handle i at) = close_slot-Marked env i r v
Step-Marked {r} v (wakes obj used) =
    Marked-frame v (wake_object-next_scan r obj)
      (λ j used. rw (← (wake_object-SameObject r obj j).state) used)
Step-Marked {r} {r'} v (allocates pid idx a) =
    let (e, f) = node_alloc-header pid r in
    let at : (node_alloc pid r).1 ≡ r' = ap (λ a. a.1) a in
    Marked-frame v (rw (← at) e) (λ j used. rw (← at, f) at used)
Step-Marked {r} v (registers idx obj word c z used) =
    Marked-frame v (node_register-next_scan r idx obj word)
      (λ j used. rw (← node_register-state r idx obj word j) used)
Step-Marked {r} v (detaches idx c) =
    Marked-frame v (node_detach-next_scan r idx)
      (λ j used. rw (← (node_detach-SameObject r idx j).state) used)
Step-Marked {r} v (frees idx c z) =
    Marked-frame v (node_free-next_scan r idx)
      (λ j used. rw (← (node_free-SameObject r idx j).state) used)
Step-Marked {r} v (reaps c) = Marked-frame v (reap_one-next_scan r c) (λ j used.
    elim (reap_one-Freed j r c) [
      | inl same ↦ rw (← same.state) used
      | inr (was, f) ↦ λ free. used f.state
    ])

Reach-Marked : {r : Region} {o : List ℕ} → Reach r o → Marked r
Reach-Marked start = record {
  cursor = omega arith;
  fits = omega arith;
  below = λ j ne used. absurd (ground arith);
}
Reach-Marked (after h s) = Step-Marked (Reach-Marked h) s

-- In every region that a history of creating, closing, waking, registering, detaching, reaping, handing out,
-- giving back and changing objects without the lock reaches from a new file, a sweep frees every object, but
-- the reserved one of slot 0, whose creator is dead, of whose recorded holders none is alive, and whose list
-- of holders did not spill.
pub sweep_dead-Reach :
    (probe : ℕ → Bool) (i : ℕ) {r : Region} {o : List ℕ}
    → Reach r o
    → i ≢ 0
    → IsDead probe (r.slots i)
    → ((sweep_dead_locked probe r).0.slots i).state ≡ slot_free
unfolding scan_new
sweep_dead-Reach probe i {r} h ne dead =
    let v = Reach-Marked h in
    let busy : (r.slots i).state ≢ slot_free = ground (arith, dead.used) in
    let (lt, less) = v.below i ne busy in
    let low : i < (scan_new r).slot_hi = ground (arith, lt, less, v.fits) in
    sweep_dead-frees probe i r low dead
