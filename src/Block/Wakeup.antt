-- ===== src/Block/Wakeup.antt =====
-- The wakeup of a blocked wait (src/core.rs, lines 568-589, 1640-1645 and 1777): between the sample of the
-- futex word under the lock and the futex call, no wake gets lost.
use ntsync_android.Base.{
  ℕ, ◌≤◌, ◌<◌, ◌≡◌, ◌≢◌, ◌⊎◌, Bool, true, List, [], ◌∷◌, arith, contains, length, Bool-cases, inl,
  inr, ◌==◌,
}
use ntsync_android.Base.Int.{neg, pos}
use ntsync_android.Base.{sym, ◌∙◌, none}
use ntsync_android.Waiter.Seg.{Waiters}
use ntsync_android.Block.Signaled.{Signals, Signals-Woke}
use ntsync_android.Region.{Region, WaitNode, Env, index_of, nil}
use ntsync_android.Waiter.Wake.{Woke, sleepers}
use ntsync_android.Waiter.Wf.{Layout, IsWf, on_queue, queue-fits}
use ntsync_android.Satisfy.{Target, Others}
use ntsync_android.Block.{Call, NodeSet, head_of, objects, blocked, locked_cycle}
use ntsync_android.Block.Lockfree.{AllLockfree}
use ntsync_android.Block.Enlisted.{Enrolled, AllEnrolled}
use ntsync_android.Block.Account.{Holds, Sleeping}
use ntsync_android.Block.Blocked.{locked_cycle-Accounted}
use ntsync_android.Block.Asleep.{futex_wait, eagain}

sleepers-le : (N : ℕ → WaitNode) (xs : List ℕ) (w : ℕ) → sleepers N xs w ≤ length xs
sleepers-le N [] w = omega arith
sleepers-le N (x ∷ xs) w = ground (arith, sleepers-le N xs w)

sleepers-pos :
    (N : ℕ → WaitNode) (xs : List ℕ) (x w : ℕ)
    → contains xs x ≡ true
    → (N x).wait_word ≡ w
    → 0 < sleepers N xs w
sleepers-pos N [] x w c e = cc
sleepers-pos N (y ∷ xs) x w c e = ground (arith, sleepers-pos N xs x w)

-- A wake of the object of an enrolled node changes the futex word of its head node.
Woke-changes :
    (r r' : Region) (l : Layout) (head idx obj : ℕ)
    → IsWf r l
    → contains (l.queue obj) idx ≡ true
    → Enrolled r head idx obj
    → Woke obj (l.queue obj) r r'
    → (r'.nodes head).seq ≢ (r.nodes head).seq
Woke-changes r r' l head idx obj v queued e k =
    let (used, _, _, _) = on_queue r l v obj idx queued in
    let fits = queue-fits r l v obj used in
    let some_one = sleepers-pos r.nodes (l.queue obj) idx head queued e.2 in
    let few = sleepers-le r.nodes (l.queue obj) head in
    λ same. omega (arith, k.counted head, same, some_one, few, fits)

-- The list of an object with a waiter is not empty.
waiter_head-ne_nil :
    (r : Region) (obj idx : ℕ) (xs : List ℕ)
    → contains xs idx ≡ true
    → Waiters r obj xs
    → (r.slots obj).waiter_head ≢ nil
waiter_head-ne_nil r obj idx [] c w = cc
waiter_head-ne_nil r obj idx (x ∷ xs) c w = λ e. w.chain.1 (sym w.chain.0 ∙ e)

AllEnrolled-node :
    (r : Region) (head obj : ℕ) (ns : NodeSet) (os : List ℕ)
    → length ns ≡ length os
    → contains os obj ≡ true
    → AllEnrolled r head ns os
    → (idx : ℕ) × (contains ns idx ≡ true) × Enrolled r head idx obj
AllEnrolled-node r head obj [] [] len c e = cc
AllEnrolled-node r head obj [] (o ∷ os) len c e = absurd (omega (arith, len))
AllEnrolled-node r head obj (n ∷ ns) [] len c e = cc
AllEnrolled-node r head obj (n ∷ ns) (o ∷ os) len c e = elim (Bool-cases (o == obj)) [
  | inl here ↦ (n, ground arith, ground arith)
  | inr there ↦
      let (idx, d, f) =
        AllEnrolled-node r head obj ns os (omega (arith, len)) (rw there at c) e.1 in
      (idx, ground arith, f)
]

Sleeping-futex_wait :
    (env : Env) (r r' : Region) (l : Layout) (objs : List ℕ) (ns : NodeSet) (seq handle answer : ℕ)
    → Sleeping r l objs ns seq
    → contains objs (index_of handle) ≡ true
    → env.lock_error ≡ none
    → Signals env handle r r'
    → futex_wait (r'.nodes (head_of ns)).seq seq answer ≡ neg (pos eagain)
unfolding futex_wait
Sleeping-futex_wait env r r' l objs ns seq handle answer s c locked g =
    let obj = index_of handle in
    let (idx, d, e) = AllEnrolled-node r (head_of ns) obj ns objs s.one_each c s.enrolled in
    let own : contains s.layout.owned idx ≡ true = ground (arith, s.owned idx) in
    let queued : contains (s.layout.queue obj) idx ≡ true =
      ground (arith, s.wf.listed idx own, e) in
    let (used, _, _, _) = on_queue r s.layout s.wf obj idx queued in
    let w = s.wf.queues obj used in
    let head = waiter_head-ne_nil r obj idx (s.layout.queue obj) queued w in
    let k =
      Signals-Woke env r handle r' (s.layout.queue obj) locked head
        (queue-fits r s.layout s.wf obj used) w g in
    let ne = Woke-changes r r' s.layout (head_of ns) idx obj s.wf queued e k in
    ground (arith, ne, s.sampled)

-- No wakeup is lost: take a turn of a wait under the lock that blocks, in a region whose waiter nodes are
-- well formed, where the call has no nodes yet or one for each of its objects, and the other threads act
-- during the turn by lock-free operations only. If one of its objects or its alert is then, before the
-- futex call, released, set while it was not signaled, unlocked for the last time of its recursion,
-- killed, pulsed or closed, by a call that succeeds and can take the region lock, the futex call does not
-- sleep, whatever would have ended the sleep.
pub locked_cycle-Signals :
    (fs : Others) (c : Call) (due : Bool) (ts : List Target) (nodes : NodeSet) (r : Region)
    (l : Layout) {us : List Target} {ns : NodeSet} {seq : ℕ} {r' r'' : Region} (env : Env)
    (handle answer : ℕ)
    → AllLockfree fs
    → IsWf r l
    → (nodes ≡ []) ⊎ Holds r l nodes (objects c.alert ts)
    → locked_cycle fs c due ts nodes r ≡ (blocked us ns seq, r')
    → contains (objects c.alert us) (index_of handle) ≡ true
    → env.lock_error ≡ none
    → Signals env handle r' r''
    → futex_wait (r''.nodes (head_of ns)).seq seq answer ≡ neg (pos eagain)
locked_cycle-Signals fs c due ts nodes r l {us} {ns} {seq} {r'} {r''} env handle answer k v h e d
      locked g =
    let a = locked_cycle-Accounted fs c k due ts nodes r l v h in
    let s : Sleeping r' l (objects c.alert us) ns seq = rw e at a in
    Sleeping-futex_wait env r' r'' l (objects c.alert us) ns seq handle answer s d locked g
