-- ===== src/Waiter/Leaves.antt =====
-- Detaching and waking (src/core.rs, lines 525-548 and 568-604), and every change that is not one of the
-- waiter nodes, keep the waiter nodes well formed.
use ntsync_android.Base.{
  ℕ, ◌≡◌, ◌≢◌, refl, sym, ◌∙◌, ap, true, [], ◌∷◌, ◌++◌, ◌==◌, contains, arith, Bool-cases, inl, inr,
  ==→eq, ==_self,
}
use ntsync_android.Region.{Region, WaitNode, Header, slot_used}
use ntsync_android.Waiter.{node_detach, wake_object}
use ntsync_android.Waiter.Seg.{Waiters, SameLinks-of_eq}
use ntsync_android.Waiter.Detach.{
  node_detach-Waiters, node_detach-Waiters_other, node_detach_self, node_detach-registered,
  node_detach-obj, node_detach-words, node_detach-header,
}
use ntsync_android.Waiter.Wake.{Woke, wake_object-Woke}
use ntsync_android.Waiter.Slots.{node_detach-SameObject, wake_object-SameObject}
use ntsync_android.Waiter.Pool.{IsPool-frame, without, contains-without, contains-without_self}
use ntsync_android.Waiter.Wf.{Layout, IsWf, Waiters-frame, place_of, on_queue, queue-fits}
use ntsync_android.Waiter.Keeps.{with_queue}

-- A well-formed region with the same free and owned nodes as `l` has.
pub record Rearranged (r' : Region) (l : Layout) : Type 0 where
  pub layout : Layout
  pub wf : IsWf r' layout
  pub free : layout.free ≡ l.free
  pub owned : layout.owned ≡ l.owned

detach_idle : (r : Region) (idx : ℕ) → (r.nodes idx).registered ≡ 0 → node_detach r idx ≡ r
unfolding node_detach
detach_idle r idx e = ground arith

module _ (r : Region) (l : Layout) (v : IsWf r l) where
  detach_listed :
      (idx obj : ℕ)
      → (r.nodes idx).obj ≡ obj
      → contains (l.queue obj) idx ≡ true
      → IsWf (node_detach r idx) (with_queue r l v obj (without idx (l.queue obj)))
  detach_listed idx obj on c =
      let (ys, zs, split, left) = place_of idx (l.queue obj) c in
      let (used, reg, _, _) = on_queue r l v obj idx c in
      let w : Waiters r obj (ys ++ idx ∷ zs) = rw split at (v.queues obj used) in
      let r' = node_detach r idx in
      let state = λ (other : ℕ). (node_detach-SameObject r idx other).state in
      let distinct = (v.queues obj used).distinct in
      record {
        pool =
            IsPool-frame r r' l.free l.owned
              (ap (λ (h : Header). h.node_free_head) (node_detach-header r idx).0)
              (ap (λ (h : Header). h.node_fresh) (node_detach-header r idx).0)
              (λ x. (node_detach-words r idx x).2) v.pool;
        queues = λ other u. elim (Bool-cases (obj == other)) [
          | inl e ↦
              let k = ==→eq obj other e in
              rw (← k, ==_self obj, left) (node_detach-Waiters r obj idx ys zs w)
          | inr ne ↦ rw ne (
              node_detach-Waiters_other r obj idx ys zs w other (l.queue other) (ground arith)
                (v.queues other (sym (state other) ∙ u)))
        ];
        unused = λ other un. let e = state other in ground (arith, v.unused other);
        queued = λ other x d. ground (
          arith,
          v.queued other x,
          contains-without idx x (l.queue obj),
          contains-without_self idx (l.queue obj) distinct,
        );
        listed = λ x d. elim (Bool-cases (x == idx)) [
          | inl e ↦ let k = ==→eq x idx e in rw k (inl (node_detach_self r idx))
          | inr ne ↦
              let ne' : x ≢ idx = ground arith in
              let a = node_detach-registered r idx x ne' in
              let b = node_detach-obj r idx x ne' in
              rw (a, b) (ground (arith, v.listed x d, contains-without idx x (l.queue obj)))
        ];
        idle = λ x d. ground (arith, v.idle x, v.queued obj idx c, node_detach-registered r idx x);
      }

  -- Detaching a node of a well-formed region.
  pub node_detach-Rearranged :
      (idx : ℕ) → contains l.owned idx ≡ true → Rearranged (node_detach r idx) l
  node_detach-Rearranged idx c = elim (v.listed idx c) [
    | inl idle ↦
        rw (detach_idle r idx idle) (record { layout = l; wf = v; free = refl; owned = refl })
    | inr on ↦ record {
      layout = with_queue r l v (r.nodes idx).obj (without idx (l.queue (r.nodes idx).obj));
      wf = detach_listed idx (r.nodes idx).obj refl on;
      free = refl;
      owned = refl;
    }
  ]

  -- Waking a used object of a well-formed region, whatever becomes of its slot besides.
  pub Woke-IsWf :
      (obj : ℕ) (r' : Region)
      → Woke obj (l.queue obj) r r'
      → ((other : ℕ) → other ≢ obj → (r'.slots other).state ≡ (r.slots other).state)
      → IsWf r' (with_queue r l v obj [])
  Woke-IsWf obj r' k state = record {
    pool =
        IsPool-frame r r' l.free l.owned (ap (λ (h : Header). h.node_free_head) k.header)
          (ap (λ (h : Header). h.node_fresh) k.header) k.pool v.pool;
    queues = λ other u. elim (Bool-cases (obj == other)) [
      | inl e ↦ let same = ==→eq obj other e in rw (← same, ==_self obj) k.queue
      | inr ne ↦ rw ne (
          k.others other (l.queue other) (ground arith)
            (v.queues other (sym (state other (ground arith)) ∙ u)))
    ];
    unused = λ other un. elim (Bool-cases (obj == other)) [
      | inl e ↦ rw e refl
      | inr ne ↦ rw ne (v.unused other (λ u. un (state other (ground arith) ∙ u)))
    ];
    queued = λ other x d. ground (arith, v.queued other x);
    listed = λ x d. elim (Bool-cases (contains (l.queue obj) x)) [
      | inl woken ↦ inl (k.unlinked x woken)
      | inr out ↦ let (a, b) = k.kept x out in rw (a, b) (ground (arith, v.listed x d))
    ];
    idle = λ x d. ground (arith, v.idle x d, v.queued obj x, k.kept x);
  }

  pub wake_object-IsWf :
      (obj : ℕ)
      → (r.slots obj).state ≡ slot_used
      → IsWf (wake_object r obj) (with_queue r l v obj [])
  wake_object-IsWf obj used =
      Woke-IsWf obj (wake_object r obj)
        (wake_object-Woke obj r (l.queue obj) (queue-fits r l v obj used) (v.queues obj used))
        (λ other ne. (wake_object-SameObject r obj other).state)

  -- A change of the slots that leaves which are used and their lists, and all the nodes.
  pub slots-IsWf :
      (r' : Region)
      → r'.nodes ≡ r.nodes
      → r'.header.node_free_head ≡ r.header.node_free_head
      → r'.header.node_fresh ≡ r.header.node_fresh
      → ((obj : ℕ)
          → ((r'.slots obj).state ≡ (r.slots obj).state)
            × ((r'.slots obj).waiter_head ≡ (r.slots obj).waiter_head))
      → IsWf r' l
  slots-IsWf r' nodes head fresh same = record {
    pool =
        IsPool-frame r r' l.free l.owned head fresh
          (λ x. ap (λ (N : ℕ → WaitNode). (N x).waiter_next) nodes) v.pool;
    queues = λ obj used.
        Waiters-frame r r' obj (l.queue obj) (same obj).1
          (λ x c. SameLinks-of_eq (ap (λ (N : ℕ → WaitNode). N x) nodes))
          (v.queues obj (sym (same obj).0 ∙ used));
    unused = λ obj un. v.unused obj (λ used. un ((same obj).0 ∙ used));
    queued = v.queued;
    listed = λ x c. rw nodes (v.listed x c);
    idle = λ x c. rw nodes (v.idle x c);
  }
