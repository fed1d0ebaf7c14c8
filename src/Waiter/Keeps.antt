-- ===== src/Waiter/Keeps.antt =====
-- Every operation on the waiter nodes of src/core.rs (lines 482-604) keeps them well formed.
use ntsync_android.Base.{
  ℕ, ◌≡◌, ◌≢◌, refl, sym, ◌∙◌, ap, true, List, ◌∷◌, ◌==◌, contains, arith, Bool-cases, inl, inr,
  ◌⊎◌, update, ==→eq, ==_self,
}
use ntsync_android.Region.{Region, Slot, Header, nil, slot_used}
use ntsync_android.Waiter.{node_free, node_register}
use ntsync_android.Waiter.Seg.{SameLinks, SameLinks-of_eq}
use ntsync_android.Waiter.Register.{node_register-Waiters, node_register-Waiters_other}
use ntsync_android.Waiter.Pool.{
  IsPool-frame, Handed, node_free-IsPool, without, contains-without, contains-without_self,
}
use ntsync_android.Waiter.Wf.{Layout, IsWf, Waiters-frame, off_queue}

-- What giving a node back and registering one leave.
module _ (r : Region) (idx : ℕ) where
  free-slots : (obj : ℕ) → (node_free r idx).slots obj ≡ r.slots obj
  unfolding node_free
  free-slots obj = refl

  free-links : (x : ℕ) → SameLinks ((node_free r idx).nodes x) (r.nodes x)
  unfolding node_free
  free-links x = ground arith

  module _ (obj word : ℕ) where
    abbrev registered_in : Region
    registered_in = node_register r idx obj word

    register-header : registered_in.header ≡ r.header
    unfolding node_register
    register-header = ground arith

    register-next : (x : ℕ) → (registered_in.nodes x).waiter_next ≡ (r.nodes x).waiter_next
    unfolding node_register
    register-next x = ground arith

    register-state : (other : ℕ) → (registered_in.slots other).state ≡ (r.slots other).state
    unfolding node_register
    register-state other = ground arith

    register-node :
        (x : ℕ)
        → ((x ≡ idx) × ((registered_in.nodes x).obj ≡ obj))
          ⊎ ((x ≢ idx)
              × ((registered_in.nodes x).registered ≡ (r.nodes x).registered)
              × ((registered_in.nodes x).obj ≡ (r.nodes x).obj))
    unfolding node_register
    register-node x = ground arith

module _ (r : Region) (l : Layout) (v : IsWf r l) where
  abbrev pub with_alloc : ℕ → List ℕ → Layout
  with_alloc idx rest = record l { free = rest; owned = idx ∷ l.owned }

  pub Handed-IsWf :
      (pid idx : ℕ) (r' : Region) (h : Handed pid r l.free l.owned idx r')
      → IsWf r' (with_alloc idx h.rest)
  Handed-IsWf pid idx r' h = record {
    pool = h.pool;
    queues = λ obj used.
        let e : r'.slots obj ≡ r.slots obj = ap (λ (f : ℕ → Slot). f obj) h.slots in
        Waiters-frame r r' obj (l.queue obj) (ap (λ (s : Slot). s.waiter_head) e)
          (λ x c. SameLinks-of_eq (h.others x (ground (arith, v.queued obj x, h.new))))
          (v.queues obj (rw e at used));
    unused = λ obj un.
        let e : r'.slots obj ≡ r.slots obj = ap (λ (f : ℕ → Slot). f obj) h.slots in
        v.unused obj (rw e at un);
    queued = λ obj x c. ground (arith, v.queued obj x);
    listed = λ x c. elim (Bool-cases (idx == x)) [
      | inl same ↦ inl (ground (arith, h.node))
      | inr other ↦ rw (h.others x (ground arith)) (v.listed x (ground arith))
    ];
    idle = λ x c. ground (arith, h.others x, v.idle x);
  }

  abbrev pub with_free_node : ℕ → Layout
  with_free_node idx = record l { free = idx ∷ l.free; owned = without idx l.owned }

  pub node_free-IsWf :
      (idx : ℕ)
      → contains l.owned idx ≡ true
      → (r.nodes idx).registered ≡ 0
      → IsWf (node_free r idx) (with_free_node idx)
  node_free-IsWf idx c idle = record {
    pool = node_free-IsPool r idx l.free l.owned c v.pool;
    queues = λ obj used.
        Waiters-frame r (node_free r idx) obj (l.queue obj)
          (ap (λ (s : Slot). s.waiter_head) (free-slots r idx obj)) (λ x d. free-links r idx x)
          (v.queues obj (rw (free-slots r idx obj) at used));
    unused = λ obj un. v.unused obj (rw (free-slots r idx obj) at un);
    queued = λ obj x d.
        let out = off_queue r l v obj idx idle in
        ground (arith, v.queued obj x, contains-without idx x l.owned);
    listed = λ x d.
        let gone = contains-without_self idx l.owned v.pool.owned_distinct in
        let links = free-links r idx x in
        ground (arith, v.listed x, contains-without idx x l.owned);
    idle = λ x d.
        let links = free-links r idx x in
        ground (arith, v.idle x, idle, contains-without idx x l.owned);
  }

  abbrev pub with_queue : ℕ → List ℕ → Layout
  with_queue obj xs = record l { queue = update l.queue obj xs }

  node-ne_nil : (idx : ℕ) → contains l.owned idx ≡ true → idx ≢ nil
  node-ne_nil idx c = omega (arith, v.pool.owned_below idx c, v.pool.capacity)

  pub node_register-IsWf :
      (idx obj word : ℕ)
      → contains l.owned idx ≡ true
      → (r.nodes idx).registered ≡ 0
      → (r.slots obj).state ≡ slot_used
      → IsWf (node_register r idx obj word) (with_queue obj (idx ∷ l.queue obj))
  node_register-IsWf idx obj word c idle used = record {
    pool =
        IsPool-frame r (node_register r idx obj word) l.free l.owned
          (ap (λ (h : Header). h.node_free_head) (register-header r idx obj word))
          (ap (λ (h : Header). h.node_fresh) (register-header r idx obj word))
          (register-next r idx obj word) v.pool;
    queues = λ other u. elim (Bool-cases (obj == other)) [
      | inl e ↦
          let k = ==→eq obj other e in
          rw (← k, ==_self obj)
            (node_register-Waiters r idx obj word (node-ne_nil idx c) (l.queue obj)
              (off_queue r l v obj idx idle) (v.queues obj used))
      | inr ne ↦ rw ne (
          node_register-Waiters_other r idx obj word (node-ne_nil idx c) (l.queue obj)
            (l.queue other) other (ground arith) (off_queue r l v other idx idle)
            (v.queues obj used) (v.queues other (sym (register-state r idx obj word other) ∙ u)))
    ];
    unused =
        λ other un. let e = register-state r idx obj word other in ground (arith, v.unused other);
    queued = λ other x d. ground (arith, v.queued other x);
    listed = λ x d. let n = register-node r idx obj word x in ground (arith, v.listed x);
    idle = λ x d. let n = register-node r idx obj word x in ground (arith, v.idle x, c);
  }
