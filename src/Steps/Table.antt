-- ===== src/Steps/Table.antt =====
-- Creating, closing and reaping (src/core.rs, lines 767-922 and 1998-2044) keep the waiter nodes well formed.
use ntsync_android.Base.{
  ℕ, zero, suc, ◌+◌, ◌%◌, ◌^◌, ◌≡◌, ◌≢◌, refl, ◌∙◌, ap, true, not, ◌&&◌, some, List, arith,
  contains, ◌==◌, Bool-cases, inl, inr, ==→eq,
}
use ntsync_android.Region.{
  Region, Slot, Env, Header, WaitNode, slot, index_of, slot_used, slot_free, nil, set_slot,
  slot_count,
}
use ntsync_android.Region.Handle.{slot-some}
use ntsync_android.Holder.{holder_remove}
use ntsync_android.Waiter.{node_detach, node_free, wake_object}
use ntsync_android.Waiter.Seg.{SameLinks-of_eq}
use ntsync_android.Waiter.Detach.{node_detach_self}
use ntsync_android.Waiter.Slots.{wake_object-SameObject}
use ntsync_android.Waiter.Pool.{IsPool-frame, without}
use ntsync_android.Waiter.Wf.{Layout, IsWf, Waiters-frame, queue-fits}
use ntsync_android.Waiter.Keeps.{node_free-IsWf, with_free_node}
use ntsync_android.Waiter.Leaves.{Rearranged, Woke-IsWf, node_detach-Rearranged}
use ntsync_android.Slot.{alloc_loop, alloc_slot, slot_publish, close_slot}
use ntsync_android.Slot.Alloc.{Took, alloc_slot-Took}
use ntsync_android.Slot.Create.{index_of-handle_of}
use ntsync_android.Slot.Close.{set_slot-Woke}
use ntsync_android.Sweep.{DeadCand, reap_one, still_slot}
use ntsync_android.Steps.{reaped}

-- The search leaves the header's pool.
alloc_loop-pool :
    (left i cursor : ℕ) (r : Region)
    → ((alloc_loop left i cursor r).1.header.node_free_head ≡ r.header.node_free_head)
      × ((alloc_loop left i cursor r).1.header.node_fresh ≡ r.header.node_fresh)
unfolding alloc_loop
alloc_loop-pool zero i cursor r = (refl, refl)
alloc_loop-pool (suc left) i cursor r =
    let rest = alloc_loop-pool left (i + 1) cursor r in
    elim (Bool-cases ((r.slots ((cursor + i) % slot_count)).state == slot_free)) [
      | inl free ↦ rw free (refl, refl)
      | inr used ↦ rw used rest
    ]

alloc_slot-pool :
    (r : Region)
    → ((alloc_slot r).1.header.node_free_head ≡ r.header.node_free_head)
      × ((alloc_slot r).1.header.node_fresh ≡ r.header.node_fresh)
unfolding alloc_slot
alloc_slot-pool r = alloc_loop-pool slot_count 0 (r.header.next_scan % 2 ^ 31) r

-- A region whose waiter nodes are well formed and of which exactly `o` are owned.
pub record Owning (r' : Region) (o : List ℕ) : Type 0 where
  pub layout : Layout
  pub wf : IsWf r' layout
  pub owned : layout.owned ≡ o

module _ (r : Region) (l : Layout) (v : IsWf r l) where
  publish_slots :
      (handle pid t w : ℕ) (r1 : Region) (k : Took r handle r1)
      → (((slot_publish pid handle t w r1).slots k.index).state ≡ slot_used)
        × (((slot_publish pid handle t w r1).slots k.index).waiter_head ≡ nil)
        × ((obj : ℕ) → obj ≢ k.index → (slot_publish pid handle t w r1).slots obj ≡ r.slots obj)
  unfolding slot_publish
  publish_slots handle pid t w r1 k =
      let e : index_of handle ≡ k.index =
        ground
          (arith, k.named, index_of-handle_of (r.slots k.index).generation k.index k.in_table) in
      (ground (arith, k.emptied), ground (arith, k.emptied), λ obj ne. ground (arith, k.others obj))

  publish-nodes :
      (handle pid t w : ℕ) (r1 : Region)
      → ((slot_publish pid handle t w r1).nodes ≡ r1.nodes)
        × ((slot_publish pid handle t w r1).header ≡ r1.header)
  unfolding slot_publish
  publish-nodes handle pid t w r1 = (refl, refl)

  pub publish-IsWf :
      (handle pid t w : ℕ) (r1 : Region)
      → alloc_slot r ≡ (some handle, r1)
      → IsWf (slot_publish pid handle t w r1) l
  publish-IsWf handle pid t w r1 e =
      let k = alloc_slot-Took r e in
      let pool = alloc_slot-pool r in
      let at : (alloc_slot r).1 ≡ r1 = ap (λ a. a.1) e in
      let r' = slot_publish pid handle t w r1 in
      let (used, empty, others) = publish_slots handle pid t w r1 k in
      let (nodes1, header) = publish-nodes handle pid t w r1 in
      let nodes = nodes1 ∙ k.nodes in
      let unused = v.unused k.index (ground (arith, k.was_free)) in
      record {
        pool =
            IsPool-frame r r' l.free l.owned
              (ap (λ (h : Header). h.node_free_head) header ∙ (rw at at pool.0))
              (ap (λ (h : Header). h.node_fresh) header ∙ (rw at at pool.1))
              (λ x. ap (λ (N : ℕ → WaitNode). (N x).waiter_next) nodes) v.pool;
        queues = λ obj u. elim (Bool-cases (obj == k.index)) [
          | inl same ↦
              let f = ==→eq obj k.index same in
              rw (f, unused) (record { chain = empty; distinct = tt })
          | inr ne ↦
              let f = others obj (ground arith) in
              Waiters-frame r r' obj (l.queue obj) (ap (λ (s : Slot). s.waiter_head) f)
                (λ x c. SameLinks-of_eq (ap (λ (N : ℕ → WaitNode). N x) nodes))
                (v.queues obj (rw f at u))
        ];
        unused = λ obj un. elim (Bool-cases (obj == k.index)) [
          | inl same ↦ let f = ==→eq obj k.index same in rw f unused
          | inr ne ↦ let f = others obj (ground arith) in v.unused obj (rw f at un)
        ];
        queued = v.queued;
        listed = λ x c. rw nodes (v.listed x c);
        idle = λ x c. rw nodes (v.idle x c);
      }

  -- Freeing a used slot and waking its waiters.
  freed-Rearranged :
      (i : ℕ) (s : Slot)
      → (r.slots i).state ≡ slot_used
      → s.waiter_head ≡ (r.slots i).waiter_head
      → Rearranged (wake_object (set_slot r i s) i) l
  freed-Rearranged i s used head = record {
    layout = _;
    wf =
        Woke-IsWf r l v i (wake_object (set_slot r i s) i)
          (set_slot-Woke r i s (l.queue i) head (queue-fits r l v i used) (v.queues i used))
          (λ other ne. (wake_object-SameObject (set_slot r i s) i other).state ∙ ground arith);
    free = refl;
    owned = refl;
  }

  holder_remove-head : (s : Slot) (pid : ℕ) → (holder_remove s pid).waiter_head ≡ s.waiter_head
  unfolding holder_remove
  holder_remove-head s pid = ground arith

  pub close_slot-Rearranged :
      (env : Env) (handle i : ℕ) → slot r handle ≡ some i → Rearranged (close_slot env i r) l
  unfolding close_slot
  close_slot-Rearranged env handle i e =
      let (at, used, _) = slot-some r handle e in
      let s = holder_remove (r.slots i) env.pid in
      freed-Rearranged i (record s { state = slot_free; generation = (s.generation + 1) % 2 ^ 32 })
        used (holder_remove-head (r.slots i) env.pid)

  reap_node-Owning :
      (c : DeadCand)
      → (r.nodes c.index).registered ≢ 0
      → Owning (node_free (node_detach r c.index) c.index) (without c.index l.owned)
  reap_node-Owning c reg =
      let i = c.index in
      let own : contains l.owned i ≡ true = ground (arith, v.idle i) in
      let a = node_detach-Rearranged r l v i own in
      let own' : contains a.layout.owned i ≡ true =
        ap (λ (o : List ℕ). contains o i) a.owned ∙ own in
      record {
        layout = with_free_node (node_detach r i) a.layout a.wf i;
        wf = node_free-IsWf (node_detach r i) a.layout a.wf i own' (node_detach_self r i);
        owned = ap (λ (o : List ℕ). without i o) a.owned;
      }

  still_slot-used : (c : DeadCand) → still_slot r c ≡ true → (r.slots c.index).state ≡ slot_used
  unfolding still_slot
  still_slot-used c e = ground arith

  pub reap_one-Owning : (c : DeadCand) → Owning (reap_one r c).0 (reaped r c l.owned)
  unfolding reap_one still_slot
  reap_one-Owning c =
      let same : Owning r l.owned = record { layout = l; wf = v; owned = refl } in
      elim (Bool-cases c.node) [
        | inl n ↦
            elim (Bool-cases
              (not ((r.nodes c.index).registered == 0) && ((r.nodes c.index).pid == c.pid))) [
                | inl there ↦ rw (n, there) (reap_node-Owning c (ground arith))
                | inr changed ↦ rw (n, changed) same
              ]
        | inr n ↦ elim (Bool-cases (still_slot r c)) [
          | inl still ↦
              let s = r.slots c.index in
              let k =
                freed-Rearranged c.index
                  (record s { state = slot_free; generation = (s.generation + 1) % 2 ^ 32 })
                  (still_slot-used c still) refl in
              rw (n, still) (record { layout = k.layout; wf = k.wf; owned = k.owned })
          | inr changed ↦ rw (n, changed) same
        ]
      ]
