-- ===== src/Slot/Close.antt =====
-- `close` of src/core.rs (lines 901-922).
use ntsync_android.Base.{
  ℕ, ◌+◌, ◌%◌, ◌^◌, ◌≤◌, ◌≡◌, ◌≢◌, true, none, List, arith, length, Option-cases, inl, inr,
}
use ntsync_android.Region.{Region, Slot, Env, slot, index_of, slot_free, set_slot, node_count}
use ntsync_android.Region.Handle.{slot-some}
use ntsync_android.Holder.{holder_remove}
use ntsync_android.Waiter.{wake_object}
use ntsync_android.Waiter.Seg.{Waiters}
use ntsync_android.Waiter.Slots.{SameObject, wake_object-SameObject}
use ntsync_android.Waiter.Wake.{Woke, wake_object-Woke}
use ntsync_android.Slot.{close, close_slot}

-- A write to a slot that leaves its `waiter_head` leaves the lists.
pub set_slot-Waiters :
    (r : Region) (i obj : ℕ) (s : Slot) (xs : List ℕ)
    → s.waiter_head ≡ (r.slots i).waiter_head
    → Waiters r obj xs
    → Waiters (set_slot r i s) obj xs
set_slot-Waiters r i obj s xs h w =
    let e : ((set_slot r i s).slots obj).waiter_head ≡ (r.slots obj).waiter_head = ground arith in
    record { chain = rw e w.chain; distinct = w.distinct }

-- Waking after such a write is waking, as far as the waiters go.
pub set_slot-Woke :
    (r : Region) (i : ℕ) (s : Slot) (xs : List ℕ)
    → s.waiter_head ≡ (r.slots i).waiter_head
    → length xs ≤ node_count
    → Waiters r i xs
    → Woke i xs r (wake_object (set_slot r i s) i)
set_slot-Woke r i s xs h few w =
    let k = wake_object-Woke i (set_slot r i s) xs few (set_slot-Waiters r i i s xs h w) in
    record {
      queue = k.queue;
      woken = k.woken;
      counted = k.counted;
      unlinked = k.unlinked;
      kept = k.kept;
      others = λ other ys ne v. k.others other ys ne (set_slot-Waiters r i other s ys h v);
      pool = k.pool;
      header = k.header;
    }

holder_remove-frame :
    (s : Slot) (pid : ℕ)
    → ((holder_remove s pid).waiter_head ≡ s.waiter_head)
      × ((holder_remove s pid).generation ≡ s.generation)
unfolding holder_remove
holder_remove-frame s pid = (ground arith, ground arith)

-- What closing an object leaves.
pub record Closed (r r' : Region) (handle : ℕ) (xs : List ℕ) : Type 0 where
  pub gone : slot r' handle ≡ none
  pub free : (r'.slots (index_of handle)).state ≡ slot_free
  pub generation :
      (r'.slots (index_of handle)).generation
      ≡ ((r.slots (index_of handle)).generation + 1) % 2 ^ 32
  pub woke : Woke (index_of handle) xs r r'
  pub others : (j : ℕ) → j ≢ index_of handle → SameObject (r'.slots j) (r.slots j)

close_slot-Closed :
    (env : Env) (r : Region) (handle : ℕ) (xs : List ℕ)
    → length xs ≤ node_count
    → Waiters r (index_of handle) xs
    → Closed r (close_slot env (index_of handle) r) handle xs
unfolding close_slot slot
close_slot-Closed env r handle xs few w =
    let i = index_of handle in
    let s = holder_remove (r.slots i) env.pid in
    let (head, gen) = holder_remove-frame (r.slots i) env.pid in
    let freed : Slot = record s { state = slot_free; generation = (s.generation + 1) % 2 ^ 32 } in
    let same = wake_object-SameObject (set_slot r i freed) i in
    let there = same i in
    record {
      gone = ground (arith, there.state);
      free = ground (arith, there.state);
      generation = ground (arith, there.generation);
      woke = set_slot-Woke r i freed xs head few w;
      others = λ j ne. ground (arith, same j);
    }

-- A successful `close` of a handle whose object has the waiters `xs` frees the slot and counts its
-- generation, so that the handle names nothing any more; it detaches and wakes every waiter, each head
-- node's futex word counted once for each of its nodes on the list, and leaves the other objects and
-- their waiter lists alone.
pub close-Closed :
    (env : Env) (r : Region) (handle : ℕ) (xs : List ℕ) {r' : Region}
    → length xs ≤ node_count
    → Waiters r (index_of handle) xs
    → close env handle r ≡ (true, r')
    → Closed r r' handle xs
unfolding close
close-Closed env r handle xs {r'} few w e = elim (Option-cases (slot r handle)) [
  | inl f ↦ absurd (ground arith)
  | inr (i, f) ↦
      let (at, _, _) = slot-some r handle f in
      let final : r' ≡ close_slot env (index_of handle) r = ground arith in
      rw final (close_slot-Closed env r handle xs few w)
]
