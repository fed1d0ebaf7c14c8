-- ===== src/Waiter/Slots.antt =====
-- The waiter functions of src/core.rs leave every field of a slot alone but its `waiter_head`.
use ntsync_android.Base.{ℕ, zero, suc, ◌+◌, ◌≡◌, refl, ◌∙◌, arith, Bool}
use ntsync_android.Region.{Region, Slot, node_count}
use ntsync_android.Waiter.{
  node_detach, node_free, bump_and_wake, wake_loop, wake_object, wake_waiters_if_any,
}

-- Two slots with the same object.
pub record SameObject (s t : Slot) : Type 0 where
  pub state : s.state ≡ t.state
  pub generation : s.generation ≡ t.generation
  pub obj_type : s.obj_type ≡ t.obj_type
  pub pid : s.pid ≡ t.pid
  pub holders_len : s.holders_len ≡ t.holders_len
  pub holders : s.holders ≡ t.holders
  pub w0 : s.w0 ≡ t.w0
  pub d : s.d ≡ t.d

pub SameObject-refl : (s : Slot) → SameObject s s
SameObject-refl s = ground arith

pub SameObject-trans : {s t u : Slot} → SameObject s t → SameObject t u → SameObject s u
SameObject-trans a b = record {
  state = a.state ∙ b.state;
  generation = a.generation ∙ b.generation;
  obj_type = a.obj_type ∙ b.obj_type;
  pid = a.pid ∙ b.pid;
  holders_len = a.holders_len ∙ b.holders_len;
  holders = a.holders ∙ b.holders;
  w0 = a.w0 ∙ b.w0;
  d = a.d ∙ b.d;
}

pub node_detach-SameObject :
    (r : Region) (idx i : ℕ) → SameObject ((node_detach r idx).slots i) (r.slots i)
unfolding node_detach
node_detach-SameObject r idx i = ground arith

wake_loop-SameObject :
    (fuel : ℕ) (r : Region) (idx i : ℕ) → SameObject ((wake_loop fuel r idx).slots i) (r.slots i)
unfolding wake_loop
wake_loop-SameObject zero r idx i = SameObject-refl (r.slots i)
wake_loop-SameObject (suc fuel) r idx i =
    let word = (r.nodes idx).wait_word in
    let rest =
      wake_loop-SameObject fuel (bump_and_wake (node_detach r idx) word) (r.nodes idx).obj_next i in
    let one = SameObject-trans rest (node_detach-SameObject r idx i) in ground arith

pub wake_object-SameObject :
    (r : Region) (obj i : ℕ) → SameObject ((wake_object r obj).slots i) (r.slots i)
unfolding wake_object
wake_object-SameObject r obj i = wake_loop-SameObject (node_count + 1) r (r.slots obj).waiter_head i

pub wake_if_any-SameObject :
    (b : Bool) (r : Region) (obj i : ℕ)
    → SameObject ((wake_waiters_if_any b r obj).slots i) (r.slots i)
unfolding wake_waiters_if_any
wake_if_any-SameObject b r obj i = ground (arith, wake_object-SameObject r obj i)

pub node_free-SameObject :
    (r : Region) (idx i : ℕ) → SameObject ((node_free r idx).slots i) (r.slots i)
unfolding node_free
node_free-SameObject r idx i = ground arith

-- Nor do they touch the time of the last sweep.
pub node_detach-sweep_ns :
    (r : Region) (idx : ℕ) → (node_detach r idx).header.sweep_ns ≡ r.header.sweep_ns
unfolding node_detach
node_detach-sweep_ns r idx = ground arith

pub node_free-sweep_ns :
    (r : Region) (idx : ℕ) → (node_free r idx).header.sweep_ns ≡ r.header.sweep_ns
unfolding node_free
node_free-sweep_ns r idx = ground arith

wake_loop-sweep_ns :
    (fuel : ℕ) (r : Region) (idx : ℕ) → (wake_loop fuel r idx).header.sweep_ns ≡ r.header.sweep_ns
unfolding wake_loop
wake_loop-sweep_ns zero r idx = refl
wake_loop-sweep_ns (suc fuel) r idx =
    let word = (r.nodes idx).wait_word in
    let rest =
      wake_loop-sweep_ns fuel (bump_and_wake (node_detach r idx) word) (r.nodes idx).obj_next in
    let one = node_detach-sweep_ns r idx in ground arith

pub wake_object-sweep_ns :
    (r : Region) (obj : ℕ) → (wake_object r obj).header.sweep_ns ≡ r.header.sweep_ns
unfolding wake_object
wake_object-sweep_ns r obj = wake_loop-sweep_ns (node_count + 1) r (r.slots obj).waiter_head
