-- ===== src/Waiter.antt =====
-- src/core.rs, lines 475-604 and 1380-1425: the pool of waiter nodes and the waiter list of each
-- object. A node is linked on its object's list by `obj_prev` and `obj_next`, and on the pool's free
-- list by `waiter_next`. Every function here runs with the region lock held.
pub mod Seg
pub mod Detach
pub mod Register
pub mod Wake
pub mod Slots
pub mod Pool
pub mod Wf
pub mod Keeps
pub mod Leaves
use ntsync_android.Base.{
  ℕ, zero, suc, ◌+◌, ◌%◌, ◌^◌, Bool, true, false, not, Option, none, some, List, [], ◌∷◌, ◌==◌, leb,
  if◌then◌else◌,
}
use ntsync_android.Region.{
  Region, Slot, WaitNode, Header, nil, node_count, set_slot, set_node, set_header,
}

-- `futex_wake(&(*head).seq)` after `seq.fetch_add(1)`, on a waiter's head node.
abbrev pub bump_and_wake : Region → ℕ → Region
bump_and_wake r word =
    let n = r.nodes word in
    record r {
      nodes = (set_node r word (record n { seq = (n.seq + 1) % 2 ^ 32 })).nodes;
      woken = word ∷ r.woken;
    }

-- A node as `node_alloc` hands it out. Its futex word goes on counting.
abbrev pub fresh_node : (pid : ℕ) → WaitNode → WaitNode
fresh_node pid n = record {
  seq = n.seq;
  registered = 0;
  obj = nil;
  wait_word = nil;
  obj_prev = nil;
  obj_next = nil;
  waiter_next = nil;
  pid = pid;
}

unfoldable pub node_alloc : (pid : ℕ) → Region → Option ℕ × Region
node_alloc pid r =
    let head = r.header.node_free_head in
    let fresh = r.header.node_fresh in
    if not (head == nil)
    then (let h = r.header in
        let r' = set_header r (record h { node_free_head = (r.nodes head).waiter_next }) in
        (some head, set_node r' head (fresh_node pid (r'.nodes head))))
    else if leb node_count fresh
    then (none, r)
    else (let h = r.header in
        let r' = set_header r (record h { node_fresh = fresh + 1 }) in
        (some fresh, set_node r' fresh (fresh_node pid (r'.nodes fresh))))

unfoldable pub node_free : Region → ℕ → Region
node_free r idx =
    let n = r.nodes idx in
    let h = r.header in
    set_header (set_node r idx (record n { waiter_next = r.header.node_free_head }))
      (record h { node_free_head = idx })

-- The write to the node or the head before `idx`, the one to the node after it, and the reset of its
-- own links, in this order.
abbrev pub unlink_prev : Region → ℕ → Region
unlink_prev r idx =
    let n = r.nodes idx in
    let s = r.slots n.obj in
    let p = r.nodes n.obj_prev in
    if n.obj_prev == nil
    then set_slot r n.obj (record s { waiter_head = n.obj_next })
    else set_node r n.obj_prev (record p { obj_next = n.obj_next })

abbrev pub unlink_next : Region → ℕ → Region
unlink_next r idx =
    let n = r.nodes idx in
    let q = r.nodes n.obj_next in
    if not (n.obj_next == nil)
    then set_node r n.obj_next (record q { obj_prev = n.obj_prev })
    else r

abbrev pub clear_links : Region → ℕ → Region
clear_links r idx =
    let n = r.nodes idx in
    set_node r idx (record n { registered = 0; obj = nil; obj_prev = nil; obj_next = nil })

unfoldable pub node_detach : Region → ℕ → Region
node_detach r idx =
    if (r.nodes idx).registered == 0
    then r
    else clear_links (unlink_next (unlink_prev r idx) idx) idx

unfoldable pub node_register : Region → (idx obj_idx wait_word : ℕ) → Region
node_register r idx obj_idx wait_word =
    let old_head = (r.slots obj_idx).waiter_head in
    let n = r.nodes idx in
    let r1 = set_node r idx (record n {
      registered = 1;
      obj = obj_idx;
      wait_word = wait_word;
      obj_prev = nil;
      obj_next = old_head;
    }) in
    let q = r1.nodes old_head in
    let r2 =
      if not (old_head == nil) then set_node r1 old_head (record q { obj_prev = idx }) else r1 in
    let s = r2.slots obj_idx in set_slot r2 obj_idx (record s { waiter_head = idx })

-- The `while` of `wake_object`, on fuel. The next node and the futex word are read before the node is
-- detached.
unfoldable pub wake_loop : ℕ → Region → (idx : ℕ) → Region
wake_loop zero r idx = r
wake_loop (suc fuel) r idx =
    let next = (r.nodes idx).obj_next in
    let word = (r.nodes idx).wait_word in
    let rest = wake_loop fuel (bump_and_wake (node_detach r idx) word) next in
    if idx == nil then r else rest

-- A list of distinct nodes of the pool has at most `node_count` of them. On a list that is not well formed
-- the walk of the source may never end, where this one stops when the fuel is used up.
unfoldable pub wake_object : Region → ℕ → Region
unfolding wake_loop
wake_object r obj_idx = wake_loop (node_count + 1) r (r.slots obj_idx).waiter_head

-- `lock_ok` is whether the region lock could be taken.
unfoldable pub wake_waiters_if_any : (lock_ok : Bool) → Region → ℕ → Region
wake_waiters_if_any lock_ok r obj_idx =
    if (r.slots obj_idx).waiter_head == nil then r else if lock_ok then wake_object r obj_idx else r

-- `waiter_cleanup`: detach all, then free all.
abbrev pub detach_all : Region → List ℕ → Region
detach_all r [] = r
detach_all r (idx ∷ ns) = detach_all (node_detach r idx) ns

abbrev pub free_all : Region → List ℕ → Region
free_all r [] = r
free_all r (idx ∷ ns) = free_all (node_free r idx) ns

unfoldable pub waiter_cleanup : Region → (nodes : List ℕ) → Region
waiter_cleanup r nodes = free_all (detach_all r nodes) nodes
