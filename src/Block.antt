-- ===== src/Block.antt =====
-- src/core.rs, lines 1380-1425 and 1483-1825: the loop of a `wait` that blocks. Each turn takes the region
-- lock, checks the objects again, registers one waiter node for each, tries to acquire, and gives the
-- lock up; then it spins, sleeps on the futex word of its first node, and detaches what is left. What the
-- clock, the futex and the other threads do in a turn is an argument (`Turn`). The debug log and the
-- statistics are left out.
pub mod Lockfree
pub mod Cleanup
pub mod Gather
pub mod Enlisted
pub mod Account
pub mod Blocked
pub mod Signaled
pub mod Wakeup
pub mod Whole
pub mod Ends
pub mod Flaws
pub mod Spinning
pub mod Asleep
use ntsync_android.Base.{
  ℕ, zero, suc, ◌+◌, ◌-◌, ◌%◌, ◌^◌, Bool, true, false, not, ◌&&◌, ◌||◌, Option, none, some, List,
  [], ◌∷◌, ◌++◌, ◌==◌, ltb, leb, map, length, if◌then◌else◌,
}
use ntsync_android.Word.{lo}
use ntsync_android.Region.{Region, Slot, WaitOutcome, signaled, timeout, slot, index_of, type_event}
use ntsync_android.Object.{is_locked}
use ntsync_android.Waiter.{node_alloc, node_detach, node_register, waiter_cleanup, detach_all}
use ntsync_android.Satisfy.{Target, Others, meanwhile, later, try_satisfy}
use ntsync_android.Wait.{waitable, alert_valid, alert_signaled}

-- The arguments of `wait` that no turn changes. The handles stand in the targets.
pub record Call : Type 0 where
  pub pid : ℕ
  pub owner : ℕ
  pub all : Bool
  pub alert : ℕ

-- `NodeSet`: `idx[..len]`.
abbrev pub NodeSet : Type 0
NodeSet = List ℕ

unfoldable pub push : NodeSet → ℕ → NodeSet
push nodes v = nodes ++ v ∷ []

-- `nodes[0]`, which is read of a set that is not empty.
abbrev pub head_of : NodeSet → ℕ
head_of [] = 0
head_of (idx ∷ nodes) = idx

abbrev pub is_empty : NodeSet → Bool
is_empty [] = true
is_empty (idx ∷ nodes) = false

-- The objects to register for: one of each handle, then the alert.
unfoldable pub objects : (alert : ℕ) → List Target → List ℕ
objects alert [] = if alert == 0 then [] else index_of alert ∷ []
objects alert (t ∷ ts) = index_of t.handle ∷ objects alert ts

-- The validation of one handle; `first` is whether no node is allocated yet.
unfoldable pub revalidate_one : (first : Bool) → Region → Target → Option Target
revalidate_one first r t = elim (slot r t.handle) [
  | none ↦ none
  | some i ↦
      let s = r.slots i in
      if waitable s.obj_type
      then some (if first && (s.obj_type == type_event) then record t { entry_seq = s.d } else t)
      else none
]

unfoldable pub revalidate : (first : Bool) → Region → List Target → Option (List Target)
revalidate first r [] = some []
revalidate first r (t ∷ ts) =
    let rest = revalidate first r ts in
    elim (revalidate_one first r t) [
      | none ↦ none
      | some u ↦ elim rest [ none ↦ none | some us ↦ some (u ∷ us) ]
    ]

-- `for _ in 0..n_nodes`: whether the pool had enough, and the nodes that it gave.
unfoldable pub alloc_nodes : (n : ℕ) → (pid : ℕ) → NodeSet → Region → Bool × NodeSet × Region
alloc_nodes zero pid nodes r = (true, nodes, r)
alloc_nodes (suc n) pid nodes r =
    let (got, r') = node_alloc pid r in
    elim got [ some idx ↦ alloc_nodes n pid (push nodes idx) r' | none ↦ (false, nodes, r') ]

-- A node that is not registered (any more) is registered for its object.
unfoldable pub register_one : (head : ℕ) → Region → (idx obj : ℕ) → Region
register_one head r idx obj =
    if (r.nodes idx).registered == 0 then node_register r idx obj head else r

-- The nodes and their objects one by one; there is a node for each object.
unfoldable pub register_all : (head : ℕ) → NodeSet → (objs : List ℕ) → Region → Region
register_all head [] objs r = r
register_all head (idx ∷ nodes) [] r = r
register_all head (idx ∷ nodes) (obj ∷ objs) r =
    register_all head nodes objs (register_one head r idx obj)

-- What a turn under the lock comes to: a result, with the nodes given back, or the sample of the head
-- node's futex word.
pub data Cycle : Type 0 where
  returned : WaitOutcome → Cycle
  blocked : (targets : List Target) → (nodes : NodeSet) → (seq : ℕ) → Cycle

abbrev pub give_up : WaitOutcome → NodeSet → Region → Cycle × Region
give_up out nodes r = (returned out, waiter_cleanup r nodes)

-- From the registration on.
unfoldable pub enlist :
    Others → Call → (due : Bool) → List Target → NodeSet → Region → Cycle × Region
enlist fs c due ts nodes r =
    let head = head_of nodes in
    let r1 = register_all head nodes (objects c.alert ts) r in
    let (out, r2) = try_satisfy fs r1 c.owner ts c.all in
    elim out [
      | some o ↦ give_up o nodes r2
      | none ↦ if due then give_up timeout nodes r2 else (blocked ts nodes (r2.nodes head).seq, r2)
    ]

-- One turn with the lock held; `due` is whether the deadline is past.
unfoldable pub locked_cycle :
    Others → Call → (due : Bool) → List Target → NodeSet → Region → Cycle × Region
locked_cycle fs c due ts nodes r = elim (revalidate (is_empty nodes) r ts) [
  | none ↦ give_up WaitOutcome.invalid nodes r
  | some us ↦
      let n = length (objects c.alert us) in
      let (enough, nodes', r') =
        if is_empty nodes then alloc_nodes n c.pid [] r else (true, nodes, r) in
      if not (alert_valid r c.alert)
      then give_up WaitOutcome.invalid nodes r
      else if alert_signaled r c.alert
      then give_up (signaled (length us) false) nodes r
      else if not enough
      then give_up WaitOutcome.invalid nodes' r'
      else enlist fs c due us nodes' r'
]
