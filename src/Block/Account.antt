-- ===== src/Block/Account.antt =====
-- What a blocking wait (src/core.rs, lines 1538-1658) owes and holds: its waiter nodes before, between and after
-- the turns.
use ntsync_android.Base.{
  ℕ, ◌≡◌, refl, Bool, true, not, ◌&&◌, ◌||◌, some, List, [], ◌∷◌, arith, contains, length,
  Bool-cases, Option-cases, inl, inr, ◌==◌,
}
use ntsync_android.Region.{Region, slot, index_of, slot_used}
use ntsync_android.Region.Handle.{slot-some}
use ntsync_android.Waiter.{waiter_cleanup}
use ntsync_android.Waiter.Seg.{Distinct}
use ntsync_android.Waiter.Wf.{Layout, IsWf}
use ntsync_android.Satisfy.{Target}
use ntsync_android.Wait.{alert_valid}
use ntsync_android.Block.{
  NodeSet, head_of, objects, revalidate_one, revalidate, Cycle, returned, blocked,
}
use ntsync_android.Block.Cleanup.{AllOwned, waiter_cleanup-GivenBack}
use ntsync_android.Block.Gather.{Gathered}
use ntsync_android.Block.Enlisted.{AllEnrolled, AllMine, AllUsed}

-- The nodes are given back: what is owned is what was owned besides them.
pub record GivesBack (r' : Region) (l : Layout) (nodes : NodeSet) : Type 0 where
  pub layout : Layout
  pub wf : IsWf r' layout
  pub owned : (x : ℕ) → contains layout.owned x ≡ (contains l.owned x && not (contains nodes x))

-- Every object has a node of the waiter on its list, with the head node as the one to wake, and `seq` is
-- the head node's futex word.
pub record Sleeping (r' : Region) (l : Layout) (objs : List ℕ) (ns : NodeSet) (seq : ℕ)
    : Type 0 where
  pub layout : Layout
  pub wf : IsWf r' layout
  pub owned : (x : ℕ) → contains layout.owned x ≡ (contains l.owned x || contains ns x)
  pub distinct : Distinct ns
  pub one_each : length ns ≡ length objs
  pub enrolled : AllEnrolled r' (head_of ns) ns objs
  pub sampled : seq ≡ (r'.nodes (head_of ns)).seq

abbrev pub Accounted : Layout → NodeSet → (alert : ℕ) → Cycle → Region → Type 0
Accounted l nodes alert (returned out) r' = GivesBack r' l nodes
Accounted l nodes alert (blocked us ns seq) r' = Sleeping r' l (objects alert us) ns seq

-- What a waiter holds between two turns.
pub record Holds (r : Region) (l : Layout) (nodes : NodeSet) (objs : List ℕ) : Type 0 where
  pub owned : AllOwned l nodes
  pub distinct : Distinct nodes
  pub one_each : length nodes ≡ length objs
  pub mine : AllMine r (head_of nodes) nodes objs

pub AllEnrolled-nodes :
    (r r' : Region) (head : ℕ) (ns : NodeSet) (os : List ℕ)
    → r'.nodes ≡ r.nodes
    → AllEnrolled r head ns os
    → AllEnrolled r' head ns os
AllEnrolled-nodes r r' head [] os same e = tt
AllEnrolled-nodes r r' head (n ∷ ns) [] same e = tt
AllEnrolled-nodes r r' head (n ∷ ns) (o ∷ os) same e =
    (rw same e.0, AllEnrolled-nodes r r' head ns os same e.1)

-- A handle that is found valid names a used slot, and keeps its place among the objects.
revalidate_one-some :
    (first : Bool) (r : Region) (t : Target) {u : Target}
    → revalidate_one first r t ≡ some u
    → (u.handle ≡ t.handle) × ((r.slots (index_of t.handle)).state ≡ slot_used)
unfolding revalidate_one
revalidate_one-some first r t {u} e = elim (Option-cases (slot r t.handle)) [
  | inl f ↦ absurd (ground arith)
  | inr (i, f) ↦ let (at, state, _) = slot-some r t.handle f in (ground arith, rw at at state)
]

alert_valid-used :
    (r : Region) (alert : ℕ) → alert_valid r alert ≡ true → AllUsed r (objects alert [])
unfolding alert_valid objects
alert_valid-used r alert e = elim (Bool-cases (alert == 0)) [
  | inl none_given ↦ rw none_given tt
  | inr given ↦ elim (Option-cases (slot r alert)) [
    | inl f ↦ absurd (ground arith)
    | inr (i, f) ↦ let (at, state, _) = slot-some r alert f in rw given (rw at at state, tt)
  ]
]

pub revalidate-AllUsed :
    (first : Bool) (r : Region) (alert : ℕ) (ts : List Target) {us : List Target}
    → alert_valid r alert ≡ true
    → revalidate first r ts ≡ some us
    → AllUsed r (objects alert us) × (objects alert us ≡ objects alert ts)
unfolding revalidate objects
revalidate-AllUsed first r alert [] {us} a e =
    let k : us ≡ [] = ground arith in rw k (alert_valid-used r alert a, refl)
revalidate-AllUsed first r alert (t ∷ ts) {us} a e =
    elim (Option-cases (revalidate_one first r t)) [
      | inl f ↦ absurd (ground arith)
      | inr (u, f) ↦ elim (Option-cases (revalidate first r ts)) [
        | inl g ↦ absurd (ground arith)
        | inr (ws, g) ↦
            let k : us ≡ u ∷ ws = ground arith in
            let (named, state) = revalidate_one-some first r t f in
            let (used, same) = revalidate-AllUsed first r alert ts a g in
            rw k (rw named ((state, used), rw same refl))
      ]
    ]

pub cleanup-GivesBack :
    (r : Region) (l : Layout) (ns : NodeSet)
    → IsWf r l
    → AllOwned l ns
    → Distinct ns
    → GivesBack (waiter_cleanup r ns) l ns
cleanup-GivesBack r l ns v own d =
    let g = waiter_cleanup-GivenBack ns r l v own d in
    record { layout = g.layout; wf = g.wf; owned = g.owned }

AllMine-idle :
    (r : Region) (head : ℕ) (ns : NodeSet) (os : List ℕ)
    → ((x : ℕ) → contains ns x ≡ true → (r.nodes x).registered ≡ 0)
    → AllMine r head ns os
AllMine-idle r head [] os idle = tt
AllMine-idle r head (n ∷ ns) [] idle = tt
AllMine-idle r head (n ∷ ns) (o ∷ os) idle =
    (inl (idle n (ground arith)), AllMine-idle r head ns os (λ x d. idle x (ground arith)))

-- Nodes that have just been gathered are held.
pub Gathered-Holds :
    (r r' : Region) (l : Layout) (ns : NodeSet) (os : List ℕ) (g : Gathered [] r r' l ns)
    → length ns ≡ length os
    → Holds r' g.layout ns os
Gathered-Holds r r' l ns os g len = record {
  owned = λ x d. ground (arith, g.owned x);
  distinct = g.distinct;
  one_each = len;
  mine = AllMine-idle r' (head_of ns) ns os g.idle;
}

pub AllUsed-slots :
    (r r' : Region) (os : List ℕ) → r'.slots ≡ r.slots → AllUsed r os → AllUsed r' os
AllUsed-slots r r' [] same u = tt
AllUsed-slots r r' (o ∷ os) same u = (rw same u.0, AllUsed-slots r r' os same u.1)

-- The nodes of a first turn, given back before they are registered.
pub Gathered-GivesBack :
    (r r' r'' : Region) (l : Layout) (ns : NodeSet) (g : Gathered [] r r' l ns)
    → GivesBack r'' g.layout ns
    → GivesBack r'' l []
Gathered-GivesBack r r' r'' l ns g b = record {
  layout = b.layout;
  wf = b.wf;
  owned = λ x. ground (arith, b.owned x, g.owned x, g.new x);
}
