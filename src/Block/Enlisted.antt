-- ===== src/Block/Enlisted.antt =====
-- The registration of a blocking wait (src/core.rs, lines 550-566 and 1591-1619): one node of its own on
-- the list of each of its objects.
use ntsync_android.Base.{
  ℕ, ◌≡◌, ◌≢◌, ◌⊎◌, refl, ◌∙◌, ap, true, false, List, [], ◌∷◌, arith, contains, Bool-cases, inl,
  inr, ◌==◌, ==→eq,
}
use ntsync_android.Region.{Region, WaitNode, slot_used}
use ntsync_android.Waiter.{node_register}
use ntsync_android.Waiter.Seg.{Distinct}
use ntsync_android.Waiter.Wf.{Layout, IsWf}
use ntsync_android.Waiter.Keeps.{node_register-IsWf, with_queue}
use ntsync_android.Waiter.Leaves.{Rearranged}
use ntsync_android.Block.{NodeSet, register_one, register_all}
use ntsync_android.Block.Cleanup.{AllOwned}

-- `idx` stands on the list of `obj`, with `head` as the node to wake.
abbrev pub Enrolled : Region → (head idx obj : ℕ) → Type 0
Enrolled r head idx obj =
    ((r.nodes idx).registered ≡ 1) × ((r.nodes idx).obj ≡ obj) × ((r.nodes idx).wait_word ≡ head)

-- Each node of a waiter is on the list of its own object, and in the second form maybe on none.
abbrev pub AllEnrolled : Region → (head : ℕ) → NodeSet → List ℕ → Type 0
AllEnrolled r head [] objs = Unit
AllEnrolled r head (n ∷ ns) [] = Unit
AllEnrolled r head (n ∷ ns) (o ∷ os) = Enrolled r head n o × AllEnrolled r head ns os

abbrev pub AllMine : Region → (head : ℕ) → NodeSet → List ℕ → Type 0
AllMine r head [] objs = Unit
AllMine r head (n ∷ ns) [] = Unit
AllMine r head (n ∷ ns) (o ∷ os) =
    (((r.nodes n).registered ≡ 0) ⊎ Enrolled r head n o) × AllMine r head ns os

abbrev pub AllUsed : Region → List ℕ → Type 0
AllUsed r [] = Unit
AllUsed r (o ∷ os) = ((r.slots o).state ≡ slot_used) × AllUsed r os

-- Two contents of a node with the same object and the same word to wake.
pub record SameRole (n m : WaitNode) : Type 0 where
  pub registered : n.registered ≡ m.registered
  pub obj : n.obj ≡ m.obj
  pub wait_word : n.wait_word ≡ m.wait_word

module _ (head : ℕ) where
  register_one-other :
      (r : Region) (idx obj x : ℕ)
      → x ≢ idx
      → SameRole ((register_one head r idx obj).nodes x) (r.nodes x)
  unfolding register_one node_register
  register_one-other r idx obj x ne = ground arith

  register_one-state :
      (r : Region) (idx obj o : ℕ)
      → ((register_one head r idx obj).slots o).state ≡ (r.slots o).state
  unfolding register_one node_register
  register_one-state r idx obj o = ground arith

  register_one-Enrolled :
      (r : Region) (idx obj : ℕ)
      → ((r.nodes idx).registered ≡ 0) ⊎ Enrolled r head idx obj
      → Enrolled (register_one head r idx obj) head idx obj
  unfolding register_one node_register
  register_one-Enrolled r idx obj mine = ground arith

  register_one-Rearranged :
      (r : Region) (l : Layout) (idx obj : ℕ)
      → IsWf r l
      → contains l.owned idx ≡ true
      → (r.slots obj).state ≡ slot_used
      → Rearranged (register_one head r idx obj) l
  unfolding register_one
  register_one-Rearranged r l idx obj v own used =
      elim (Bool-cases ((r.nodes idx).registered == 0)) [
        | inl z ↦
            let idle = ==→eq (r.nodes idx).registered 0 z in
            rw z (record {
              layout = with_queue r l v obj (idx ∷ l.queue obj);
              wf = node_register-IsWf r l v idx obj head own idle used;
              free = refl;
              owned = refl;
            })
        | inr on ↦ rw on (record { layout = l; wf = v; free = refl; owned = refl })
      ]

  AllMine-other :
      (r r' : Region) (ns : NodeSet) (os : List ℕ)
      → ((x : ℕ) → contains ns x ≡ true → SameRole (r'.nodes x) (r.nodes x))
      → AllMine r head ns os
      → AllMine r' head ns os
  AllMine-other r r' [] os same m = tt
  AllMine-other r r' (n ∷ ns) [] same m = tt
  AllMine-other r r' (n ∷ ns) (o ∷ os) same m =
      let e = same n (ground arith) in
      (
        rw (e.registered, e.obj, e.wait_word) m.0,
        AllMine-other r r' ns os (λ x c. same x (ground arith)) m.1,
      )

  AllUsed-state :
      (r r' : Region) (os : List ℕ)
      → ((o : ℕ) → (r'.slots o).state ≡ (r.slots o).state)
      → AllUsed r os
      → AllUsed r' os
  AllUsed-state r r' [] same u = tt
  AllUsed-state r r' (o ∷ os) same u = (same o ∙ u.0, AllUsed-state r r' os same u.1)

  -- What registering the nodes `ns` for `os` leaves.
  pub record Registered (r r' : Region) (l : Layout) (ns : NodeSet) (os : List ℕ) : Type 0 where
    pub rearranged : Rearranged r' l
    pub enrolled : AllEnrolled r' head ns os
    pub state : (o : ℕ) → (r'.slots o).state ≡ (r.slots o).state
    pub others : (x : ℕ) → contains ns x ≡ false → SameRole (r'.nodes x) (r.nodes x)

  SameRole-refl : (n : WaitNode) → SameRole n n
  SameRole-refl n = ground arith

  Registered-none :
      (r : Region) (l : Layout) (ns : NodeSet) (os : List ℕ)
      → IsWf r l
      → AllEnrolled r head ns os
      → Registered r r l ns os
  Registered-none r l ns os v e = record {
    rearranged = record { layout = l; wf = v; free = refl; owned = refl };
    enrolled = e;
    state = λ o. refl;
    others = λ x c. SameRole-refl (r.nodes x);
  }

  pub register_all-Registered :
      (ns : NodeSet) (os : List ℕ) (r : Region) (l : Layout)
      → IsWf r l
      → AllOwned l ns
      → Distinct ns
      → AllUsed r os
      → AllMine r head ns os
      → Registered r (register_all head ns os r) l ns os
  unfolding register_all
  register_all-Registered [] os r l v own d used m = Registered-none r l [] os v tt
  register_all-Registered (n ∷ ns) [] r l v own d used m = Registered-none r l (n ∷ ns) [] v tt
  register_all-Registered (n ∷ ns) (o ∷ os) r l v own d used m =
      let r1 = register_one head r n o in
      let a = register_one-Rearranged r l n o v (own n (ground arith)) used.0 in
      let here = register_one-Enrolled r n o m.0 in
      let apart =
        λ (x : ℕ) (c : contains ns x ≡ true). register_one-other r n o x (ground (arith, d.0)) in
      let k =
        register_all-Registered ns os r1 a.layout a.wf
          (λ x c. ap (λ (w : List ℕ). contains w x) a.owned ∙ own x (ground arith)) d.1
          (AllUsed-state r r1 os (register_one-state r n o) used.1)
          (AllMine-other r r1 ns os apart m.1) in
      let e = k.others n d.0 in
      let b = k.rearranged in
      record {
        rearranged = record {
          layout = b.layout;
          wf = b.wf;
          free = b.free ∙ a.free;
          owned = b.owned ∙ a.owned;
        };
        enrolled = (rw (e.registered, e.obj, e.wait_word) here, k.enrolled);
        state = λ w. k.state w ∙ register_one-state r n o w;
        others = λ x c.
            let f = k.others x (ground arith) in
            let g = register_one-other r n o x (ground arith) in
            record {
              registered = f.registered ∙ g.registered;
              obj = f.obj ∙ g.obj;
              wait_word = f.wait_word ∙ g.wait_word;
            };
      }
