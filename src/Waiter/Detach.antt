-- ===== src/Waiter/Detach.antt =====
-- `node_detach` of src/core.rs (lines 525-548) takes a node out of its object's list.
use ntsync_android.Base.{
  ℕ, ◌≡◌, ◌≢◌, refl, true, false, ◌==◌, List, [], ◌∷◌, ◌++◌, contains, arith, if◌then◌else◌, ◌⊎◌,
  inl, inr, ◌∙◌,
}
use ntsync_android.Region.{WaitNode, Region, nil}
use ntsync_android.Waiter.{node_detach}
use ntsync_android.Waiter.Seg.{
  Seg, Distinct, last_or, Waiters, Seg-obj, Seg-frame, Seg-split, Seg-join, Seg-set_prev,
  Seg-set_next, Distinct-append_left, Distinct-append_right, Distinct-apart, Distinct-remove,
  contains-last_or, entry, SameLinks-of_eq,
}

-- The node that leaves, with what its place in a list says of its links.
record Leaving (r : Region) (idx obj prev next : ℕ) : Type 0 where
  registered : (r.nodes idx).registered ≡ 1
  on : (r.nodes idx).obj ≡ obj
  behind : (r.nodes idx).obj_prev ≡ prev
  before : (r.nodes idx).obj_next ≡ next
  prev_ne : prev ≢ idx
  next_ne : next ≢ idx
  ne_nil : idx ≢ nil

module _ {r : Region} {idx obj prev next : ℕ} (l : Leaving r idx obj prev next) where
  detach-head :
      ((node_detach r idx).slots obj).waiter_head
      ≡ (if prev == nil then next else (r.slots obj).waiter_head)
  unfolding node_detach
  detach-head = ground arith

  detach-head_other :
      (other : ℕ)
      → other ≢ obj
      → ((node_detach r idx).slots other).waiter_head ≡ (r.slots other).waiter_head
  unfolding node_detach
  detach-head_other other h = ground arith

  detach-keeps :
      (x : ℕ)
      → x ≢ idx
      → (((node_detach r idx).nodes x).registered ≡ (r.nodes x).registered)
        × (((node_detach r idx).nodes x).obj ≡ (r.nodes x).obj)
  unfolding node_detach
  detach-keeps x h = (ground arith, ground arith)

  detach-next :
      (x : ℕ)
      → x ≢ idx
      → x ≢ nil
      → ((node_detach r idx).nodes x).obj_next ≡ (if prev == x then next else (r.nodes x).obj_next)
  unfolding node_detach
  detach-next x h k = ground arith

  detach-prev :
      (x : ℕ)
      → x ≢ idx
      → x ≢ nil
      → ((node_detach r idx).nodes x).obj_prev ≡ (if next == x then prev else (r.nodes x).obj_prev)
  unfolding node_detach
  detach-prev x h k = ground arith

  detach-other : (x : ℕ) → x ≢ idx → x ≢ prev → x ≢ next → (node_detach r idx).nodes x ≡ r.nodes x
  unfolding node_detach
  detach-other x h k m = ground arith

-- Where the neighbours of `idx` stand, in a list `ys ++ idx ∷ zs`.
module _ (idx : ℕ) (zs : List ℕ) where
  front_ne :
      (ys : List ℕ) (x : ℕ)
      → Distinct (ys ++ idx ∷ zs)
      → contains ys x ≡ true
      → (x ≢ idx) × (contains zs x ≡ false)
  front_ne ys x d c = let e = Distinct-apart ys (idx ∷ zs) x d c in (ground arith, ground arith)

  back_ne : (ys : List ℕ) (x : ℕ) → Distinct (ys ++ idx ∷ zs) → contains zs x ≡ true → x ≢ idx
  back_ne ys x d c = let (e, _) = Distinct-append_right ys (idx ∷ zs) d in ground arith

  prev_ne_front : (ys : List ℕ) → Distinct (ys ++ idx ∷ zs) → idx ≢ nil → last_or nil ys ≢ idx
  prev_ne_front [] d k = ground arith
  prev_ne_front (y ∷ ys) d k = (front_ne (y ∷ ys) (last_or y ys) d (contains-last_or y ys)).0

  prev_ne_back :
      (ys : List ℕ) (x : ℕ)
      → Distinct (ys ++ idx ∷ zs)
      → contains zs x ≡ true
      → x ≢ nil
      → x ≢ last_or nil ys
  prev_ne_back [] x d c k = k
  prev_ne_back (y ∷ ys) x d c k =
      let (_, e) = front_ne (y ∷ ys) (last_or y ys) d (contains-last_or y ys) in ground arith

prev_place : (ys : List ℕ) → (last_or nil ys ≡ nil) ⊎ (contains ys (last_or nil ys) ≡ true)
prev_place [] = inl refl
prev_place (y ∷ ys) = inr (contains-last_or y ys)

entry-eq :
    (N : ℕ → WaitNode) (obj p m b : ℕ) (ys : List ℕ)
    → Seg N obj nil p ys m
    → (if last_or nil ys == nil then b else p) ≡ entry b p ys
entry-eq N obj p m b [] s = refl
entry-eq N obj p m b (y ∷ ys) s =
    let (_, _, k) = Seg-obj obj N nil p m (y ∷ ys) (last_or y ys) s (contains-last_or y ys) in
    ground arith

-- The node after a place, at the head of what follows.
head_of :
    (N : ℕ → WaitNode) (obj prev p : ℕ) (zs : List ℕ)
    → Seg N obj prev p zs nil
    → (p ≡ nil) ⊎ (contains zs p ≡ true)
head_of N obj prev p [] s = inl s
head_of N obj prev p (z ∷ zs) s = inr (ground arith)

module _ (r : Region) (obj idx : ℕ) (ys zs : List ℕ) (w : Waiters r obj (ys ++ idx ∷ zs)) where
  abbrev old : ℕ → WaitNode
  old = r.nodes

  abbrev new : ℕ → WaitNode
  new = (node_detach r idx).nodes

  abbrev prev : ℕ
  prev = last_or nil ys

  abbrev next : ℕ
  next = (old idx).obj_next

  abbrev head : ℕ
  head = (r.slots obj).waiter_head

  halves : (m : ℕ) × Seg old obj nil head ys m × Seg old obj prev m (idx ∷ zs) nil
  halves = Seg-split obj old nil head nil ys (idx ∷ zs) w.chain

  next_place : (next ≡ nil) ⊎ (contains zs next ≡ true)
  next_place = head_of old obj idx next zs halves.2.3

  leaving : Leaving r idx obj prev next
  leaving = record {
    registered = halves.2.2.registered;
    on = halves.2.2.on;
    behind = halves.2.2.behind;
    before = refl;
    prev_ne = prev_ne_front idx zs ys w.distinct halves.2.1;
    next_ne = elim next_place [
      | inl e ↦ ground (arith, halves.2.1)
      | inr c ↦ back_ne idx zs ys next w.distinct c
    ];
    ne_nil = halves.2.1;
  }

  next_ne_front : (x : ℕ) → contains ys x ≡ true → x ≢ nil → x ≢ next
  next_ne_front x c k = elim next_place [
    | inl e ↦ ground arith
    | inr f ↦ let (_, e) = front_ne idx zs ys x w.distinct c in ground arith
  ]

  front : Seg new obj nil (entry next head ys) ys next
  front =
      Seg-set_next obj old new nil head halves.0 next ys halves.1
        (Distinct-append_left ys (idx ∷ zs) w.distinct)
        λ x c.
          let (ne, _) = front_ne idx zs ys x w.distinct c in
          let (_, _, k) = Seg-obj obj old nil head halves.0 ys x halves.1 c in
          let (e, f) = detach-keeps leaving x ne in
          let apart = next_ne_front x c k in
          let q = detach-prev leaving x ne k in (e, f, ground arith, detach-next leaving x ne k)

  back : Seg new obj prev next zs nil
  back =
      Seg-set_prev obj old new idx prev next nil zs halves.2.3
        (Distinct-append_right ys (idx ∷ zs) w.distinct).1
        λ x c.
          let ne = back_ne idx zs ys x w.distinct c in
          let (on, reg, k) = Seg-obj obj old idx next nil zs x halves.2.3 c in
          let apart = prev_ne_back idx zs ys x w.distinct c k in
          let (e, f) = detach-keeps leaving x ne in
          let q = detach-prev leaving x ne k in
          let n = detach-next leaving x ne k in
          (λ h. ground arith, λ h. detach-other leaving x ne apart h, ground arith)

  -- Detaching a node that stands anywhere on an object's list leaves the waiters before it and after it,
  -- in their order.
  pub node_detach-Waiters : Waiters (node_detach r idx) obj (ys ++ zs)
  node_detach-Waiters = record {
    chain = rw (detach-head leaving) (
        rw (entry-eq old obj head halves.0 next ys halves.1)
          (Seg-join obj new nil (entry next head ys) next nil ys zs front back));
    distinct = Distinct-remove ys zs idx w.distinct;
  }

  -- The lists of the other objects stay.
  pub node_detach-Waiters_other :
      (other : ℕ) (xs : List ℕ)
      → other ≢ obj
      → Waiters r other xs
      → Waiters (node_detach r idx) other xs
  node_detach-Waiters_other other xs ne v = record {
    chain = rw (detach-head_other leaving other ne) (
        Seg-frame other old new nil (r.slots other).waiter_head nil xs v.chain λ x c.
          SameLinks-of_eq (
            let (on, reg, k) =
              Seg-obj other old nil (r.slots other).waiter_head nil xs x v.chain c in
            detach-other leaving x (ground (arith, leaving.on)) (not_prev x on k)
              (not_next x on k)));
    distinct = v.distinct;
  }
    where
      not_prev : (x : ℕ) → (old x).obj ≡ other → x ≢ nil → x ≢ prev
      not_prev x on k e = elim (prev_place ys) [
        | inl f ↦ k (e ∙ f)
        | inr c ↦ ground (arith, Seg-obj obj old nil head halves.0 ys prev halves.1 c)
      ]

      not_next : (x : ℕ) → (old x).obj ≡ other → x ≢ nil → x ≢ next
      not_next x on k e = elim next_place [
        | inl f ↦ k (e ∙ f)
        | inr c ↦ ground (arith, Seg-obj obj old idx next nil zs next halves.2.3 c)
      ]

-- The first node of a list leaves the second at its head.
pub node_detach-first :
    (r : Region) (obj idx : ℕ) (zs : List ℕ)
    → Waiters r obj (idx ∷ zs)
    → ((node_detach r idx).slots obj).waiter_head ≡ (r.nodes idx).obj_next
node_detach-first r obj idx zs w = detach-head (leaving r obj idx [] zs w)

-- What detaching does to single nodes, whatever the lists are.
module _ (r : Region) (idx : ℕ) where
  pub node_detach_self : ((node_detach r idx).nodes idx).registered ≡ 0
  unfolding node_detach
  node_detach_self = ground arith

  pub node_detach-registered :
      (x : ℕ) → x ≢ idx → ((node_detach r idx).nodes x).registered ≡ (r.nodes x).registered
  unfolding node_detach
  node_detach-registered x h = ground arith

  pub node_detach-obj : (x : ℕ) → x ≢ idx → ((node_detach r idx).nodes x).obj ≡ (r.nodes x).obj
  unfolding node_detach
  node_detach-obj x h = ground arith

  -- Neither the futex words nor the words to wake are touched, nor the free list.
  pub node_detach-words :
      (x : ℕ)
      → (((node_detach r idx).nodes x).seq ≡ (r.nodes x).seq)
        × (((node_detach r idx).nodes x).wait_word ≡ (r.nodes x).wait_word)
        × (((node_detach r idx).nodes x).waiter_next ≡ (r.nodes x).waiter_next)
        × (((node_detach r idx).nodes x).pid ≡ (r.nodes x).pid)
  unfolding node_detach
  node_detach-words x = (ground arith, ground arith, ground arith, ground arith)

  pub node_detach-header :
      ((node_detach r idx).header ≡ r.header) × ((node_detach r idx).woken ≡ r.woken)
  unfolding node_detach
  node_detach-header = (ground arith, ground arith)
