-- ===== src/Waiter/Pool.antt =====
-- The pool of waiter nodes (src/core.rs, lines 482-523): which nodes are free, and which are owned by a
-- waiter. Every node below `node_fresh` is one or the other.
use ntsync_android.Base.{
  ℕ, ◌+◌, ◌≤◌, ◌<◌, ◌≡◌, ◌≢◌, refl, true, false, none, some, List, [], ◌∷◌, ◌==◌, leb, contains,
  length, arith, Bool-cases, inl, inr, ◌⊎◌, if◌then◌else◌, sym, ◌∙◌,
}
use ntsync_android.Region.{Region, WaitNode, nil, node_count, set_node, set_header}
use ntsync_android.Waiter.{fresh_node, node_alloc, node_free}
use ntsync_android.Waiter.Seg.{Distinct}

-- The free list from `p` on.
abbrev pub Chain : (ℕ → WaitNode) → (p : ℕ) → List ℕ → Type 0
Chain N p [] = p ≡ nil
Chain N p (x ∷ xs) = (p ≡ x) × Chain N (N x).waiter_next xs

abbrev pub without : ℕ → List ℕ → List ℕ
without a [] = []
without a (x ∷ xs) = if x == a then xs else x ∷ without a xs

pub record IsPool (r : Region) (free owned : List ℕ) : Type 0 where
  pub chain : Chain r.nodes r.header.node_free_head free
  pub free_distinct : Distinct free
  pub owned_distinct : Distinct owned
  pub apart : (x : ℕ) → contains free x ≡ true → contains owned x ≡ false
  pub free_below : (x : ℕ) → contains free x ≡ true → x < r.header.node_fresh
  pub owned_below : (x : ℕ) → contains owned x ≡ true → x < r.header.node_fresh
  pub capacity : r.header.node_fresh ≤ node_count
  pub counted : length free + length owned ≡ r.header.node_fresh

pub contains-without : (a x : ℕ) (xs : List ℕ) → x ≢ a → contains (without a xs) x ≡ contains xs x
contains-without a x [] ne = refl
contains-without a x (y ∷ xs) ne = ground (arith, contains-without a x xs ne)

pub without-Distinct : (a : ℕ) (xs : List ℕ) → Distinct xs → Distinct (without a xs)
without-Distinct a [] d = tt
without-Distinct a (x ∷ xs) d = elim (Bool-cases (x == a)) [
  | inl e ↦ rw e d.1
  | inr ne ↦ rw ne (ground (arith, contains-without a x xs, d.0), without-Distinct a xs d.1)
]

pub contains-without_self : (a : ℕ) (xs : List ℕ) → Distinct xs → contains (without a xs) a ≡ false
contains-without_self a [] d = refl
contains-without_self a (x ∷ xs) d = ground (arith, contains-without_self a xs d.1, d.0)

pub length-without :
    (a : ℕ) (xs : List ℕ) → contains xs a ≡ true → length (without a xs) + 1 ≡ length xs
length-without a [] c = cc
length-without a (x ∷ xs) c = elim (Bool-cases (x == a)) [
  | inl e ↦ rw e (omega arith)
  | inr ne ↦ rw ne (omega (arith, length-without a xs (rw ne at c)))
]

Chain-frame :
    (N M : ℕ → WaitNode) (p : ℕ) (xs : List ℕ)
    → Chain N p xs
    → ((x : ℕ) → contains xs x ≡ true → (M x).waiter_next ≡ (N x).waiter_next)
    → Chain M p xs
Chain-frame N M p [] c same = c
Chain-frame N M p (x ∷ xs) c same =
    let e = same x (ground arith) in
    (c.0, rw e (Chain-frame N M (N x).waiter_next xs c.1 (λ y h. same y (ground arith))))

-- A change of the region that leaves the free nodes' links and the header's pool alone.
pub IsPool-frame :
    (r r' : Region) (free owned : List ℕ)
    → r'.header.node_free_head ≡ r.header.node_free_head
    → r'.header.node_fresh ≡ r.header.node_fresh
    → ((x : ℕ) → (r'.nodes x).waiter_next ≡ (r.nodes x).waiter_next)
    → IsPool r free owned
    → IsPool r' free owned
IsPool-frame r r' free owned head fresh same v = record {
  chain =
      rw head (Chain-frame r.nodes r'.nodes r.header.node_free_head free v.chain (λ x c. same x));
  free_distinct = v.free_distinct;
  owned_distinct = v.owned_distinct;
  apart = v.apart;
  free_below = rw fresh v.free_below;
  owned_below = rw fresh v.owned_below;
  capacity = rw fresh v.capacity;
  counted = v.counted ∙ sym fresh;
}

module _ (pid : ℕ) (r : Region) where
  -- The region when the free node `idx` has been handed out, and when the first unused one has.
  abbrev with_free : ℕ → Region
  with_free idx =
      let h = r.header in
      set_node (set_header r (record h { node_free_head = (r.nodes idx).waiter_next })) idx
        (fresh_node pid (r.nodes idx))

  abbrev with_fresh : Region
  with_fresh =
      let h = r.header in
      set_node (set_header r (record h { node_fresh = r.header.node_fresh + 1 }))
        r.header.node_fresh (fresh_node pid (r.nodes r.header.node_fresh))

  alloc_free :
      (idx : ℕ)
      → r.header.node_free_head ≡ idx
      → idx ≢ nil
      → node_alloc pid r ≡ (some idx, with_free idx)
  unfolding node_alloc
  alloc_free idx e ne = ground arith

  alloc_fresh :
      r.header.node_free_head ≡ nil
      → r.header.node_fresh < node_count
      → node_alloc pid r ≡ (some r.header.node_fresh, with_fresh)
  unfolding node_alloc
  alloc_fresh e lt = ground arith

  alloc_full :
      r.header.node_free_head ≡ nil
      → node_count ≤ r.header.node_fresh
      → node_alloc pid r ≡ (none, r)
  unfolding node_alloc
  alloc_full e le = ground arith

  with_free-IsPool :
      (idx : ℕ) (free owned : List ℕ)
      → IsPool r (idx ∷ free) owned
      → IsPool (with_free idx) free (idx ∷ owned)
  with_free-IsPool idx free owned v = record {
    chain =
        Chain-frame r.nodes (with_free idx).nodes (r.nodes idx).waiter_next free v.chain.1
          (λ x c. ground (arith, v.free_distinct));
    free_distinct = v.free_distinct.1;
    owned_distinct = (v.apart idx (ground arith), v.owned_distinct);
    apart = λ x c. ground (arith, v.apart x, v.free_distinct.0);
    free_below = λ x c. v.free_below x (ground arith);
    owned_below = λ x c. ground (arith, v.owned_below x, v.free_below idx);
    capacity = v.capacity;
    counted = omega (arith, v.counted);
  }

  with_fresh-IsPool :
      (owned : List ℕ)
      → r.header.node_fresh < node_count
      → IsPool r [] owned
      → IsPool with_fresh [] (r.header.node_fresh ∷ owned)
  with_fresh-IsPool owned lt v = record {
    chain = v.chain;
    free_distinct = tt;
    owned_distinct = (ground (arith, v.owned_below r.header.node_fresh), v.owned_distinct);
    apart = λ x c. cc;
    free_below = λ x c. cc;
    owned_below = λ x c. ground (arith, v.owned_below x);
    capacity = omega (arith, lt);
    counted = omega (arith, v.counted);
  }

  -- What handing out a node does: one that nobody owned is owned now, and the others stay.
  pub record Handed (free owned : List ℕ) (idx : ℕ) (r' : Region) : Type 0 where
    pub rest : List ℕ
    pub pool : IsPool r' rest (idx ∷ owned)
    pub idle_rest : (x : ℕ) → contains rest x ≡ true → contains free x ≡ true
    pub new : contains owned idx ≡ false
    pub node : r'.nodes idx ≡ fresh_node pid (r.nodes idx)
    pub others : (x : ℕ) → x ≢ idx → r'.nodes x ≡ r.nodes x
    pub slots : r'.slots ≡ r.slots

  -- The pool hands out a node that no waiter owns, and has none left only when every node of the
  -- region is owned.
  pub node_alloc-cases :
      (free owned : List ℕ)
      → IsPool r free owned
      → ((node_alloc pid r ≡ (none, r)) × (length owned ≡ node_count))
        ⊎ ((idx : ℕ) × ((node_alloc pid r).0 ≡ some idx)
            × Handed free owned idx (node_alloc pid r).1)
  node_alloc-cases (idx ∷ free) owned v =
      let lt = v.free_below idx (ground arith) in
      let e = alloc_free idx v.chain.0 (omega (arith, lt, v.capacity)) in
      rw e (
        inr (
          idx,
          refl,
          record {
            rest = free;
            pool = with_free-IsPool idx free owned v;
            idle_rest = λ x c. ground arith;
            new = v.apart idx (ground arith);
            node = ground arith;
            others = λ x ne. ground arith;
            slots = refl;
          },
        ))
  node_alloc-cases [] owned v = elim (Bool-cases (leb node_count r.header.node_fresh)) [
    | inl full ↦ inl (alloc_full v.chain (ground arith), ground (arith, v.counted, v.capacity))
    | inr room ↦
        let lt : r.header.node_fresh < node_count = ground arith in
        rw (alloc_fresh v.chain lt) (
          inr (
            r.header.node_fresh,
            refl,
            record {
              rest = [];
              pool = with_fresh-IsPool owned lt v;
              idle_rest = λ x c. c;
              new = ground (arith, v.owned_below r.header.node_fresh);
              node = ground arith;
              others = λ x ne. ground arith;
              slots = refl;
            },
          ))
  ]

-- A node that its owner gives back is free, and can be handed out again.
pub node_free-IsPool :
    (r : Region) (idx : ℕ) (free owned : List ℕ)
    → contains owned idx ≡ true
    → IsPool r free owned
    → IsPool (node_free r idx) (idx ∷ free) (without idx owned)
unfolding node_free
node_free-IsPool r idx free owned c v =
    let out : contains free idx ≡ false = ground (arith, v.apart idx) in
    let gone = contains-without_self idx owned v.owned_distinct in
    let r' = node_free r idx in
    let link : (r'.nodes idx).waiter_next ≡ r.header.node_free_head = ground arith in
    record {
      chain = (
        refl,
        rw link (
            Chain-frame r.nodes r'.nodes r.header.node_free_head free v.chain
              (λ x d. ground arith)),
      );
      free_distinct = (out, v.free_distinct);
      owned_distinct = without-Distinct idx owned v.owned_distinct;
      apart = λ x d. ground (arith, v.apart x, contains-without idx x owned);
      free_below = λ x d. ground (arith, v.free_below x, v.owned_below idx);
      owned_below = λ x d. ground (arith, v.owned_below x, contains-without idx x owned);
      capacity = v.capacity;
      counted = omega (arith, v.counted, length-without idx owned c);
    }
