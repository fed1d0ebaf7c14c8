-- ===== src/Waiter/Wf.antt =====
-- The whole of the waiter nodes (src/core.rs, lines 482-604): the pool, the waiter lists of the objects,
-- and how they fit together.
use ntsync_android.Base.{
  ℕ, ◌≤◌, ◌≡◌, ◌≢◌, refl, true, false, List, [], ◌∷◌, ◌++◌, ◌==◌, contains, length, arith,
  Bool-cases, inl, inr, ◌⊎◌, ==→eq,
}
use ntsync_android.Region.{Region, nil, node_count, slot_used}
use ntsync_android.Waiter.Seg.{Waiters, Distinct, SameLinks, Seg-obj, Seg-frame}
use ntsync_android.Waiter.Pool.{IsPool, without, contains-without, length-without}

-- The free nodes, the owned ones, and the waiters of each object.
pub record Layout : Type 0 where
  pub free : List ℕ
  pub owned : List ℕ
  pub queue : ℕ → List ℕ

-- Every used object's list is its queue, whose nodes are owned; every owned node is on the queue of its
-- object or on none, and no other node is registered.
pub record IsWf (r : Region) (l : Layout) : Type 0 where
  pub pool : IsPool r l.free l.owned
  pub queues : (obj : ℕ) → (r.slots obj).state ≡ slot_used → Waiters r obj (l.queue obj)
  pub unused : (obj : ℕ) → (r.slots obj).state ≢ slot_used → l.queue obj ≡ []
  pub queued : (obj x : ℕ) → contains (l.queue obj) x ≡ true → contains l.owned x ≡ true
  pub listed :
      (x : ℕ)
      → contains l.owned x ≡ true
      → ((r.nodes x).registered ≡ 0) ⊎ (contains (l.queue (r.nodes x).obj) x ≡ true)
  pub idle : (x : ℕ) → contains l.owned x ≡ false → (r.nodes x).registered ≡ 0

pub Waiters-frame :
    (r r' : Region) (obj : ℕ) (xs : List ℕ)
    → (r'.slots obj).waiter_head ≡ (r.slots obj).waiter_head
    → ((x : ℕ) → contains xs x ≡ true → SameLinks (r'.nodes x) (r.nodes x))
    → Waiters r obj xs
    → Waiters r' obj xs
Waiters-frame r r' obj xs head same w = record {
  chain =
      rw head (Seg-frame obj r.nodes r'.nodes nil (r.slots obj).waiter_head nil xs w.chain same);
  distinct = w.distinct;
}

-- A list of distinct nodes that are all in another is no longer.
pub length-Distinct :
    (xs ys : List ℕ)
    → Distinct xs
    → ((x : ℕ) → contains xs x ≡ true → contains ys x ≡ true)
    → length xs ≤ length ys
length-Distinct [] ys d sub = omega arith
length-Distinct (x ∷ xs) ys d sub =
    let here = sub x (ground arith) in
    let rest =
      length-Distinct xs (without x ys) d.1
        (λ y c. ground (arith, sub y, contains-without x y ys, d.0)) in
    omega (arith, rest, length-without x ys here)

-- Where a node stands in a list.
pub place_of :
    (x : ℕ) (xs : List ℕ)
    → contains xs x ≡ true
    → (ys : List ℕ) × (zs : List ℕ) × (xs ≡ ys ++ x ∷ zs) × (without x xs ≡ ys ++ zs)
place_of x [] c = cc
place_of x (y ∷ xs) c = elim (Bool-cases (y == x)) [
  | inl e ↦ let k = ==→eq y x e in ([], xs, rw k refl, rw e refl)
  | inr ne ↦
      let (ys, zs, a, b) = place_of x xs (rw ne at c) in (y ∷ ys, zs, ground arith, rw (ne, b) refl)
]

module _ (r : Region) (l : Layout) (v : IsWf r l) where
  -- A node on a queue is registered for the queue's object, which is used.
  pub on_queue :
      (obj x : ℕ)
      → contains (l.queue obj) x ≡ true
      → ((r.slots obj).state ≡ slot_used)
        × ((r.nodes x).registered ≡ 1)
        × ((r.nodes x).obj ≡ obj)
        × (x ≢ nil)
  on_queue obj x c = elim (Bool-cases ((r.slots obj).state == slot_used)) [
    | inr un ↦ absurd (ground (arith, v.unused obj))
    | inl used ↦
        let e = ==→eq (r.slots obj).state slot_used used in
        let w = v.queues obj e in
        let (on, reg, k) =
          Seg-obj obj r.nodes nil (r.slots obj).waiter_head nil (l.queue obj) x w.chain c in
        (e, reg, on, k)
  ]

  -- A queue fits the pool.
  pub queue-fits : (obj : ℕ) → (r.slots obj).state ≡ slot_used → length (l.queue obj) ≤ node_count
  queue-fits obj used =
      let w = v.queues obj used in
      omega (
        arith,
        length-Distinct (l.queue obj) l.owned w.distinct (v.queued obj),
        v.pool.counted,
        v.pool.capacity,
      )

  -- A node that is not registered is on no queue.
  pub off_queue : (obj x : ℕ) → (r.nodes x).registered ≡ 0 → contains (l.queue obj) x ≡ false
  off_queue obj x z = elim (Bool-cases (contains (l.queue obj) x)) [
    | inr out ↦ out
    | inl c ↦ absurd (ground (arith, on_queue obj x c))
  ]
