-- ===== src/Waiter/Wake.antt =====
-- `wake_object` of src/core.rs (lines 568-589) detaches every waiter of an object and wakes each.
use ntsync_android.Base.{
  ℕ, zero, suc, ◌+◌, ◌≤◌, ◌<◌, ◌≡◌, ◌≢◌, ◌%◌, ◌^◌, Bool-cases, refl, true, false, ◌==◌, List, [],
  ◌∷◌, contains, arith, length, if◌then◌else◌, inl, inr, ◌∙◌,
}
use ntsync_android.Region.{WaitNode, Region, nil, node_count}
use ntsync_android.Waiter.{node_detach, wake_loop, wake_object, bump_and_wake}
use ntsync_android.Waiter.Seg.{Waiters, SameLinks, Seg-frame}
use ntsync_android.Waiter.Detach.{
  node_detach-Waiters, node_detach-Waiters_other, node_detach-first, node_detach_self,
  node_detach-registered, node_detach-obj, node_detach-words, node_detach-header,
}

module _ (r : Region) (word : ℕ) where
  bump-SameLinks : (x : ℕ) → SameLinks ((bump_and_wake r word).nodes x) (r.nodes x)
  bump-SameLinks x = ground arith

  bump-Waiters : (obj : ℕ) (xs : List ℕ) → Waiters r obj xs → Waiters (bump_and_wake r word) obj xs
  bump-Waiters obj xs w = record {
    chain =
        Seg-frame obj r.nodes (bump_and_wake r word).nodes nil (r.slots obj).waiter_head nil xs
          w.chain λ x c. bump-SameLinks x;
    distinct = w.distinct;
  }

-- The head nodes of the waiters `xs`, the last woken first.
abbrev pub words : (ℕ → WaitNode) → List ℕ → List ℕ → List ℕ
words N [] acc = acc
words N (x ∷ xs) acc = words N xs ((N x).wait_word ∷ acc)

words_ext :
    (N M : ℕ → WaitNode) (xs acc : List ℕ)
    → ((x : ℕ) → (M x).wait_word ≡ (N x).wait_word)
    → words M xs acc ≡ words N xs acc
words_ext N M [] acc same = refl
words_ext N M (x ∷ xs) acc same = rw (same x) (words_ext N M xs ((N x).wait_word ∷ acc) same)

-- How many of the waiters `xs` sleep on the node `w`.
abbrev pub sleepers : (ℕ → WaitNode) → List ℕ → ℕ → ℕ
sleepers N [] w = 0
sleepers N (x ∷ xs) w = (if (N x).wait_word == w then 1 else 0) + sleepers N xs w

sleepers_ext :
    (N M : ℕ → WaitNode) (xs : List ℕ) (w : ℕ)
    → ((x : ℕ) → (M x).wait_word ≡ (N x).wait_word)
    → sleepers M xs w ≡ sleepers N xs w
sleepers_ext N M [] w same = refl
sleepers_ext N M (x ∷ xs) w same = rw (same x, sleepers_ext N M xs w same)

-- From `r` to `r'` the waiters `xs` of `obj` were woken: the list is empty, none of them is linked,
-- each one's head node got a wake call and its futex word counted once for each of them. Nothing else
-- was linked or unlinked.
pub record Woke (obj : ℕ) (xs : List ℕ) (r r' : Region) : Type 0 where
  pub queue : Waiters r' obj []
  pub woken : r'.woken ≡ words r.nodes xs r.woken
  pub counted :
      (w : ℕ) → (r'.nodes w).seq % 2 ^ 32 ≡ ((r.nodes w).seq + sleepers r.nodes xs w) % 2 ^ 32
  pub unlinked : (x : ℕ) → contains xs x ≡ true → (r'.nodes x).registered ≡ 0
  pub kept :
      (x : ℕ)
      → contains xs x ≡ false
      → ((r'.nodes x).registered ≡ (r.nodes x).registered) × ((r'.nodes x).obj ≡ (r.nodes x).obj)
  pub others : (other : ℕ) (ys : List ℕ) → other ≢ obj → Waiters r other ys → Waiters r' other ys
  pub pool : (x : ℕ) → (r'.nodes x).waiter_next ≡ (r.nodes x).waiter_next
  pub header : r'.header ≡ r.header

module _ (obj : ℕ) (r : Region) (x : ℕ) (xs : List ℕ) (w : Waiters r obj (x ∷ xs)) where
  abbrev one : Region
  one = bump_and_wake (node_detach r x) (r.nodes x).wait_word

  one-Waiters : Waiters one obj xs
  one-Waiters =
      bump-Waiters (node_detach r x) (r.nodes x).wait_word obj xs
        (node_detach-Waiters r obj x [] xs w)

  one-others : (other : ℕ) (ys : List ℕ) → other ≢ obj → Waiters r other ys → Waiters one other ys
  one-others other ys ne v =
      bump-Waiters (node_detach r x) (r.nodes x).wait_word other ys
        (node_detach-Waiters_other r obj x [] xs w other ys ne v)

  one-word : (y : ℕ) → (one.nodes y).wait_word ≡ (r.nodes y).wait_word
  one-word y = ground (arith, node_detach-words r x y)

  one-Woke : (r' : Region) → Woke obj xs one r' → Woke obj (x ∷ xs) r r'
  one-Woke r' k = record {
    queue = k.queue;
    woken =
        k.woken
        ∙ (rw (words_ext r.nodes one.nodes xs one.woken one-word, (node_detach-header r x).1));
    counted = λ v.
        let e = k.counted v in
        let f = node_detach-words r x v in
        let g = sleepers_ext r.nodes one.nodes xs v one-word in ground arith;
    unlinked = λ y c. elim (Bool-cases (contains xs y)) [
      | inl m ↦ k.unlinked y m
      | inr o ↦ ground (arith, k.kept y o, node_detach_self r x)
    ];
    kept = λ y c.
        let (e, f) = k.kept y (ground arith) in
        (ground (arith, node_detach-registered r x y), ground (arith, node_detach-obj r x y));
    others = λ other ys ne v. k.others other ys ne (one-others other ys ne v);
    pool = λ y. ground (arith, k.pool y, node_detach-words r x y);
    header = k.header ∙ (node_detach-header r x).0;
  }

module _ (obj : ℕ) where
  wake_loop-Woke :
      (fuel : ℕ) (r : Region) (idx : ℕ) (xs : List ℕ)
      → length xs < fuel
      → (r.slots obj).waiter_head ≡ idx
      → Waiters r obj xs
      → Woke obj xs r (wake_loop fuel r idx)
  unfolding wake_loop
  wake_loop-Woke zero r idx xs f h w = absurd (omega arith)
  wake_loop-Woke (suc fuel) r idx [] f h w =
      let e : (idx == nil) ≡ true = ground (arith, w.chain) in
      rw e (record {
        queue = w;
        woken = refl;
        counted = λ v. omega arith;
        unlinked = λ x c. cc;
        kept = λ x c. (refl, refl);
        others = λ other ys ne v. v;
        pool = λ x. refl;
        header = refl;
      })
  wake_loop-Woke (suc fuel) r idx (x ∷ xs) f h w =
      let e : idx ≡ x = ground (arith, w.chain) in
      let ne : (x == nil) ≡ false = ground (arith, w.chain) in
      rw (e, ne)
        (one-Woke obj r x xs w _ (
          wake_loop-Woke fuel (one obj r x xs w) (r.nodes x).obj_next xs (omega arith)
            (node_detach-first r obj x xs w) (one-Waiters obj r x xs w)))

  -- Waking an object whose waiter list is `xs`, of at most as many nodes as the pool has, ends: it
  -- empties the list, unlinks each node of it, counts and wakes the futex word of each one's head node
  -- once for each of its nodes, and leaves the other nodes, the lists of the other objects and the
  -- pool alone.
  pub wake_object-Woke :
      (r : Region) (xs : List ℕ)
      → length xs ≤ node_count
      → Waiters r obj xs
      → Woke obj xs r (wake_object r obj)
  unfolding wake_object
  wake_object-Woke r xs f w = wake_loop-Woke (node_count + 1) r _ xs (omega arith) refl w
