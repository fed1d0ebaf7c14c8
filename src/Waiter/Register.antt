-- ===== src/Waiter/Register.antt =====
-- `node_register` of src/core.rs (lines 550-566) puts a node in front of an object's list.
use ntsync_android.Base.{
  ℕ, ◌≡◌, ◌≢◌, sym, true, false, List, [], ◌∷◌, contains, arith, ◌⊎◌, inl, inr, ◌∙◌,
}
use ntsync_android.Region.{Region, nil}
use ntsync_android.Waiter.{node_register}
use ntsync_android.Waiter.Seg.{
  Linked, Seg, Waiters, Seg-obj, Seg-frame, Seg-set_prev, SameLinks-of_eq,
}

module _ (r : Region) (idx obj word : ℕ) (ne_nil : idx ≢ nil) where
  abbrev after_it : Region
  after_it = node_register r idx obj word

  abbrev old_head : ℕ
  old_head = (r.slots obj).waiter_head

  register-head : (after_it.slots obj).waiter_head ≡ idx
  unfolding node_register
  register-head = ground arith

  register-head_other :
      (other : ℕ) → other ≢ obj → (after_it.slots other).waiter_head ≡ (r.slots other).waiter_head
  unfolding node_register
  register-head_other other h = ground arith

  register_self :
      old_head ≢ idx
      → Linked (after_it.nodes idx) obj nil × ((after_it.nodes idx).obj_next ≡ old_head)
  unfolding node_register
  register_self h = (ground arith, ground arith)

  register-first :
      old_head ≢ idx
      → old_head ≢ nil
      → Linked (r.nodes old_head) obj nil
      → Linked (after_it.nodes old_head) obj idx
  unfolding node_register
  register-first h k l = ground arith

  pub register-other : (x : ℕ) → x ≢ idx → x ≢ old_head → after_it.nodes x ≡ r.nodes x
  unfolding node_register
  register-other x h k = ground arith

  head_place :
      (xs : List ℕ)
      → Seg r.nodes obj nil old_head xs nil
      → (old_head ≡ nil) ⊎ (contains xs old_head ≡ true)
  head_place [] s = inl s
  head_place (x ∷ xs) s = inr (ground arith)

  head-Linked :
      (xs : List ℕ)
      → Seg r.nodes obj nil old_head xs nil
      → old_head ≢ nil
      → Linked (r.nodes old_head) obj nil
  head-Linked [] s k = absurd (k s)
  head-Linked (x ∷ xs) s k = rw s.0 s.2

  register-next : (x : ℕ) → x ≢ idx → (after_it.nodes x).obj_next ≡ (r.nodes x).obj_next
  unfolding node_register
  register-next x h = ground arith

  -- Registering a node that is not on the object's list puts it in front of the list, and the waiters
  -- that were there follow it in their order.
  pub node_register-Waiters :
      (xs : List ℕ) → contains xs idx ≡ false → Waiters r obj xs → Waiters after_it obj (idx ∷ xs)
  node_register-Waiters xs out w = record {
    chain = (register-head, ne_nil, (register_self head_ne).0, rw (register_self head_ne).1 rest);
    distinct = (out, w.distinct);
  }
    where
      head_ne : old_head ≢ idx
      head_ne e = elim (head_place xs w.chain) [ inl f ↦ ne_nil (sym e ∙ f) | inr c ↦ ground arith ]

      rest : Seg after_it.nodes obj idx old_head xs nil
      rest =
          Seg-set_prev obj r.nodes after_it.nodes nil idx old_head nil xs w.chain w.distinct λ x c.
            let (on, reg, k) = Seg-obj obj r.nodes nil old_head nil xs x w.chain c in
            let ne : x ≢ idx = ground arith in
            (
              λ e. rw e (
                  register-first head_ne (λ f. k (e ∙ f))
                    (head-Linked xs w.chain (λ f. k (e ∙ f)))),
              λ h. register-other x ne h,
              register-next x ne,
            )

  -- The lists of the other objects stay.
  pub node_register-Waiters_other :
      (xs ys : List ℕ) (other : ℕ)
      → other ≢ obj
      → contains ys idx ≡ false
      → Waiters r obj xs
      → Waiters r other ys
      → Waiters after_it other ys
  node_register-Waiters_other xs ys other ne out w v = record {
    chain = rw (register-head_other other ne) (
        Seg-frame other r.nodes after_it.nodes nil (r.slots other).waiter_head nil ys v.chain λ x c.
          let (on, reg, k) =
            Seg-obj other r.nodes nil (r.slots other).waiter_head nil ys x v.chain c in
          SameLinks-of_eq (
            register-other x (ground arith) (λ e. elim (head_place xs w.chain) [
              | inl f ↦ k (e ∙ f)
              | inr b ↦ ground (arith, Seg-obj obj r.nodes nil old_head nil xs old_head w.chain b)
            ])));
    distinct = v.distinct;
  }
