-- ===== src/Block/Blocked.antt =====
-- What a turn of a blocking wait under the lock (src/core.rs, lines 1538-1645) leaves of the waiter nodes.
use ntsync_android.Base.{
  ℕ, ◌≡◌, ◌⊎◌, refl, ◌∙◌, ap, Bool, true, false, List, [], ◌∷◌, arith, contains, length, Bool-cases,
  Option-cases, inl, inr,
}
use ntsync_android.Region.{Region, WaitOutcome, timeout}
use ntsync_android.Waiter.{waiter_cleanup}
use ntsync_android.Waiter.Wf.{Layout, IsWf}
use ntsync_android.Satisfy.{Target, Others, try_satisfy}
use ntsync_android.Wait.{alert_valid, alert_signaled}
use ntsync_android.Block.{
  Call, NodeSet, head_of, objects, revalidate, alloc_nodes, register_all, returned, blocked, enlist,
  locked_cycle,
}
use ntsync_android.Block.Lockfree.{AllLockfree, Untouched-IsWf, try_satisfy-Untouched}
use ntsync_android.Block.Gather.{Gathered, alloc_nodes-Gathered, length-alloc_nodes}
use ntsync_android.Block.Enlisted.{AllUsed, register_all-Registered}
use ntsync_android.Block.Account.{
  GivesBack, Sleeping, Accounted, Holds, revalidate-AllUsed, AllEnrolled-nodes, cleanup-GivesBack,
  Gathered-Holds, AllUsed-slots, Gathered-GivesBack,
}

module _ (fs : Others) (c : Call) (lockfree : AllLockfree fs) where
  -- From the registration on.
  enlist-cases :
      (due : Bool) (ts : List Target) (ns : NodeSet) (r : Region) (l : Layout)
      → IsWf r l
      → Holds r l ns (objects c.alert ts)
      → AllUsed r (objects c.alert ts)
      → ((out : WaitOutcome) × ((enlist fs c due ts ns r).0 ≡ returned out)
          × GivesBack (enlist fs c due ts ns r).1 l ns)
        ⊎ ((seq : ℕ) × ((enlist fs c due ts ns r).0 ≡ blocked ts ns seq)
            × Sleeping (enlist fs c due ts ns r).1 l (objects c.alert ts) ns seq)
  unfolding enlist
  enlist-cases due ts ns r l v h used =
      let objs = objects c.alert ts in
      let r1 = register_all (head_of ns) ns objs r in
      let k = register_all-Registered (head_of ns) ns objs r l v h.owned h.distinct used h.mine in
      let r2 = (try_satisfy fs r1 c.owner ts c.all).1 in
      let u = try_satisfy-Untouched fs r1 c.owner ts c.all lockfree in
      let a = k.rearranged in
      let v2 = Untouched-IsWf a.layout u a.wf in
      let same = λ (x : ℕ). ap (λ (o : List ℕ). contains o x) a.owned in
      let g = cleanup-GivesBack r2 a.layout ns v2 (λ x d. same x ∙ h.owned x d) h.distinct in
      let back : GivesBack (waiter_cleanup r2 ns) l ns = record {
        layout = g.layout;
        wf = g.wf;
        owned = λ x. ground (arith, g.owned x, same x);
      } in
      elim (Option-cases (try_satisfy fs r1 c.owner ts c.all).0) [
        | inr (out, e) ↦ rw (e, enlist) (inl (out, refl, back))
        | inl e ↦ elim (Bool-cases due) [
          | inl late ↦ rw (e, late, enlist) (inl (timeout, refl, back))
          | inr early ↦
              rw (e, early, enlist)
                (inr (
                  (r2.nodes (head_of ns)).seq,
                  refl,
                  record {
                    layout = a.layout;
                    wf = v2;
                    owned = λ x. elim (Bool-cases (contains ns x)) [
                      | inl held ↦ ground (arith, same x, h.owned x held)
                      | inr out ↦ ground (arith, same x)
                    ];
                    distinct = h.distinct;
                    one_each = h.one_each;
                    enrolled = AllEnrolled-nodes r1 r2 (head_of ns) ns objs u.nodes k.enrolled;
                    sampled = refl;
                  },
                ))
        ]
      ]

  -- The first turn, from the registration on.
  first-Accounted :
      (due : Bool) (us : List Target) (ns : NodeSet) (r r1 : Region) (l : Layout)
      (g : Gathered [] r r1 l ns)
      → AllUsed r (objects c.alert us)
      → length ns ≡ length (objects c.alert us)
      → Accounted l [] c.alert (enlist fs c due us ns r1).0 (enlist fs c due us ns r1).1
  first-Accounted due us ns r r1 l g used len =
      let h = Gathered-Holds r r1 l ns (objects c.alert us) g len in
      elim (enlist-cases due us ns r1 g.layout g.wf h
        (AllUsed-slots r r1 (objects c.alert us) g.slots used)) [
          | inl (out, e, b) ↦ rw e (Gathered-GivesBack r r1 _ l ns g b)
          | inr (seq, e, s) ↦ rw e (record {
            layout = s.layout;
            wf = s.wf;
            owned = λ x. ground (arith, s.owned x, g.owned x);
            distinct = s.distinct;
            one_each = s.one_each;
            enrolled = s.enrolled;
            sampled = s.sampled;
          })
        ]

  -- A later turn, from the registration on.
  later-Accounted :
      (due : Bool) (us : List Target) (ns : NodeSet) (r : Region) (l : Layout)
      → IsWf r l
      → Holds r l ns (objects c.alert us)
      → AllUsed r (objects c.alert us)
      → Accounted l ns c.alert (enlist fs c due us ns r).0 (enlist fs c due us ns r).1
  later-Accounted due us ns r l v h used = elim (enlist-cases due us ns r l v h used) [
    | inl (out, e, b) ↦ rw e b
    | inr (seq, e, s) ↦ rw e s
  ]

  -- A turn of a waiter without nodes.
  turn_first :
      (due : Bool) (ts : List Target) (r : Region) (l : Layout)
      → IsWf r l
      → Accounted l [] c.alert (locked_cycle fs c due ts [] r).0 (locked_cycle fs c due ts [] r).1
  unfolding locked_cycle
  turn_first due ts r l v =
      let nothing = cleanup-GivesBack r l [] v (λ x d. absurd (ground arith)) tt in
      elim (Option-cases (revalidate true r ts)) [
        | inl e ↦ rw (e, locked_cycle) nothing
        | inr (us, e) ↦
            let n = length (objects c.alert us) in
            let got = alloc_nodes n c.pid [] r in
            let g =
              alloc_nodes-Gathered n c.pid [] r l v (λ x d. absurd (ground arith)) tt
                (λ x d. absurd (ground arith)) in
            elim (Bool-cases (alert_valid r c.alert)) [
              | inr bad ↦ rw (e, bad, locked_cycle) nothing
              | inl good ↦ elim (Bool-cases (alert_signaled r c.alert)) [
                | inl alerted ↦ rw (e, good, alerted, locked_cycle) nothing
                | inr quiet ↦ elim (Bool-cases got.0) [
                  | inr short ↦
                      rw (e, good, quiet, short, locked_cycle)
                        (Gathered-GivesBack r got.2 _ l got.1 g (
                          cleanup-GivesBack got.2 g.layout got.1 g.wf
                            (λ x d. ground (arith, g.owned x)) g.distinct))
                  | inl enough ↦
                      let (used, _) = revalidate-AllUsed true r c.alert ts good e in
                      rw (e, good, quiet, enough, locked_cycle)
                        (first-Accounted due us got.1 r got.2 l g used
                          (omega (arith, length-alloc_nodes n c.pid [] r enough)))
                ]
              ]
            ]
      ]

  -- A turn of a waiter that holds nodes.
  turn_later :
      (due : Bool) (ts : List Target) (idx : ℕ) (nodes : NodeSet) (r : Region) (l : Layout)
      → IsWf r l
      → Holds r l (idx ∷ nodes) (objects c.alert ts)
      → Accounted l
          (idx ∷ nodes)
          c.alert
          (locked_cycle fs c due ts (idx ∷ nodes) r).0
          (locked_cycle fs c due ts (idx ∷ nodes) r).1
  unfolding locked_cycle
  turn_later due ts idx nodes r l v h =
      let back = cleanup-GivesBack r l (idx ∷ nodes) v h.owned h.distinct in
      elim (Option-cases (revalidate false r ts)) [
        | inl e ↦ rw (e, locked_cycle) back
        | inr (us, e) ↦ elim (Bool-cases (alert_valid r c.alert)) [
          | inr bad ↦ rw (e, bad, locked_cycle) back
          | inl good ↦ elim (Bool-cases (alert_signaled r c.alert)) [
            | inl alerted ↦ rw (e, good, alerted, locked_cycle) back
            | inr quiet ↦
                let (used, same) = revalidate-AllUsed false r c.alert ts good e in
                rw (e, good, quiet, locked_cycle)
                  (later-Accounted due us (idx ∷ nodes) r l v (rw same h) used)
          ]
        ]
      ]

  -- A turn of a wait under the lock, in a region whose waiter nodes are well formed, by a waiter with no
  -- node or with one for each object, and others that act without the lock meanwhile, accounts for every
  -- node. If it returns, the waiter owns none any more and the others what they owned. If it blocks, the
  -- waiter owns one node of its own for each object and the alert, each of them stands on the list of its
  -- object with the first as the node to wake, and the sample is the futex word of the first.
  pub locked_cycle-Accounted :
      (due : Bool) (ts : List Target) (nodes : NodeSet) (r : Region) (l : Layout)
      → IsWf r l
      → (nodes ≡ []) ⊎ Holds r l nodes (objects c.alert ts)
      → Accounted l nodes c.alert
          (locked_cycle fs c due ts nodes r).0
          (locked_cycle fs c due ts nodes r).1
  locked_cycle-Accounted due ts [] r l v h = turn_first due ts r l v
  locked_cycle-Accounted due ts (idx ∷ nodes) r l v (inl e) = absurd (ground arith)
  locked_cycle-Accounted due ts (idx ∷ nodes) r l v (inr h) = turn_later due ts idx nodes r l v h
