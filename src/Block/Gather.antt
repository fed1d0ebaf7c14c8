-- ===== src/Block/Gather.antt =====
-- The allocation of the nodes of a blocking wait (src/core.rs, lines 482-513 and 1602-1612).
use ntsync_android.Base.{
  ℕ, zero, suc, ◌+◌, ◌≡◌, refl, ◌∙◌, ap, true, false, ◌||◌, Option, none, List, [], ◌∷◌, ◌++◌,
  arith, contains, length, Bool-cases, Option-cases, inl, inr, ◌==◌, ==→eq,
}
use ntsync_android.Region.{Region}
use ntsync_android.Waiter.{node_alloc}
use ntsync_android.Waiter.Seg.{Distinct, contains-append}
use ntsync_android.Waiter.Pool.{node_alloc-cases}
use ntsync_android.Waiter.Wf.{Layout, IsWf}
use ntsync_android.Waiter.Keeps.{Handed-IsWf}
use ntsync_android.Block.{NodeSet, push, alloc_nodes}
use ntsync_android.Block.Cleanup.{AllOwned}

-- What `alloc_nodes` has gathered in `ns`, beyond what `l` owned.
pub record Gathered (start : NodeSet) (r r' : Region) (l : Layout) (ns : NodeSet) : Type 0 where
  pub layout : Layout
  pub wf : IsWf r' layout
  pub owned : (x : ℕ) → contains layout.owned x ≡ (contains l.owned x || contains ns x)
  pub distinct : Distinct ns
  pub idle : (x : ℕ) → contains ns x ≡ true → (r'.nodes x).registered ≡ 0
  pub slots : r'.slots ≡ r.slots
  pub kept : (x : ℕ) → contains start x ≡ true → contains ns x ≡ true
  pub new : (x : ℕ) → contains ns x ≡ true → contains start x ≡ false → contains l.owned x ≡ false

length-push : (xs : List ℕ) (a : ℕ) → length (xs ++ a ∷ []) ≡ length xs + 1
length-push [] a = refl
length-push (x ∷ xs) a = omega (arith, length-push xs a)

Distinct-push :
    (xs : List ℕ) (a : ℕ) → Distinct xs → contains xs a ≡ false → Distinct (xs ++ a ∷ [])
Distinct-push [] a d out = (refl, tt)
Distinct-push (x ∷ xs) a d out =
    (ground (arith, contains-append xs (a ∷ []) x, d.0), Distinct-push xs a d.1 (ground arith))

Gathered-start :
    (ns : NodeSet) (r : Region) (l : Layout)
    → IsWf r l
    → AllOwned l ns
    → Distinct ns
    → ((x : ℕ) → contains ns x ≡ true → (r.nodes x).registered ≡ 0)
    → Gathered ns r r l ns
Gathered-start ns r l v own d idle = record {
  layout = l;
  wf = v;
  owned = λ x. elim (Bool-cases (contains ns x)) [
    | inl c ↦ ground (arith, own x c)
    | inr c ↦ ground arith
  ];
  distinct = d;
  idle = idle;
  slots = refl;
  kept = λ x c. c;
  new = λ x c o. ground arith;
}

pub alloc_nodes-Gathered :
    (n pid : ℕ) (ns : NodeSet) (r : Region) (l : Layout)
    → IsWf r l
    → AllOwned l ns
    → Distinct ns
    → ((x : ℕ) → contains ns x ≡ true → (r.nodes x).registered ≡ 0)
    → Gathered ns r (alloc_nodes n pid ns r).2 l (alloc_nodes n pid ns r).1
unfolding alloc_nodes push
alloc_nodes-Gathered zero pid ns r l v own d idle = Gathered-start ns r l v own d idle
alloc_nodes-Gathered (suc n) pid ns r l v own d idle =
    elim (node_alloc-cases pid r l.free l.owned v.pool) [
      | inl (e, full) ↦
          let got : (node_alloc pid r).0 ≡ none = ap (λ (a : Option ℕ × Region). a.0) e in
          let left : (node_alloc pid r).1 ≡ r = ap (λ (a : Option ℕ × Region). a.1) e in
          rw (got, alloc_nodes) (rw left (Gathered-start ns r l v own d idle))
      | inr (idx, e, h) ↦
          let r1 = (node_alloc pid r).1 in
          let v1 = Handed-IsWf r l v pid idx r1 h in
          let out : contains ns idx ≡ false = ground (arith, own idx, h.new) in
          let app = λ (x : ℕ). contains-append ns (idx ∷ []) x in
          let l1 : Layout = record l { free = h.rest; owned = idx ∷ l.owned } in
          let g =
            alloc_nodes-Gathered n pid (ns ++ idx ∷ []) r1 l1 v1
              (λ x c. ground (arith, own x, app x)) (Distinct-push ns idx d out)
              (λ x c. elim (Bool-cases (x == idx)) [
                | inl same ↦ let k = ==→eq x idx same in rw k (ground (arith, h.node))
                | inr ne ↦ ground (arith, h.others x, idle x, app x)
              ]) in
          rw (e, alloc_nodes)
            (record {
              layout = g.layout;
              wf = g.wf;
              owned = λ x. ground (arith, g.owned x, g.kept x, app x, own x);
              distinct = g.distinct;
              idle = g.idle;
              slots = g.slots ∙ h.slots;
              kept = λ x c. g.kept x (ground (arith, app x));
              new = λ x c o. ground (arith, g.new x c, app x, h.new);
            })
    ]

-- With enough nodes in the pool, one is gathered for each round.
pub length-alloc_nodes :
    (n pid : ℕ) (ns : NodeSet) (r : Region)
    → (alloc_nodes n pid ns r).0 ≡ true
    → length (alloc_nodes n pid ns r).1 ≡ length ns + n
unfolding alloc_nodes push
length-alloc_nodes zero pid ns r e = omega arith
length-alloc_nodes (suc n) pid ns r e = elim (Option-cases (node_alloc pid r).0) [
  | inl got ↦ absurd (ground arith)
  | inr (idx, got) ↦
      let rest =
        length-alloc_nodes n pid (ns ++ idx ∷ []) (node_alloc pid r).1
          (rw (got, alloc_nodes) at e) in
      rw (got, alloc_nodes) (omega (arith, rest, length-push ns idx))
]
