-- ===== src/Block/Cleanup.antt =====
-- `waiter_cleanup` of src/core.rs (lines 1416-1425) gives the nodes of a waiter back to the pool.
use ntsync_android.Base.{
  ℕ, ◌≡◌, ◌⊎◌, refl, ◌∙◌, ap, true, not, ◌&&◌, List, [], ◌∷◌, arith, contains, Bool-cases, inl, inr,
  ◌==◌, ==→eq,
}
use ntsync_android.Region.{Region}
use ntsync_android.Waiter.{node_detach, node_free, detach_all, free_all, waiter_cleanup}
use ntsync_android.Waiter.Seg.{Distinct}
use ntsync_android.Waiter.Detach.{node_detach_self, node_detach-registered}
use ntsync_android.Waiter.Pool.{contains-without, contains-without_self}
use ntsync_android.Waiter.Wf.{Layout, IsWf}
use ntsync_android.Waiter.Keeps.{node_free-IsWf, with_free_node}
use ntsync_android.Waiter.Leaves.{Rearranged, node_detach-Rearranged}

-- All of `xs` are owned in the layout.
abbrev pub AllOwned : Layout → List ℕ → Type 0
AllOwned l xs = (x : ℕ) → contains xs x ≡ true → contains l.owned x ≡ true

detach_all-registered :
    (ns : List ℕ) (r : Region) (x : ℕ)
    → (contains ns x ≡ true) ⊎ ((r.nodes x).registered ≡ 0)
    → ((detach_all r ns).nodes x).registered ≡ 0
detach_all-registered [] r x h = ground arith
detach_all-registered (n ∷ ns) r x h =
    detach_all-registered ns (node_detach r n) x (elim (Bool-cases (x == n)) [
      | inl e ↦ let k = ==→eq x n e in rw k (inr (node_detach_self r n))
      | inr ne ↦ ground (arith, node_detach-registered r n x)
    ])

detach_all-Rearranged :
    (ns : List ℕ) (r : Region) (l : Layout)
    → IsWf r l
    → AllOwned l ns
    → Rearranged (detach_all r ns) l
detach_all-Rearranged [] r l v own = record { layout = l; wf = v; free = refl; owned = refl }
detach_all-Rearranged (n ∷ ns) r l v own =
    let a = node_detach-Rearranged r l v n (own n (ground arith)) in
    let b =
      detach_all-Rearranged ns (node_detach r n) a.layout a.wf
        (λ x c. ap (λ (o : List ℕ). contains o x) a.owned ∙ own x (ground arith)) in
    record { layout = b.layout; wf = b.wf; free = b.free ∙ a.free; owned = b.owned ∙ a.owned }

free-registered :
    (r : Region) (idx x : ℕ) → ((node_free r idx).nodes x).registered ≡ (r.nodes x).registered
unfolding node_free
free-registered r idx x = ground arith

-- A region whose waiter nodes are well formed, all of `ns` being given back.
pub record GivenBack (r' : Region) (l : Layout) (ns : List ℕ) : Type 0 where
  pub layout : Layout
  pub wf : IsWf r' layout
  pub owned : (x : ℕ) → contains layout.owned x ≡ (contains l.owned x && not (contains ns x))
  pub freed : (x : ℕ) → contains ns x ≡ true → contains layout.free x ≡ true
  pub kept : (x : ℕ) → contains l.free x ≡ true → contains layout.free x ≡ true

free_all-GivenBack :
    (ns : List ℕ) (r : Region) (l : Layout)
    → IsWf r l
    → AllOwned l ns
    → Distinct ns
    → ((x : ℕ) → contains ns x ≡ true → (r.nodes x).registered ≡ 0)
    → GivenBack (free_all r ns) l ns
free_all-GivenBack [] r l v own d idle = record {
  layout = l;
  wf = v;
  owned = λ x. ground arith;
  freed = λ x c. cc;
  kept = λ x c. c;
}
free_all-GivenBack (n ∷ ns) r l v own d idle =
    let here = own n (ground arith) in
    let v1 = node_free-IsWf r l v n here (idle n (ground arith)) in
    let gone = contains-without_self n l.owned v.pool.owned_distinct in
    let g =
      free_all-GivenBack ns (node_free r n) (with_free_node r l v n) v1
        (λ x c. ground (arith, own x, contains-without n x l.owned, d.0)) d.1
        (λ x c. free-registered r n x ∙ idle x (ground arith)) in
    record {
      layout = g.layout;
      wf = g.wf;
      owned = λ x. ground (arith, g.owned x, contains-without n x l.owned, gone);
      freed = λ x c. ground (arith, g.freed x, g.kept x);
      kept = λ x c. g.kept x (ground arith);
    }

-- Cleaning up distinct nodes that their waiter owns keeps the waiter nodes well formed; afterwards each of
-- these nodes is free, and what was owned besides is owned still.
pub waiter_cleanup-GivenBack :
    (ns : List ℕ) (r : Region) (l : Layout)
    → IsWf r l
    → AllOwned l ns
    → Distinct ns
    → GivenBack (waiter_cleanup r ns) l ns
unfolding waiter_cleanup
waiter_cleanup-GivenBack ns r l v own d =
    let a = detach_all-Rearranged ns r l v own in
    let same = λ (x : ℕ). ap (λ (o : List ℕ). contains o x) a.owned in
    let g =
      free_all-GivenBack ns (detach_all r ns) a.layout a.wf (λ x c. same x ∙ own x c) d
        (λ x c. detach_all-registered ns r x (inl c)) in
    record {
      layout = g.layout;
      wf = g.wf;
      owned = λ x. ground (arith, g.owned x, same x);
      freed = g.freed;
      kept = λ x c. g.kept x (ap (λ (f : List ℕ). contains f x) a.free ∙ c);
    }
