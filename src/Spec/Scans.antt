-- ===== src/Spec/Scans.antt =====
-- The scan of src/core.rs (lines 1850-1902) takes no slot without a creator: slot 0 is never a candidate.
use ntsync_android.Base.{
  ℕ, zero, suc, ◌+◌, ◌≡◌, ◌≢◌, refl, true, List, [], ◌∷◌, ◌++◌, not, ltb, length, arith, ◌==◌, ◌&&◌,
  Bool-cases, inl, inr, ◌⊎◌,
}
use ntsync_android.Region.{Region, slot_used}
use ntsync_android.Sweep.{DeadCand, SweepScan, node_find, slot_find, sweep_chunk, chunk_loop}

-- The candidates of a scan are nodes, and slots with a creator.
abbrev pub IsCreated : DeadCand → Type 0
IsCreated c = (c.node ≡ true) ⊎ (c.pid ≢ 0)

abbrev pub AllCreated : List DeadCand → Type 0
AllCreated [] = Unit
AllCreated (c ∷ cs) = IsCreated c × AllCreated cs

AllCreated-append : (cs ds : List DeadCand) → AllCreated cs → AllCreated ds → AllCreated (cs ++ ds)
AllCreated-append [] ds a b = b
AllCreated-append (c ∷ cs) ds (x, a) b = (x, AllCreated-append cs ds a b)

node_find-AllCreated : (r : Region) (i : ℕ) → AllCreated (node_find r i)
node_find-AllCreated r i = elim (Bool-cases ((r.nodes i).registered == 0)) [
  | inl e ↦ rw e tt
  | inr e ↦ rw e (inl refl, tt)
]

slot_find-AllCreated : (r : Region) (i : ℕ) → AllCreated (slot_find r i)
slot_find-AllCreated r i =
    let s = r.slots i in
    elim (Bool-cases (s.state == slot_used && not (s.pid == 0))) [
      | inl e ↦ rw e (inr (ground (arith, e)), tt)
      | inr e ↦ rw e tt
    ]

pub chunk_loop-AllCreated :
    (left : ℕ) (r : Region) (s : SweepScan) (out : List DeadCand)
    → AllCreated out
    → AllCreated (chunk_loop left r s out).1
unfolding chunk_loop
chunk_loop-AllCreated zero r s out a = a
chunk_loop-AllCreated (suc left) r s out a = elim (Bool-cases (ltb (length out) sweep_chunk)) [
  | inr full ↦ rw full a
  | inl room ↦ elim (Bool-cases (ltb s.next_node s.node_hi)) [
    | inl at_node ↦
        rw (room, at_node)
          (chunk_loop-AllCreated left r (record s { next_node = s.next_node + 1 })
            (out ++ node_find r s.next_node)
            (AllCreated-append out (node_find r s.next_node) a
              (node_find-AllCreated r s.next_node)))
    | inr off ↦ elim (Bool-cases (ltb s.next_slot s.slot_hi)) [
      | inl at_slot ↦
          rw (room, off, at_slot)
            (chunk_loop-AllCreated left r (record s { next_slot = s.next_slot + 1 })
              (out ++ slot_find r s.next_slot)
              (AllCreated-append out (slot_find r s.next_slot) a
                (slot_find-AllCreated r s.next_slot)))
      | inr ended ↦ rw (room, off, ended) a
    ]
  ]
]
