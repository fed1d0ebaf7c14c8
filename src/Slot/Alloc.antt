-- ===== src/Slot/Alloc.antt =====
-- `alloc_slot` of src/core.rs (lines 767-789): what the search for a free slot finds.
use ntsync_android.Base.{
  ℕ, zero, suc, ◌+◌, ◌-◌, ◌%◌, ◌^◌, ◌<◌, ◌≡◌, ◌≢◌, refl, none, some, arith, ◌==◌, Bool-cases, inl,
  inr,
}
use ntsync_android.Region.{Region, slot_count, slot_free, nil}
use ntsync_android.Slot.{alloc_loop, alloc_slot, take_slot, handle_of}

-- A slot that the search took: it was free, its waiter list is empty now, and nothing else of any
-- slot or node has changed.
pub record Took (r : Region) (handle : ℕ) (r' : Region) : Type 0 where
  pub index : ℕ
  pub in_table : index < slot_count
  pub was_free : (r.slots index).state ≡ slot_free
  pub named : handle ≡ handle_of (r.slots index).generation index
  pub emptied : (r'.slots index).waiter_head ≡ nil
  pub state : (r'.slots index).state ≡ slot_free
  pub generation : (r'.slots index).generation ≡ (r.slots index).generation
  pub others : (j : ℕ) → j ≢ index → r'.slots j ≡ r.slots j
  pub nodes : r'.nodes ≡ r.nodes

take_slot-Took :
    (r : Region) (index : ℕ) {handle : ℕ} {r' : Region}
    → index < slot_count
    → (r.slots index).state ≡ slot_free
    → take_slot r index ≡ (some handle, r')
    → Took r handle r'
take_slot-Took r index lt free e = record {
  index = index;
  in_table = lt;
  was_free = free;
  named = ground arith;
  emptied = ground arith;
  state = ground arith;
  generation = ground arith;
  others = λ j ne. ground arith;
  nodes = ground arith;
}

alloc_loop-Took :
    (left i cursor : ℕ) (r : Region) {handle : ℕ} {r' : Region}
    → alloc_loop left i cursor r ≡ (some handle, r')
    → Took r handle r'
unfolding alloc_loop
alloc_loop-Took zero i cursor r e = cc
alloc_loop-Took (suc left) i cursor r e =
    elim (Bool-cases ((r.slots ((cursor + i) % slot_count)).state == slot_free)) [
      | inl free ↦
          take_slot-Took r ((cursor + i) % slot_count) (omega arith) (ground arith) (rw free at e)
      | inr used ↦ alloc_loop-Took left (i + 1) cursor r (rw used at e)
    ]

rounds :
    (P : ℕ → Type 0) (i left : ℕ)
    → P i
    → ((j : ℕ) → j < left → P (i + 1 + j))
    → (j : ℕ) → j < suc left
    → P (i + j)
rounds P i left here there zero lt = let e : i + 0 ≡ i = omega arith in rw e here
rounds P i left here there (suc j) lt =
    let e : i + suc j ≡ i + 1 + j = omega arith in rw e (there j (omega arith))

-- The search that fails has seen every slot of its rounds in use, and changes nothing.
alloc_loop-none :
    (left i cursor : ℕ) (r : Region)
    → (alloc_loop left i cursor r).0 ≡ none
    → ((j : ℕ) → j < left → (r.slots ((cursor + (i + j)) % slot_count)).state ≢ slot_free)
      × ((alloc_loop left i cursor r).1 ≡ r)
unfolding alloc_loop
alloc_loop-none zero i cursor r e = (λ j lt. absurd (omega arith), refl)
alloc_loop-none (suc left) i cursor r e =
    elim (Bool-cases ((r.slots ((cursor + i) % slot_count)).state == slot_free)) [
      | inl free ↦ ground arith
      | inr used ↦
          let (all, same) = alloc_loop-none left (i + 1) cursor r (rw used at e) in
          (
            rounds (λ k. (r.slots ((cursor + k) % slot_count)).state ≢ slot_free) i left
                (λ f. ground arith) all,
            rw used same,
          )
    ]

pub alloc_slot-Took :
    (r : Region) {handle : ℕ} {r' : Region} → alloc_slot r ≡ (some handle, r') → Took r handle r'
unfolding alloc_slot
alloc_slot-Took r e = alloc_loop-Took slot_count 0 (r.header.next_scan % 2 ^ 31) r e

-- The search for a free slot fails only if every slot of the table is in use, wherever the cursor
-- stands, and then it changes nothing.
pub alloc_slot-none :
    (r : Region)
    → (alloc_slot r).0 ≡ none
    → ((k : ℕ) → k < slot_count → (r.slots k).state ≢ slot_free) × ((alloc_slot r).1 ≡ r)
unfolding alloc_slot
alloc_slot-none r e =
    let c = r.header.next_scan % 2 ^ 31 in
    let (all, same) = alloc_loop-none slot_count 0 c r e in
    (
      λ k lt.
          let j = (k + slot_count - c % slot_count) % slot_count in
          let at : (c + (0 + j)) % slot_count ≡ k = omega arith in rw at at (all j (omega arith)),
      same,
    )
