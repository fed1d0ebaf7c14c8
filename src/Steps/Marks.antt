-- ===== src/Steps/Marks.antt =====
-- The mark of the slots that were ever handed out (src/core.rs, lines 767-796 and 1886-1902): a creation puts no object
-- beyond it.
use ntsync_android.Base.{
  ℕ, zero, suc, ◌+◌, ◌*◌, ◌/◌, ◌%◌, ◌^◌, ◌<◌, ◌≡◌, ◌≢◌, refl, some, arith, ◌==◌, if◌then◌else◌,
  Bool-cases, inl, inr, ap,
}
use ntsync_android.Region.{Region, index_of, slot_count, slot_free}
use ntsync_android.Slot.{alloc_loop, alloc_slot, take_slot, handle_of, scan_wrapped, slot_publish}

-- The mark is the cursor, or after a wrap the end of the table: every slot but the reserved one that is not
-- free lies below it.
pub record Marked (r : Region) : Type 0 where
  pub cursor : r.header.next_scan % 2 ^ 31 < slot_count
  pub fits : r.header.next_scan < 2 ^ 32
  pub below :
      (j : ℕ)
      → j ≢ 0
      → (r.slots j).state ≢ slot_free
      → (j < slot_count) × (r.header.next_scan < 2 ^ 31 → j < r.header.next_scan)

pub Marked-frame :
    {r r' : Region}
    → Marked r
    → r'.header.next_scan ≡ r.header.next_scan
    → ((j : ℕ) → (r'.slots j).state ≢ slot_free → (r.slots j).state ≢ slot_free)
    → Marked r'
Marked-frame v e k = record {
  cursor = rw e v.cursor;
  fits = rw e v.fits;
  below = λ j ne used. rw e (v.below j ne (k j used));
}

-- What the search that begins at `cursor` leaves.
record Moved (cursor : ℕ) (r : Region) (handle : ℕ) (r' : Region) : Type 0 where
  index : ℕ
  in_table : index < slot_count
  named : index_of handle ≡ index
  states : (j : ℕ) → (r'.slots j).state ≡ (r.slots j).state
  next_scan :
      r'.header.next_scan
      ≡ (index + 1) % slot_count
        + (if (index + 1) % slot_count == 0
            then scan_wrapped
            else r.header.next_scan / 2 ^ 31 % 2 * scan_wrapped)
  first : (r.slots (cursor % slot_count)).state ≡ slot_free → index ≡ cursor % slot_count

take_slot-Moved :
    (cursor : ℕ) (r : Region) (index : ℕ) {handle : ℕ} {r' : Region}
    → index < slot_count
    → ((r.slots (cursor % slot_count)).state ≡ slot_free → index ≡ cursor % slot_count)
    → take_slot r index ≡ (some handle, r')
    → Moved cursor r handle r'
take_slot-Moved cursor r index {handle} {r'} lt first e =
    let at : (take_slot r index).1 ≡ r' = ap (λ a. a.1) e in
    let name : handle_of (r.slots index).generation index ≡ handle = ground arith in
    record {
      index = index;
      in_table = lt;
      named = ground (arith, name);
      states = λ j. rw (← at) (ground arith);
      next_scan = rw (← at) refl;
      first = first;
    }

alloc_loop-Moved :
    (left i cursor : ℕ) (r : Region) {handle : ℕ} {r' : Region}
    → (i ≢ 0 → (r.slots (cursor % slot_count)).state ≢ slot_free)
    → alloc_loop left i cursor r ≡ (some handle, r')
    → Moved cursor r handle r'
unfolding alloc_loop
alloc_loop-Moved zero i cursor r tried e = cc
alloc_loop-Moved (suc left) i cursor r tried e =
    let at = (cursor + i) % slot_count in
    elim (Bool-cases (i == 0)) [
      | inl zeroth ↦
          let here : at ≡ cursor % slot_count = ground arith in
          elim (Bool-cases ((r.slots at).state == slot_free)) [
            | inl free ↦ take_slot-Moved cursor r at (omega arith) (λ _. here) (rw free at e)
            | inr used ↦
                let busy : (r.slots (cursor % slot_count)).state ≢ slot_free =
                  ground (arith, here, used) in
                alloc_loop-Moved left (i + 1) cursor r (λ _. busy) (rw used at e)
          ]
      | inr later ↦
          let ne = tried (ground arith) in
          elim (Bool-cases ((r.slots at).state == slot_free)) [
            | inl free ↦
                take_slot-Moved cursor r at (omega arith) (λ f. absurd (ne f)) (rw free at e)
            | inr used ↦ alloc_loop-Moved left (i + 1) cursor r (λ _. ne) (rw used at e)
          ]
    ]

alloc_slot-Moved :
    (r : Region) {handle : ℕ} {r' : Region}
    → alloc_slot r ≡ (some handle, r')
    → Moved (r.header.next_scan % 2 ^ 31) r handle r'
unfolding alloc_slot
alloc_slot-Moved r e =
    alloc_loop-Moved slot_count 0 (r.header.next_scan % 2 ^ 31) r (λ ne. absurd (ne refl)) e

-- Before the cursor wraps, the search takes no slot before it.
Moved-le :
    {r r' : Region} {handle : ℕ}
    → Marked r
    → (k : Moved (r.header.next_scan % 2 ^ 31) r handle r') → r.header.next_scan < 2 ^ 31
    → (j : ℕ) → j < r.header.next_scan
    → j < k.index + 1
Moved-le {r} v k low j lt =
    let n = r.header.next_scan in
    let c : n % 2 ^ 31 % slot_count ≡ n = omega (arith, v.cursor, low) in
    elim (Bool-cases ((r.slots n).state == slot_free)) [
      | inl free ↦ let e = k.first (rw c (ground arith)) in omega (arith, e, c, lt)
      | inr used ↦
          let (_, less) = v.below n (omega (arith, lt)) (ground arith) in
          absurd (omega (arith, less low))
    ]

pub publish-Marked :
    (r r' : Region) (handle pid obj_type w0 : ℕ)
    → Marked r
    → alloc_slot r ≡ (some handle, r')
    → Marked (slot_publish pid handle obj_type w0 r')
unfolding slot_publish
publish-Marked r r' handle pid t w v e =
    let k = alloc_slot-Moved r e in
    let bit : r.header.next_scan / 2 ^ 31 % 2 ≡ r.header.next_scan / 2 ^ 31 =
      omega (arith, v.fits) in
    record {
      cursor = ground (arith, k.next_scan, k.in_table, bit, v.fits);
      fits = ground (arith, k.next_scan, k.in_table, bit, v.fits);
      below = λ j ne used. elim (Bool-cases (j == k.index)) [
        | inl here ↦ ground (arith, here, k.in_table, k.next_scan)
        | inr other ↦
            let before : (r.slots j).state ≢ slot_free =
              ground (arith, k.states j, used, k.named, other) in
            let (lt, less) = v.below j ne before in
            (
              lt,
              λ low.
                  let early : r.header.next_scan < 2 ^ 31 = ground (arith, k.next_scan, low, bit) in
                  let le = Moved-le v k early j (less early) in
                  ground (arith, k.next_scan, low, bit, le),
            )
      ];
    }
