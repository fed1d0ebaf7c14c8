-- ===== src/Spec/Makes.antt =====
-- `create_semaphore`, `create_mutex` and `create_event` of src/core.rs (lines 791-830): a new object in the table.
use ntsync_android.Base.{
  ℕ, ◌^◌, ◌<◌, ◌≡◌, ◌≢◌, refl, sym, ◌∙◌, true, Option, none, some, arith, Option-cases, inl, inr,
  ◌⊎◌, update,
}
use ntsync_android.Region.{
  Region, Slot, Result, ok, err, init, slot, index_of, generation_of, slot_used, slot_free,
  slot_count,
}
use ntsync_android.Region.Handle.{slot_found}
use ntsync_android.Slot.{alloc_slot, slot_publish, handle_of, enomem}
use ntsync_android.Slot.Alloc.{Took, alloc_slot-Took, alloc_slot-none}
use ntsync_android.Slot.Create.{index_of-handle_of, generation_of-handle_of}
use ntsync_android.Wait.{waitable}
use ntsync_android.Wait.Poll.{IsTyped}
use ntsync_android.Spec.{Table, Object, Answer, number}
use ntsync_android.Spec.View.{view, object_of, Elsewhere, view-some}
use ntsync_android.Spec.Changes.{IsSound, IsSound-Elsewhere, view-Makes}
use ntsync_android.Spec.Ages.{IsNext, Ages-refl, Elsewhere-Ages}
use ntsync_android.Spec.Calls.{answered}
use ntsync_android.Spec.Reaps.{Loses}

-- An object at every index but that of slot 0.
abbrev pub IsFull : Table → Type 0
IsFull T =
    (i : ℕ) → i < slot_count → i ≢ 0 → (h : ℕ) × (index_of h ≡ i) × ((o : Object) × (T h ≡ some o))

-- What making an object promises: a handle that named nothing names it, or the table is full.
abbrev pub IsMade : Table → Object → Result Answer → Table → Type 0
IsMade T o answer T' =
    ((h : ℕ) × (answer ≡ ok (number h)) × (T h ≡ none) × ((k : ℕ) → T' k ≡ update T h (some o) k))
    ⊎ ((answer ≡ err (init enomem)) × IsFull T × ((k : ℕ) → T' k ≡ T k))

-- A full table first loses the objects that a sweep frees.
abbrev pub Makes : Table → Object → Result Answer → Table → Type 0
Makes T o answer T' =
    IsMade T o answer T' ⊎ (IsFull T × ((swept : Table) × Loses T swept × IsMade swept o answer T'))

-- The search, and the publication if it finds a slot.
abbrev pub placed : (pid t w : ℕ) → Option ℕ × Region → Result ℕ × Region
placed pid t w out = elim out.0 [
  | none ↦ (err (init enomem), out.1)
  | some h ↦ (ok h, slot_publish pid h t w out.1)
]

module _ (n : ℕ) (r : Region) (v : IsSound n r) (young : n < 2 ^ 18) where
  -- A used slot that is not slot 0 has a handle and an object.
  used_named :
      (i : ℕ)
      → i < slot_count
      → i ≢ 0
      → (r.slots i).state ≡ slot_used
      → (h : ℕ) × (index_of h ≡ i) × ((o : Object) × (view r h ≡ some o))
  unfolding object_of
  used_named i lt ne used =
      let g = (r.slots i).generation in
      let h = handle_of g i in
      let at = index_of-handle_of g i lt in
      let gen : generation_of h ≡ g =
        generation_of-handle_of g i lt ∙ omega (arith, v.young i, young) in
      let known = v.known i ne used in
      let found : slot r h ≡ some (index_of h) = slot_found r h (rw at used) (rw at (sym gen)) in
      let there = view-some r h found in
      elim (Option-cases (object_of (r.slots i).obj_type (r.slots i).w0)) [
        | inl e ↦ absurd (ground arith)
        | inr (o, e) ↦ (h, at, (o, there ∙ (rw at e)))
      ]

  pub all_used-IsFull : ((i : ℕ) → i < slot_count → (r.slots i).state ≢ slot_free) → IsFull (view r)
  all_used-IsFull all i lt ne =
      used_named i lt ne
        (elim (v.settled i) [ inl free ↦ absurd (all i lt free) | inr used ↦ used ])

  module _ (pid t w : ℕ) (o : Object) (typed : waitable t ≡ true) (made : object_of t w ≡ some o)
      (kept : (s : Slot) → s.obj_type ≡ t → s.w0 ≡ w → IsTyped s) where
    -- The object that is published in the slot taken.
    publish-IsMade :
        (h : ℕ) (r' : Region)
        → Took r h r'
        → IsMade (view r) o (ok (number h)) (view (slot_publish pid h t w r'))
          × IsNext n r (slot_publish pid h t w r')
    unfolding slot_publish
    publish-IsMade h r' k =
        let i = k.index in
        let after = slot_publish pid h t w r' in
        let g = (r.slots i).generation in
        let at : index_of h ≡ i = rw k.named (index_of-handle_of g i k.in_table) in
        let gen : generation_of h ≡ g =
          rw k.named (generation_of-handle_of g i k.in_table ∙ omega (arith, v.young i, young)) in
        let ne : i ≢ 0 = λ e. ground (arith, k.was_free, v.reserved) in
        let used : (after.slots (index_of h)).state ≡ slot_used = ground arith in
        let same : (after.slots (index_of h)).generation ≡ generation_of h =
          ground (arith, at, k.generation, gen) in
        let kind : (after.slots (index_of h)).obj_type ≡ t = ground arith in
        let word : (after.slots (index_of h)).w0 ≡ w = ground arith in
        let others : Elsewhere r after (index_of h) = λ j off.
          let here : after.slots j ≡ r.slots j = ground (arith, k.others j, at) in
          rw here
            (record { state = refl; generation = refl; obj_type = refl; w0 = refl; pid = refl }) in
        let here : view after h ≡ some o =
          view-some after h (slot_found after h used same) ∙ (rw (kind, word) made) in
        let (fresh, table) =
          view-Makes r after h (some o) (rw at (ground (arith, k.was_free))) same here others in
        (
          inl (h, refl, fresh, table),
          (
            IsSound-Elsewhere n r after v n (index_of h) (omega arith) others
                (kept (after.slots (index_of h)) kind word) (inr used) (λ _ _. rw kind typed)
                (ground (arith, same, gen, v.young i))
                (let zeroth = others 0 (λ e. ne (sym at ∙ sym e)) in
                  (zeroth.state, zeroth.obj_type, zeroth.pid)),
            Elsewhere-Ages r after (index_of h) others
                (record { later = rw (same, at) (ground (arith, gen)); kept = λ _ _. used }),
          ),
        )

    pub placed-IsMade :
        IsMade
          (view r)
          o
          (answered number (placed pid t w (alloc_slot r))).0
          (view (placed pid t w (alloc_slot r)).1)
        × IsNext n r (placed pid t w (alloc_slot r)).1
    placed-IsMade = elim (Option-cases (alloc_slot r).0) [
      | inr (h, e) ↦ rw e (publish-IsMade h (alloc_slot r).1 (alloc_slot-Took r (ground arith)))
      | inl e ↦
          let (all, same) = alloc_slot-none r e in
          rw (e, same) (inr (refl, all_used-IsFull all, λ k. refl), (v, λ i. Ages-refl (r.slots i)))
    ]
