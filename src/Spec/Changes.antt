-- ===== src/Spec/Changes.antt =====
-- The changes that the calls of src/core.rs make to the slots, and the tables before and after: a word is
-- written, an object is freed, an object is made.
use ntsync_android.Base.{
  ℕ, ◌+◌, ◌≤◌, ◌≡◌, ◌≢◌, ◌⊎◌, refl, sym, ◌∙◌, true, Option, none, some, arith, ◌==◌, update,
  Bool-cases, inl, inr, ==→eq,
}
use ntsync_android.Region.{
  Region, Slot, slot, index_of, generation_of, slot_free, slot_used, type_reserved,
}
use ntsync_android.Region.Handle.{slot-some, slot_found}
use ntsync_android.Wait.{waitable}
use ntsync_android.Wait.Poll.{IsTyped}
use ntsync_android.Spec.{Object}
use ntsync_android.Spec.View.{
  object_of, view, SameView, Elsewhere, view_same, view-some, view-none, slot-ne, slot_free_none,
}

-- Slot 0 is reserved, the other used slots have objects and the rest are free, every word is one of its type,
-- and no slot was freed more than `n` times.
pub record IsSound (n : ℕ) (r : Region) : Type 0 where
  pub typed : (i : ℕ) → IsTyped (r.slots i)
  pub known : (i : ℕ) → i ≢ 0 → (r.slots i).state ≡ slot_used → waitable (r.slots i).obj_type ≡ true
  pub young : (i : ℕ) → (r.slots i).generation ≤ n
  pub settled : (i : ℕ) → ((r.slots i).state ≡ slot_free) ⊎ ((r.slots i).state ≡ slot_used)
  pub reserved : (r.slots 0).state ≡ slot_used
  pub kernel : (r.slots 0).obj_type ≡ type_reserved
  pub unowned : (r.slots 0).pid ≡ 0

-- The object of `h` gets the word `w`.
pub record Writes (r r' : Region) (i : ℕ) (w : ℕ) : Type 0 where
  pub state : (r'.slots i).state ≡ (r.slots i).state
  pub generation : (r'.slots i).generation ≡ (r.slots i).generation
  pub obj_type : (r'.slots i).obj_type ≡ (r.slots i).obj_type
  pub word : (r'.slots i).w0 ≡ w
  pub pid : (r'.slots i).pid ≡ (r.slots i).pid
  pub others : Elsewhere r r' i

module _ (r r' : Region) (h : ℕ) where
  -- A table that differs from another at `h` only.
  view-update :
      (o : Option Object)
      → view r' h ≡ o
      → ((k : ℕ) → k ≢ h → view r' k ≡ view r k)
      → (k : ℕ) → view r' k ≡ update (view r) h o k
  view-update o here there k = elim (Bool-cases (h == k)) [
    | inl e ↦ let f = ==→eq h k e in rw (← f) (here ∙ ground arith)
    | inr e ↦ rw e (there k (ground arith))
  ]

  pub view-Writes :
      {i : ℕ} (w : ℕ)
      → slot r h ≡ some i
      → Writes r r' i w
      → (k : ℕ) → view r' k ≡ update (view r) h (object_of (r.slots i).obj_type w) k
  view-Writes {i} w e c =
      let (at, used, gen) = slot-some r h e in
      let found : slot r' h ≡ some (index_of h) =
        slot_found r' h (rw (← at) (c.state ∙ used)) (rw (← at) (c.generation ∙ gen)) in
      view-update (object_of (r.slots i).obj_type w)
        (view-some r' h found ∙ rw (← at) (rw (c.obj_type, c.word) refl))
        (λ k ne. elim (Bool-cases (index_of k == index_of h)) [
          | inr off ↦ view_same r r' k (c.others (index_of k) (ground (arith, at)))
          | inl on ↦
              let same = ==→eq (index_of k) (index_of h) on in
              view-none r' k (slot-ne r' h k (rw (← at) (c.generation ∙ gen)) same ne)
              ∙ sym (view-none r k (slot-ne r h k (rw (← at) gen) same ne))
        ])

  pub view-Frees :
      {i : ℕ}
      → slot r h ≡ some i
      → (r'.slots i).state ≢ slot_used
      → Elsewhere r r' i
      → (k : ℕ) → view r' k ≡ update (view r) h none k
  view-Frees {i} e free others =
      let (at, used, gen) = slot-some r h e in
      view-update none (view-none r' h (slot_free_none r' h (rw (← at) free))) (λ k ne.
        elim (Bool-cases (index_of k == index_of h)) [
          | inr off ↦ view_same r r' k (others (index_of k) (ground (arith, at)))
          | inl on ↦
              let same = ==→eq (index_of k) (index_of h) on in
              view-none r' k (slot_free_none r' k (rw (same, ← at) free))
              ∙ sym (view-none r k (slot-ne r h k (rw (← at) gen) same ne))
        ])

  pub view-Makes :
      (o : Option Object)
      → (r.slots (index_of h)).state ≢ slot_used
      → (r'.slots (index_of h)).generation ≡ generation_of h
      → view r' h ≡ o
      → Elsewhere r r' (index_of h)
      → (view r h ≡ none) × ((k : ℕ) → view r' k ≡ update (view r) h o k)
  view-Makes o free gen here others = (
    view-none r h (slot_free_none r h free),
    view-update o here (λ k ne. elim (Bool-cases (index_of k == index_of h)) [
      | inr off ↦ view_same r r' k (others (index_of k) (ground arith))
      | inl on ↦
          let same = ==→eq (index_of k) (index_of h) on in
          view-none r' k (slot-ne r' h k gen same ne)
          ∙ sym (view-none r k (slot_free_none r k (rw same free)))
    ]),
  )

-- What keeps a region sound.
pub IsTyped-of_same : {s t : Slot} → SameView s t → IsTyped t → IsTyped s
IsTyped-of_same e v = record {
  sem = λ k. rw e.w0 (v.sem (sym e.obj_type ∙ k));
  mutex = λ k. rw e.w0 (v.mutex (sym e.obj_type ∙ k));
  event = λ k. rw e.w0 (v.event (sym e.obj_type ∙ k));
}

abbrev SameRole : (s t : Slot) → Type 0
SameRole s t = (s.state ≡ t.state) × (s.obj_type ≡ t.obj_type) × (s.pid ≡ t.pid)

SameView-role : {s t : Slot} → SameView s t → SameRole s t
SameView-role e = (e.state, e.obj_type, e.pid)

module _ (n : ℕ) (r r' : Region) (v : IsSound n r) where
  pub IsSound-Elsewhere :
      (m i : ℕ)
      → n ≤ m
      → Elsewhere r r' i
      → IsTyped (r'.slots i)
      → ((r'.slots i).state ≡ slot_free) ⊎ ((r'.slots i).state ≡ slot_used)
      → ((r'.slots i).state ≡ slot_used → i ≢ 0 → waitable (r'.slots i).obj_type ≡ true)
      → (r'.slots i).generation ≤ m
      → SameRole (r'.slots 0) (r.slots 0)
      → IsSound m r'
  IsSound-Elsewhere m i le others t st w g zeroth = record {
    typed = λ j. elim (Bool-cases (j == i)) [
      | inl e ↦ let f = ==→eq j i e in rw f t
      | inr e ↦ IsTyped-of_same (others j (ground arith)) (v.typed j)
    ];
    known = λ j ne used. elim (Bool-cases (j == i)) [
      | inl e ↦ let f = ==→eq j i e in rw f (w (rw f at used) (rw f at ne))
      | inr e ↦ let f = others j (ground arith) in rw f.obj_type (v.known j ne (sym f.state ∙ used))
    ];
    young = λ j. elim (Bool-cases (j == i)) [
      | inl e ↦ let f = ==→eq j i e in rw f g
      | inr e ↦ let f = others j (ground arith) in omega (arith, le, f.generation, v.young j)
    ];
    settled = λ j. elim (Bool-cases (j == i)) [
      | inl e ↦ let f = ==→eq j i e in rw f st
      | inr e ↦ let f = others j (ground arith) in rw f.state (v.settled j)
    ];
    reserved = zeroth.0 ∙ v.reserved;
    kernel = zeroth.1 ∙ v.kernel;
    unowned = zeroth.2 ∙ v.unowned;
  }

  pub IsSound-Writes :
      (m i w : ℕ) → n ≤ m → Writes r r' i w → IsTyped (record (r.slots i) { w0 = w }) → IsSound m r'
  IsSound-Writes m i w le c t =
      IsSound-Elsewhere m i le c.others
        (record {
          sem = λ k. rw c.word (t.sem (sym c.obj_type ∙ k));
          mutex = λ k. rw c.word (t.mutex (sym c.obj_type ∙ k));
          event = λ k. rw c.word (t.event (sym c.obj_type ∙ k));
        })
        (rw c.state (v.settled i)) (λ used ne. rw c.obj_type (v.known i ne (sym c.state ∙ used)))
        (omega (arith, le, c.generation, v.young i))
        (elim (Bool-cases (i == 0)) [
          | inl e ↦ let f = ==→eq i 0 e in rw (← f) (c.state, c.obj_type, c.pid)
          | inr e ↦ SameView-role (c.others 0 (ground arith))
        ])

  pub IsSound-Frees :
      (i : ℕ)
      → i ≢ 0
      → Elsewhere r r' i
      → (r'.slots i).obj_type ≡ (r.slots i).obj_type
      → (r'.slots i).w0 ≡ (r.slots i).w0
      → (r'.slots i).state ≡ slot_free
      → (r'.slots i).generation ≤ n + 1
      → IsSound (n + 1) r'
  IsSound-Frees i ne others t w free g =
      IsSound-Elsewhere (n + 1) i (omega arith) others
        (record {
          sem = λ k. rw w ((v.typed i).sem (sym t ∙ k));
          mutex = λ k. rw w ((v.typed i).mutex (sym t ∙ k));
          event = λ k. rw w ((v.typed i).event (sym t ∙ k));
        })
        (inl free) (λ used. absurd (ground (arith, free))) g
        (SameView-role (others 0 (λ e. ne (sym e))))

pub IsSound-later : (n : ℕ) (r : Region) → IsSound n r → IsSound (n + 1) r
IsSound-later n r v = record {
  typed = v.typed;
  known = v.known;
  young = λ i. omega (arith, v.young i);
  settled = v.settled;
  reserved = v.reserved;
  kernel = v.kernel;
  unowned = v.unowned;
}
