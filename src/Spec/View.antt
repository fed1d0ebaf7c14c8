-- ===== src/Spec/View.antt =====
-- The table that a region stands for (src/core.rs, lines 110-135 and 336-349), and what changes of a region
-- do to it.
use ntsync_android.Base.{
  ℕ, ◌≡◌, ◌≢◌, refl, sym, ◌∙◌, Option, none, some, arith, ◌==◌, if◌then◌else◌, Option-cases, inl,
  inr,
}
use ntsync_android.Region.{
  Region, Slot, slot, index_of, generation_of, slot_used, type_sem, type_mutex, type_event,
}
use ntsync_android.Region.Handle.{slot-some}
use ntsync_android.Waiter.Slots.{SameObject}
use ntsync_android.Object.State.{sem_of, mutex_of, event_of}
use ntsync_android.Spec.{Object, a_sem, a_mutex, an_event, Table}

-- The object of a used slot, by its type and its word.
unfoldable pub object_of : (obj_type w : ℕ) → Option Object
object_of t w =
    if t == type_sem
    then some (a_sem (sem_of w))
    else if t == type_mutex
    then some (a_mutex (mutex_of w))
    else if t == type_event
    then some (an_event (event_of w))
    else none

unfoldable pub view : Region → Table
view r h = elim (slot r h) [ none ↦ none | some i ↦ object_of (r.slots i).obj_type (r.slots i).w0 ]

-- A handle is its generation and its index.
pub handle-eq : (h k : ℕ) → index_of h ≡ index_of k → generation_of h ≡ generation_of k → h ≡ k
handle-eq h k i g = omega (arith, i, g)

pub view-some :
    (r : Region) (h : ℕ) {i : ℕ}
    → slot r h ≡ some i
    → view r h ≡ object_of (r.slots i).obj_type (r.slots i).w0
unfolding view
view-some r h e = rw (e, view) refl

pub view-none : (r : Region) (h : ℕ) → slot r h ≡ none → view r h ≡ none
unfolding view
view-none r h e = rw (e, view) refl

-- What the table depends on, and whether the sweep looks at the slot.
pub record SameView (s t : Slot) : Type 0 where
  pub state : s.state ≡ t.state
  pub generation : s.generation ≡ t.generation
  pub obj_type : s.obj_type ≡ t.obj_type
  pub w0 : s.w0 ≡ t.w0
  pub pid : s.pid ≡ t.pid

pub SameView-of_same : {s t : Slot} → SameObject s t → SameView s t
SameView-of_same e = record {
  state = e.state;
  generation = e.generation;
  obj_type = e.obj_type;
  w0 = e.w0;
  pid = e.pid;
}

slot_same :
    (r r' : Region) (h : ℕ)
    → SameView (r'.slots (index_of h)) (r.slots (index_of h))
    → slot r' h ≡ slot r h
unfolding slot
slot_same r r' h e = rw (e.state, e.generation, slot) refl

pub view_same :
    (r r' : Region) (h : ℕ)
    → SameView (r'.slots (index_of h)) (r.slots (index_of h))
    → view r' h ≡ view r h
view_same r r' h e = elim (Option-cases (slot r h)) [
  | inl f ↦ view-none r' h (slot_same r r' h e ∙ f) ∙ sym (view-none r h f)
  | inr (i, f) ↦
      let (at, _, _) = slot-some r h f in
      view-some r' h (slot_same r r' h e ∙ f)
      ∙ (rw (at, e.obj_type, e.w0) refl)
      ∙ sym (view-some r h f)
]

-- Two handles with one index name the slot at different times.
pub slot-ne :
    (r : Region) (h k : ℕ)
    → (r.slots (index_of h)).generation ≡ generation_of h
    → index_of k ≡ index_of h
    → k ≢ h
    → slot r k ≡ none
unfolding slot
slot-ne r h k g i ne =
    let differ : generation_of k ≢ generation_of h = λ e. ne (handle-eq k h i e) in
    ground (arith, g, i, differ)

pub slot_free_none :
    (r : Region) (k : ℕ) → (r.slots (index_of k)).state ≢ slot_used → slot r k ≡ none
unfolding slot
slot_free_none r k e = ground (arith, e)

-- All slots but the one at `i` look as before.
abbrev pub Elsewhere : (r r' : Region) → ℕ → Type 0
Elsewhere r r' i = (j : ℕ) → j ≢ i → SameView (r'.slots j) (r.slots j)
