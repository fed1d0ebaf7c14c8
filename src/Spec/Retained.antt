-- ===== src/Spec/Retained.antt =====
-- `retain` and `release` of src/core.rs (lines 869-900) with the sweep (lines 1827-2068): an object that a living
-- process has retained outlives its creator.
use ntsync_android.Base.{
  ℕ, ◌≡◌, ◌≢◌, ◌∙◌, Bool, true, some, List, [], ◌∷◌, arith, ◌==◌, Option-cases, Bool-cases, inl,
  inr, ◌⊎◌,
}
use ntsync_android.Region.{Region, Slot, Env, ok, slot, index_of, set_slot}
use ntsync_android.Region.Handle.{slot-some, slot_found}
use ntsync_android.Holder.{holder_add, holder_remove}
use ntsync_android.Holder.Held.{IsHeld, holder_add-IsHeld, holder_add-keeps, holder_remove-IsHeld}
use ntsync_android.Sweep.{sweep_dead_locked}
use ntsync_android.Sweep.Reap.{sweep_dead-SameObject}
use ntsync_android.Sweep.Held.{IsHeld-Kept}
use ntsync_android.Slot.{retain, release}
use ntsync_android.Spec.View.{view, view_same, SameView, SameView-of_same}
use ntsync_android.Spec.Reaps.{SameView-trans}
use ntsync_android.Spec.Handles.{holder_add-SameView, holder_remove-SameView}

-- What other processes do with their holds.
pub data Holding : Type 0 where
  retained_by released_by : Env → Holding

abbrev pub holder : Holding → ℕ
holder (retained_by env) = env.pid
holder (released_by env) = env.pid

abbrev pub serve_hold : (handle : ℕ) → Holding → Region → Region
serve_hold h (retained_by env) r = (retain env h r).1
serve_hold h (released_by env) r = (release env h r).1

abbrev pub serve_holds : (handle : ℕ) → List Holding → Region → Region
serve_holds h [] r = r
serve_holds h (c ∷ cs) r = serve_holds h cs (serve_hold h c r)

abbrev pub ByOthers : (pid : ℕ) → List Holding → Type 0
ByOthers pid [] = Unit
ByOthers pid (c ∷ cs) = (pid ≢ holder c) × ByOthers pid cs

-- The object of `h` is there, as in `r0`, and held by `pid`.
record Holds (r0 r : Region) (h pid : ℕ) : Type 0 where
  same : SameView (r.slots (index_of h)) (r0.slots (index_of h))
  found : slot r h ≡ some (index_of h)
  held : IsHeld (r.slots (index_of h)) pid

module _ (r0 : Region) (h pid : ℕ) where
  changed-Holds :
      (f : Slot → Slot) (r : Region)
      → ((s : Slot) → SameView (f s) s)
      → (IsHeld (r.slots (index_of h)) pid → IsHeld (f (r.slots (index_of h))) pid)
      → Holds r0 r h pid
      → Holds r0 (set_slot r (index_of h) (f (r.slots (index_of h)))) h pid
  changed-Holds f r same keeps k =
      let i = index_of h in
      let s = r.slots i in
      let here : (set_slot r i (f s)).slots i ≡ f s = ground arith in
      let (_, used, gen) = slot-some r h k.found in
      let e = same s in
      record {
        same = rw here (SameView-trans e k.same);
        found =
            slot_found (set_slot r i (f s)) h (rw here (e.state ∙ used))
              (rw here (e.generation ∙ gen));
        held = rw here (keeps k.held);
      }

  abbrev Either : (r : Region) → Region → (Slot → Slot) → Type 0
  Either r r' f = (r' ≡ r) ⊎ (r' ≡ set_slot r (index_of h) (f (r.slots (index_of h))))

  retain-cases :
      (env : Env) (r : Region)
      → slot r h ≡ some (index_of h)
      → Either r (retain env h r).1 (λ s. holder_add s env.pid)
  unfolding retain
  retain-cases env r e = elim (Bool-cases (index_of h == 0)) [
    | inl z ↦ inl (ground arith)
    | inr nz ↦ elim (Option-cases env.region_error) [
      | inr (_, a) ↦ inl (ground arith)
      | inl a ↦ elim (Option-cases env.lock_error) [
        | inr (_, b) ↦ inl (ground arith)
        | inl b ↦ inr (ground arith)
      ]
    ]
  ]

  release-cases :
      (env : Env) (r : Region)
      → slot r h ≡ some (index_of h)
      → Either r (release env h r).1 (λ s. holder_remove s env.pid)
  unfolding release
  release-cases env r e = elim (Bool-cases (index_of h == 0)) [
    | inl z ↦ inl (ground arith)
    | inr nz ↦ elim (Option-cases env.region_error) [
      | inr (_, a) ↦ inl (ground arith)
      | inl a ↦ elim (Option-cases env.lock_error) [
        | inr (_, b) ↦ inl (ground arith)
        | inl b ↦ inr (ground arith)
      ]
    ]
  ]

  Either-Holds :
      (r r' : Region) (f : Slot → Slot)
      → Either r r' f
      → ((s : Slot) → SameView (f s) s)
      → (IsHeld (r.slots (index_of h)) pid → IsHeld (f (r.slots (index_of h))) pid)
      → Holds r0 r h pid
      → Holds r0 r' h pid
  Either-Holds r r' f (inl e) same keeps k = rw e k
  Either-Holds r r' f (inr e) same keeps k = rw e (changed-Holds f r same keeps k)

  serve_hold-Holds :
      (c : Holding) (r : Region)
      → pid ≢ holder c
      → Holds r0 r h pid
      → Holds r0 (serve_hold h c r) h pid
  serve_hold-Holds (retained_by env) r ne k =
      Either-Holds r (retain env h r).1 (λ s. holder_add s env.pid) (retain-cases env r k.found)
        (λ s. holder_add-SameView s env.pid) (holder_add-keeps (r.slots (index_of h)) env.pid pid) k
  serve_hold-Holds (released_by env) r ne k =
      Either-Holds r (release env h r).1 (λ s. holder_remove s env.pid)
        (release-cases env r k.found) (λ s. holder_remove-SameView s env.pid)
        (holder_remove-IsHeld (r.slots (index_of h)) env.pid pid ne) k

  serve_holds-Holds :
      (cs : List Holding) (r : Region)
      → ByOthers pid cs
      → Holds r0 r h pid
      → Holds r0 (serve_holds h cs r) h pid
  serve_holds-Holds [] r q k = k
  serve_holds-Holds (c ∷ cs) r (ne, q) k =
      serve_holds-Holds cs (serve_hold h c r) q (serve_hold-Holds c r ne k)

retain-Holds :
    (env : Env) (h : ℕ) (r : Region) {r' : Region}
    → retain env h r ≡ (ok tt, r')
    → Holds r r' h env.pid
unfolding retain
retain-Holds env h r {r'} e = elim (Option-cases (slot r h)) [
  | inl f ↦ absurd (ground (arith, e, f))
  | inr (i, f) ↦
      let (at, used, gen) = slot-some r h f in
      let s = r.slots (index_of h) in
      let final : r' ≡ set_slot r (index_of h) (holder_add s env.pid) = ground (arith, e, f, at) in
      let same = holder_add-SameView s env.pid in
      let here : (set_slot r (index_of h) (holder_add s env.pid)).slots (index_of h)
          ≡ holder_add s env.pid =
        ground arith in
      rw final (record {
        same = rw here same;
        found =
            slot_found (set_slot r (index_of h) (holder_add s env.pid)) h
              (rw here (same.state ∙ (rw at at used))) (rw here (same.generation ∙ (rw at at gen)));
        held = rw here (holder_add-IsHeld s env.pid);
      })
]

-- An object that a process with a pid other than 0 has retained stays, whatever other processes retain
-- and release after that, when a sweep finds that process alive, be its creator and its other holders dead
-- or not: the handle still finds its slot, and names what it named before.
pub retain-survives :
    (env : Env) (h : ℕ) (r : Region) (cs : List Holding) (probe : ℕ → Bool) {r' : Region}
    → retain env h r ≡ (ok tt, r')
    → env.pid ≢ 0
    → probe env.pid ≡ true
    → ByOthers env.pid cs
    → (slot (sweep_dead_locked probe (serve_holds h cs r')).0 h ≡ some (index_of h))
      × (view (sweep_dead_locked probe (serve_holds h cs r')).0 h ≡ view r h)
retain-survives env h r cs probe {r'} e ne live q =
    let i = index_of h in
    let k = serve_holds-Holds r h env.pid cs r' q (retain-Holds env h r e) in
    let before = serve_holds h cs r' in
    let swept = (sweep_dead_locked probe before).0 in
    let same = SameView-of_same (
      sweep_dead-SameObject probe i before
        (IsHeld-Kept probe (before.slots i) env.pid ne live k.held)) in
    let (_, used, gen) = slot-some before h k.found in
    (
      slot_found swept h (same.state ∙ used) (same.generation ∙ gen),
      view_same r swept h (SameView-trans same k.same),
    )
