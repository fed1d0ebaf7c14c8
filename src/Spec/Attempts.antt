-- ===== src/Spec/Attempts.antt =====
-- `try_satisfy` of src/core.rs (lines 1427-1479), with no other thread in between, against the acquisitions on
-- the table.
use ntsync_android.Base.{
  ℕ, ◌+◌, ◌^◌, ◌<◌, ◌≡◌, refl, sym, ◌∙◌, fun_ext, Bool, true, false, ◌||◌, Option, none, some,
  arith, Option-cases, inl, inr, ◌⊎◌, List, [], ◌∷◌, ◌++◌,
}
use ntsync_android.Region.{Region, WaitOutcome, signaled, index_of}
use ntsync_android.Region.Handle.{slot-some, slot_found}
use ntsync_android.Satisfy.{Target, acquire_at, satisfy_any, satisfy_all, try_satisfy}
use ntsync_android.Satisfy.Any.{acquire_at-none}
use ntsync_android.Satisfy.Wait.{taken, refused, Apart, AllSound, try_satisfy-AllOf}
use ntsync_android.Spec.{Table}
use ntsync_android.Spec.View.{view, view_same}
use ntsync_android.Spec.Changes.{IsSound}
use ntsync_android.Spec.Ages.{AllAges, Ages-refl, Ages-trans}
use ntsync_android.Spec.Polls.{any_spec, all_spec, attempt_spec}
use ntsync_android.Spec.Takes.{IsReady, acquire_at-Takes}

abbrev pub AllReady : Region → List Target → Type 0
AllReady r [] = Unit
AllReady r (t ∷ ts) = IsReady r t × AllReady r ts

abbrev pub handles_of : List Target → List ℕ
handles_of [] = []
handles_of (t ∷ ts) = t.handle ∷ handles_of ts

-- An acquisition changes the words only.
acquire_at-fields :
    (r : Region) (owner : ℕ) (t : Target) (j : ℕ)
    → (((acquire_at r owner t).1.slots j).state ≡ (r.slots j).state)
      × (((acquire_at r owner t).1.slots j).generation ≡ (r.slots j).generation)
      × (((acquire_at r owner t).1.slots j).obj_type ≡ (r.slots j).obj_type)
      × (((acquire_at r owner t).1.slots j).d ≡ (r.slots j).d)
unfolding acquire_at
acquire_at-fields r owner t j = (ground arith, ground arith, ground arith, ground arith)

acquire_at-IsReady :
    (r : Region) (owner : ℕ) (t u : Target) → IsReady r u → IsReady (acquire_at r owner t).1 u
acquire_at-IsReady r owner t u ready =
    let i = index_of u.handle in
    let (state, gen, kind, d) = acquire_at-fields r owner t i in
    let (_, used, named) = slot-some r u.handle ready.named in
    record {
      named = slot_found (acquire_at r owner t).1 u.handle (state ∙ used) (gen ∙ named);
      kind = rw kind ready.kind;
      pulses = λ e. rw d (ready.pulses (sym kind ∙ e));
    }

acquire_at-AllReady :
    (r : Region) (owner : ℕ) (t : Target) (us : List Target)
    → AllReady r us
    → AllReady (acquire_at r owner t).1 us
acquire_at-AllReady r owner t [] a = tt
acquire_at-AllReady r owner t (u ∷ us) (a, b) =
    (acquire_at-IsReady r owner t u a, acquire_at-AllReady r owner t us b)

-- What an attempt ends with.
pub record Attempted (n : ℕ) (r : Region) (out : Option WaitOutcome × Region)
    (promised : Option WaitOutcome × Table) : Type 0 where
  pub outcome : out.0 ≡ promised.0
  pub table : view out.1 ≡ promised.1
  pub sound : IsSound n out.1
  pub aged : AllAges r out.1

module _ (n : ℕ) (owner : ℕ) (pos_owner : 0 < owner) (fits : owner < 2 ^ 32) where
  satisfy_any-Attempted :
      (ts : List Target) (i : ℕ) (r : Region)
      → IsSound n r
      → AllReady r ts
      → Attempted n r (satisfy_any i [] r owner ts) (any_spec i (view r) owner (handles_of ts))
  unfolding satisfy_any
  satisfy_any-Attempted [] i r v a = record {
    outcome = refl;
    table = refl;
    sound = v;
    aged = λ j. Ages-refl (r.slots j);
  }
  satisfy_any-Attempted (t ∷ ts) i r v (ready, a) =
      let k = acquire_at-Takes n r owner t v pos_owner fits ready in
      elim (Option-cases (acquire_at r owner t).0) [
        | inr (dead, e) ↦
            rw (e, satisfy_any, sym k.got ∙ e, any_spec)
              (record { outcome = refl; table = k.table; sound = k.sound; aged = k.aged })
        | inl e ↦
            rw (e, satisfy_any, sym k.got ∙ e, any_spec, acquire_at-none r owner t e)
              (satisfy_any-Attempted ts (i + 1) r v a)
      ]

  -- All of the objects could be taken, or one could not.
  abbrev Tried : Region → Option WaitOutcome × Region → Option (Bool × Table) → Type 0
  Tried r out promised =
      ((out.0 ≡ none) × (promised ≡ none))
      ⊎ ((od : Bool) × (out.0 ≡ some (signaled 0 od))
          × (promised ≡ some (od, view out.1))
          × IsSound n out.1
          × AllAges r out.1)

  satisfy_all-Tried :
      (ts : List Target) (r : Region) (acquired : List (ℕ × Bool)) (od : Bool)
      → IsSound n r
      → AllReady r ts
      → Tried r (satisfy_all [] r owner acquired od ts) (all_spec od (view r) owner (handles_of ts))
  unfolding satisfy_all
  satisfy_all-Tried [] r acquired od v a = inr (od, refl, refl, v, λ j. Ages-refl (r.slots j))
  satisfy_all-Tried (t ∷ ts) r acquired od v (ready, a) =
      let k = acquire_at-Takes n r owner t v pos_owner fits ready in
      elim (Option-cases (acquire_at r owner t).0) [
        | inl e ↦ rw (e, satisfy_all, sym k.got ∙ e, all_spec) (inl (refl, refl))
        | inr (dead, e) ↦
            let r1 = (acquire_at r owner t).1 in
            let rest =
              satisfy_all-Tried ts r1 (acquired ++ (t.handle, dead) ∷ []) (od || dead) k.sound
                (acquire_at-AllReady r owner t ts a) in
            rw (e, satisfy_all, sym k.got ∙ e, all_spec, ← k.table)
              (elim rest [
                | inl gone ↦ inl gone
                | inr (d, x, y, s, g) ↦ inr (d, x, y, s, λ j. Ages-trans (k.aged j) (g j))
              ])
      ]

IsSound-same :
    (n : ℕ) (r r' : Region) → ((j : ℕ) → r'.slots j ≡ r.slots j) → IsSound n r → IsSound n r'
IsSound-same n r r' same v = record {
  typed = λ i. rw (same i) (v.typed i);
  known = λ i. rw (same i) (v.known i);
  young = λ i. rw (same i) (v.young i);
  settled = λ i. rw (same i) (v.settled i);
  reserved = rw (same 0) v.reserved;
  kernel = rw (same 0) v.kernel;
  unowned = rw (same 0) v.unowned;
}

same-Attempted :
    (n : ℕ) (r : Region) (out : Option WaitOutcome × Region)
    → out.0 ≡ none
    → ((j : ℕ) → out.1.slots j ≡ r.slots j)
    → IsSound n r
    → Attempted n r out (none, view r)
same-Attempted n r out e same v = record {
  outcome = e;
  table = fun_ext (λ h. view_same r out.1 h (
      rw (same (index_of h))
        (record { state = refl; generation = refl; obj_type = refl; w0 = refl; pid = refl })));
  sound = IsSound-same n r out.1 same v;
  aged = λ j. rw (same j) (Ages-refl (r.slots j));
}

-- The attempt of a wait on its targets does what it promises on their handles.
pub try_satisfy-Attempted :
    (n : ℕ) (owner : ℕ) (all : Bool) (ts : List Target) (r : Region)
    → 0 < owner
    → owner < 2 ^ 32
    → IsSound n r
    → AllReady r ts
    → Apart [] ts
    → AllSound r ts
    → Attempted n r
        (try_satisfy [] r owner ts all)
        (attempt_spec all (view r) owner (handles_of ts))
unfolding try_satisfy
try_satisfy-Attempted n owner false ts r h k v a p q = satisfy_any-Attempted n owner h k ts 0 r v a
try_satisfy-Attempted n owner true ts r h k v a p q =
    let out = satisfy_all [] r owner [] false ts in
    elim (satisfy_all-Tried n owner h k ts r [] false v a) [
      | inr (od, x, y, s, g) ↦ rw y (record { outcome = x; table = refl; sound = s; aged = g })
      | inl (x, y) ↦ elim (try_satisfy-AllOf r owner ts k p q) [
        | taken e b c ↦ absurd (ground (arith, e, x))
        | refused e before t after f g same ↦ rw y (same-Attempted n r out x same v)
      ]
    ]
