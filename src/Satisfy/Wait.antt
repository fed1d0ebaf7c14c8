-- ===== src/Satisfy/Wait.antt =====
-- What a WAIT_ALL attempt of src/core.rs (lines 1447-1478) does as a whole, with no other thread in
-- between.
use ntsync_android.Base.{
  ℕ, ◌≡◌, ◌≢◌, ◌<◌, ◌^◌, refl, sym, ◌∙◌, Bool, true, false, Option, none, some, List, [], ◌∷◌, ◌++◌,
  arith, ◌==◌, Option-cases, inl, inr, contains, ◌||◌,
}
use ntsync_android.Region.{Region, WaitOutcome, signaled, index_of}
use ntsync_android.Satisfy.{Target, acquire_at, rollback_at, satisfy_all, try_satisfy}
use ntsync_android.Satisfy.Any.{acquire_at-none}
use ntsync_android.Satisfy.All.{
  IsSound, indices, Undoes, Undoes-other, rollback_all-Undoes, rollback-try_acquire,
}

abbrev pub places : List Target → List ℕ
places [] = []
places (t ∷ ts) = index_of t.handle ∷ places ts

-- The objects are in slots of their own, none of them in `is`.
abbrev pub Apart : List ℕ → List Target → Type 0
Apart is [] = Unit
Apart is (t ∷ ts) = (contains is (index_of t.handle) ≡ false) × Apart (index_of t.handle ∷ is) ts

abbrev pub AllSound : Region → List Target → Type 0
AllSound r [] = Unit
AllSound r (t ∷ ts) = IsSound (r.slots (index_of t.handle)) t.entry_seq × AllSound r ts

-- Every object of `ts` could be acquired in `r`, and `r'` has each as its acquisition leaves it.
abbrev pub Taken : Region → ℕ → Region → List Target → Type 0
Taken r owner r' [] = Unit
Taken r owner r' (t ∷ ts) =
    ((dead : Bool) × ((acquire_at r owner t).0 ≡ some dead))
    × (r'.slots (index_of t.handle) ≡ (acquire_at r owner t).1.slots (index_of t.handle))
    × Taken r owner r' ts

abbrev pub was_dead : Option Bool → Bool
was_dead none = false
was_dead (some b) = b

-- Whether an abandoned mutex is among those acquired.
abbrev pub any_dead : Region → ℕ → List Target → Bool
any_dead r owner [] = false
any_dead r owner (t ∷ ts) = was_dead (acquire_at r owner t).0 || any_dead r owner ts

-- The outcome of a wait for all of `ts`, `od` being what was found abandoned before and `is` the slots
-- acquired before.
pub data AllOf (r0 r : Region) (owner : ℕ) (is : List ℕ) (od : Bool) (ts : List Target)
    (out : Option WaitOutcome) (r' : Region) : Type 0 where
  taken :
      out ≡ some (signaled 0 (od || any_dead r0 owner ts))
      → Taken r0 owner r' ts
      → ((j : ℕ) → contains (places ts) j ≡ false → r'.slots j ≡ r.slots j)
      → AllOf r0 r owner is od ts out r'
  refused :
      out ≡ none
      → (before : List Target) (t : Target) (after : List Target) → ts ≡ before ++ t ∷ after
      → (acquire_at r0 owner t).0 ≡ none
      → ((j : ℕ) → r'.slots j ≡ r0.slots j)
      → AllOf r0 r owner is od ts out r'

pub acquire_at-cong :
    (r r0 : Region) (owner : ℕ) (t : Target)
    → r.slots (index_of t.handle) ≡ r0.slots (index_of t.handle)
    → ((acquire_at r owner t).0 ≡ (acquire_at r0 owner t).0)
      × ((acquire_at r owner t).1.slots (index_of t.handle)
          ≡ (acquire_at r0 owner t).1.slots (index_of t.handle))
unfolding acquire_at
acquire_at-cong r r0 owner t e = (ground arith, ground arith)

pub acquire_at-other :
    (r : Region) (owner : ℕ) (t : Target) (j : ℕ)
    → j ≢ index_of t.handle
    → (acquire_at r owner t).1.slots j ≡ r.slots j
unfolding acquire_at
acquire_at-other r owner t j ne = ground arith

-- Acquiring and rolling back one object.
rollback_at-acquire_at :
    (r : Region) (owner : ℕ) (t : Target) (dead : Bool)
    → owner < 2 ^ 32
    → IsSound (r.slots (index_of t.handle)) t.entry_seq
    → (acquire_at r owner t).0 ≡ some dead
    → (rollback_at (acquire_at r owner t).1 owner t.handle dead).slots (index_of t.handle)
      ≡ r.slots (index_of t.handle)
unfolding acquire_at rollback_at
rollback_at-acquire_at r owner t dead lt v e =
    let s = r.slots (index_of t.handle) in
    let u = rollback-try_acquire owner lt s t.entry_seq v e in ground arith

indices-append :
    (acquired : List (ℕ × Bool)) (h : ℕ) (dead : Bool) (j : ℕ)
    → contains (indices (acquired ++ (h, dead) ∷ [])) j
      ≡ (contains (indices acquired) j || (index_of h == j))
indices-append [] h dead j = ground arith
indices-append ((k, d) ∷ acquired) h dead j = ground (arith, indices-append acquired h dead j)

Undoes-append :
    (owner : ℕ) (r0 r : Region) (acquired : List (ℕ × Bool)) (h : ℕ) (dead : Bool)
    → contains (indices acquired) (index_of h) ≡ false
    → Undoes owner r0 r acquired
    → (rollback_at r owner h dead).slots (index_of h) ≡ r0.slots (index_of h)
    → Undoes owner r0 r (acquired ++ (h, dead) ∷ [])
Undoes-append owner r0 r [] h dead out u e = (e, refl, tt)
Undoes-append owner r0 r ((k, d) ∷ acquired) h dead out u e = (
  u.0,
  ground (arith, indices-append acquired h dead (index_of k)),
  Undoes-append owner r0 r acquired h dead (ground arith) u.2 e,
)

not_place :
    (is : List ℕ) (ts : List Target) (i : ℕ)
    → Apart is ts
    → contains is i ≡ true
    → contains (places ts) i ≡ false
not_place is [] i a c = refl
not_place is (t ∷ ts) i a c = ground (arith, not_place (index_of t.handle ∷ is) ts i a.1)

AllOf-cons :
    (r0 r r1 : Region) (owner : ℕ) (is : List ℕ) (od dead : Bool) (t : Target) (ts : List Target)
    {out : Option WaitOutcome} {r' : Region}
    → (acquire_at r0 owner t).0 ≡ some dead
    → r1.slots (index_of t.handle) ≡ (acquire_at r0 owner t).1.slots (index_of t.handle)
    → ((j : ℕ) → j ≢ index_of t.handle → r1.slots j ≡ r.slots j)
    → Apart (index_of t.handle ∷ is) ts
    → AllOf r0 r1 owner (index_of t.handle ∷ is) (od || dead) ts out r'
    → AllOf r0 r owner is od (t ∷ ts) out r'
AllOf-cons r0 r r1 owner is od dead t ts got left other a (taken o k same) =
    let i = index_of t.handle in
    let mine = same i (not_place (i ∷ is) ts i a (ground arith)) in
    taken (ground arith) ((dead, got), mine ∙ left, k)
      (λ j c. same j (ground arith) ∙ other j (ground arith))
AllOf-cons r0 r r1 owner is od dead t ts got left other a (refused o before u after e busy same) =
    refused o (t ∷ before) u after (ground arith) busy same

module _ (r0 : Region) (owner : ℕ) (lt : owner < 2 ^ 32) where
  satisfy_all-AllOf :
      (ts : List Target) (is : List ℕ) (r : Region) (acquired : List (ℕ × Bool)) (od : Bool)
      → Undoes owner r0 r acquired
      → ((j : ℕ) → contains (indices acquired) j ≡ contains is j)
      → ((j : ℕ) → contains is j ≡ false → r.slots j ≡ r0.slots j)
      → Apart is ts
      → AllSound r0 ts
      → AllOf r0 r owner is od ts
          (satisfy_all [] r owner acquired od ts).0
          (satisfy_all [] r owner acquired od ts).1
  unfolding satisfy_all
  satisfy_all-AllOf [] is r acquired od u m same a v = taken (ground arith) tt (λ j c. refl)
  satisfy_all-AllOf (t ∷ ts) is r acquired od u m same a v =
      let i = index_of t.handle in
      let here : r.slots i ≡ r0.slots i = same i a.0 in
      let (got, left) = acquire_at-cong r r0 owner t here in
      elim (Option-cases (acquire_at r owner t).0) [
        | inl e ↦
            rw (e, satisfy_all)
              (refused refl [] t ts refl (sym got ∙ e) (
                rw (acquire_at-none r owner t e)
                  (rollback_all-Undoes owner r0 r acquired u (λ j c. same j (sym (m j) ∙ c)))))
        | inr (dead, e) ↦
            let r1 = (acquire_at r owner t).1 in
            let out : contains (indices acquired) i ≡ false = m i ∙ a.0 in
            let u1 =
              Undoes-append owner r0 r1 acquired t.handle dead out
                (Undoes-other owner r0 r r1 acquired i out (acquire_at-other r owner t) u)
                (rollback_at-acquire_at r owner t dead lt (rw here v.0) e ∙ here) in
            rw (e, satisfy_all)
              (AllOf-cons r0 r r1 owner is od dead t ts (sym got ∙ e) left
                (acquire_at-other r owner t) a.1
                (satisfy_all-AllOf ts (i ∷ is) r1 (acquired ++ (t.handle, dead) ∷ []) (od || dead)
                  u1 (λ j. ground (arith, indices-append acquired t.handle dead j, m j))
                  (λ j c. acquire_at-other r owner t j (ground arith) ∙ same j (ground arith)) a.1
                  v.1))
      ]

-- A wait for all objects, tried by a caller with an owner below 2 ^ 32 on sound objects in slots of
-- their own, with no other thread in between: either it acquires every object, leaves every other
-- slot alone and reports whether one was abandoned; or some object cannot be acquired, there is no
-- outcome, and every slot is as it was.
pub try_satisfy-AllOf :
    (r : Region) (owner : ℕ) (ts : List Target)
    → owner < 2 ^ 32
    → Apart [] ts
    → AllSound r ts
    → AllOf r r owner [] false ts
        (try_satisfy [] r owner ts true).0
        (try_satisfy [] r owner ts true).1
unfolding try_satisfy
try_satisfy-AllOf r owner ts lt a v =
    satisfy_all-AllOf r owner lt ts [] r [] false tt (λ j. refl) (λ j c. refl) a v
