-- ===== src/Satisfy/Any.antt =====
-- `try_satisfy` for WAIT_ANY (src/core.rs, lines 1436-1446), with no other thread in between.
use ntsync_android.Base.{
  ℕ, ◌+◌, ◌≡◌, refl, ap, fun_ext, Bool, false, Option, none, some, List, [], ◌∷◌, ◌++◌, length,
  arith, Option-cases, inl, inr, update,
}
use ntsync_android.Cas.{cas_loop}
use ntsync_android.Region.{Region, Slot, WaitOutcome, signaled, index_of}
use ntsync_android.Object.{
  try_acquire, acquire_sem_round, acquire_mutex_round, acquire_event, claim_event_round,
}
use ntsync_android.Satisfy.{Target, acquire_at, satisfy_any, try_satisfy}

-- An attempt that fails leaves the word as it was.
try_acquire-none :
    (t w d owner seq : ℕ)
    → (try_acquire [] t w d owner seq).1 ≡ none
    → (try_acquire [] t w d owner seq).0 ≡ w
unfolding try_acquire cas_loop acquire_sem_round acquire_mutex_round acquire_event claim_event_round
try_acquire-none t w d owner seq h = ground arith

update_same : (f : ℕ → Slot) (i : ℕ) (s : Slot) → s ≡ f i → update f i s ≡ f
update_same f i s e = fun_ext λ j. ground arith

pub acquire_at-none :
    (r : Region) (owner : ℕ) (t : Target)
    → (acquire_at r owner t).0 ≡ none
    → (acquire_at r owner t).1 ≡ r
unfolding acquire_at
acquire_at-none r owner t h =
    let s = r.slots (index_of t.handle) in
    let e = try_acquire-none s.obj_type s.w0 s.d owner t.entry_seq h in
    ap (λ (f : ℕ → Slot). record r { slots = f })
      (update_same r.slots (index_of t.handle)
        (record s { w0 = (try_acquire [] s.obj_type s.w0 s.d owner t.entry_seq).0 })
        (ap (λ (w : ℕ). record s { w0 = w }) e))

-- None of the objects can be acquired.
abbrev pub Busy : Region → ℕ → List Target → Type 0
Busy r owner [] = Unit
Busy r owner (t ∷ ts) = ((acquire_at r owner t).0 ≡ none) × Busy r owner ts

-- The outcome of a wait for any of `ts`: the first object that can be acquired, named by its place,
-- with nothing else done; or no outcome and no change, if none can.
pub data AnyOf (r : Region) (owner : ℕ) (ts : List Target) (i : ℕ) (out : Option WaitOutcome)
    (r' : Region) : Type 0 where
  first :
      (before : List Target) (t : Target) (after : List Target) (dead : Bool)
      → ts ≡ before ++ t ∷ after
      → Busy r owner before
      → acquire_at r owner t ≡ (some dead, r')
      → out ≡ some (signaled (i + length before) dead)
      → AnyOf r owner ts i out r'
  all_busy : Busy r owner ts → out ≡ none → r' ≡ r → AnyOf r owner ts i out r'

AnyOf-cons :
    (r : Region) (owner : ℕ) (t : Target) (ts : List Target) (i : ℕ) {out : Option WaitOutcome}
    {r' : Region}
    → (acquire_at r owner t).0 ≡ none
    → AnyOf r owner ts (i + 1) out r'
    → AnyOf r owner (t ∷ ts) i out r'
AnyOf-cons r owner t ts i b (first before u after dead e busy got o) =
    first (t ∷ before) u after dead (ground arith) (b, busy) got (ground arith)
AnyOf-cons r owner t ts i b (all_busy busy o same) = all_busy (b, busy) o same

satisfy_any-AnyOf :
    (i : ℕ) (r : Region) (owner : ℕ) (ts : List Target)
    → AnyOf r owner ts i (satisfy_any i [] r owner ts).0 (satisfy_any i [] r owner ts).1
unfolding satisfy_any
satisfy_any-AnyOf i r owner [] = all_busy tt refl refl
satisfy_any-AnyOf i r owner (t ∷ ts) = elim (Option-cases (acquire_at r owner t).0) [
  | inl e ↦
      rw (e, satisfy_any)
        (rw (acquire_at-none r owner t e)
          (AnyOf-cons r owner t ts i e (satisfy_any-AnyOf (i + 1) r owner ts)))
  | inr (dead, e) ↦ rw (e, satisfy_any) (first [] t ts dead refl tt (ground arith) (ground arith))
]

-- A wait for any object, tried with no other thread in between, acquires the first of its objects that
-- can be acquired, reports its place in the list and whether it was abandoned, and does nothing else;
-- it has no outcome, and changes nothing, exactly when no object can be acquired.
pub try_satisfy-AnyOf :
    (r : Region) (owner : ℕ) (ts : List Target)
    → AnyOf r owner ts 0 (try_satisfy [] r owner ts false).0 (try_satisfy [] r owner ts false).1
unfolding try_satisfy
try_satisfy-AnyOf r owner ts = satisfy_any-AnyOf 0 r owner ts
