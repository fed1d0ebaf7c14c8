-- ===== src/Satisfy/All.antt =====
-- `try_satisfy` for WAIT_ALL (src/core.rs, lines 1447-1478): when an object is busy, the rollback
-- gives back what was acquired before it.
use ntsync_android.Base.{
  ℕ, ◌≡◌, ◌≢◌, ◌<◌, ◌^◌, refl, ◌∙◌, Bool, false, some, List, [], ◌∷◌, arith, ◌==◌, inl, inr, ◌⊎◌,
  Bool-cases, contains, ==→eq,
}
use ntsync_android.Word.{hi}
use ntsync_android.Region.{Region, Slot, index_of, type_sem, type_mutex, type_event}
use ntsync_android.Object.{try_acquire, rollback_acquire}
use ntsync_android.Object.State.{IsSem, IsMutex, IsEvent}
use ntsync_android.Object.Acquire.{
  rollback-try_acquire_sem, rollback-try_acquire_mutex, rollback-try_acquire_event,
}
use ntsync_android.Satisfy.{rollback_at, rollback_all}

-- An object of one of the three types whose word is one of its type, and that a wait which began at
-- `entry_seq` would not find satisfied by a pulse alone.
pub record IsSound (s : Slot) (entry_seq : ℕ) : Type 0 where
  pub typed : (s.obj_type ≡ type_sem) ⊎ ((s.obj_type ≡ type_mutex) ⊎ (s.obj_type ≡ type_event))
  pub sem : s.obj_type ≡ type_sem → IsSem s.w0
  pub mutex : s.obj_type ≡ type_mutex → IsMutex s.w0
  pub event : s.obj_type ≡ type_event → IsEvent s.w0
  pub unpulsed : s.obj_type ≡ type_event → (s.d ≡ entry_seq) ⊎ (hi s.w0 ≡ 1)

-- Rolling back an acquisition gives the word back.
pub rollback-try_acquire :
    (owner : ℕ)
    → owner < 2 ^ 32
    → (s : Slot) (seq : ℕ) {dead : Bool} → IsSound s seq
    → (try_acquire [] s.obj_type s.w0 s.d owner seq).1 ≡ some dead
    → rollback_acquire [] s.obj_type (try_acquire [] s.obj_type s.w0 s.d owner seq).0 owner dead
      ≡ s.w0
rollback-try_acquire owner lt s seq v e = elim v.typed [
  | inl t ↦ rw t (rollback-try_acquire_sem s.d owner seq s.w0 (v.sem t) (rw t at e))
  | inr (inl t) ↦ rw t (rollback-try_acquire_mutex s.d owner seq s.w0 lt (v.mutex t) (rw t at e))
  | inr (inr t) ↦
      rw t (rollback-try_acquire_event s.d owner seq s.w0 (v.event t) (v.unpulsed t) (rw t at e))
]

abbrev pub indices : List (ℕ × Bool) → List ℕ
indices [] = []
indices ((h, _) ∷ acquired) = index_of h ∷ indices acquired

-- The acquired objects differ from `r0` by what a rollback undoes, and nothing else differs.
abbrev pub Undoes : ℕ → Region → Region → List (ℕ × Bool) → Type 0
Undoes owner r0 r [] = Unit
Undoes owner r0 r ((h, dead) ∷ acquired) =
    ((rollback_at r owner h dead).slots (index_of h) ≡ r0.slots (index_of h))
    × (contains (indices acquired) (index_of h) ≡ false)
    × Undoes owner r0 r acquired

rollback_at-other :
    (r : Region) (owner h : ℕ) (dead : Bool) (j : ℕ)
    → j ≢ index_of h
    → (rollback_at r owner h dead).slots j ≡ r.slots j
unfolding rollback_at
rollback_at-other r owner h dead j ne = ground arith

rollback_at-cong :
    (r s : Region) (owner h : ℕ) (dead : Bool)
    → r.slots (index_of h) ≡ s.slots (index_of h)
    → (rollback_at r owner h dead).slots (index_of h)
      ≡ (rollback_at s owner h dead).slots (index_of h)
unfolding rollback_at
rollback_at-cong r s owner h dead e = ground arith

pub Undoes-other :
    (owner : ℕ) (r0 r r' : Region) (acquired : List (ℕ × Bool)) (i : ℕ)
    → contains (indices acquired) i ≡ false
    → ((j : ℕ) → j ≢ i → r'.slots j ≡ r.slots j)
    → Undoes owner r0 r acquired
    → Undoes owner r0 r' acquired
Undoes-other owner r0 r r' [] i out same u = tt
Undoes-other owner r0 r r' ((h, dead) ∷ acquired) i out same u = (
  rollback_at-cong r' r owner h dead (same (index_of h) (ground arith)) ∙ u.0,
  u.1,
  Undoes-other owner r0 r r' acquired i (ground arith) same u.2,
)

pub rollback_all-Undoes :
    (owner : ℕ) (r0 r : Region) (acquired : List (ℕ × Bool))
    → Undoes owner r0 r acquired
    → ((j : ℕ) → contains (indices acquired) j ≡ false → r.slots j ≡ r0.slots j)
    → (j : ℕ) → (rollback_all [] r owner acquired).slots j ≡ r0.slots j
unfolding rollback_all
rollback_all-Undoes owner r0 r [] u same j = same j refl
rollback_all-Undoes owner r0 r ((h, dead) ∷ acquired) u same j =
    let r' = rollback_at r owner h dead in
    rollback_all-Undoes owner r0 r' acquired
      (Undoes-other owner r0 r r' acquired (index_of h) u.1 (rollback_at-other r owner h dead) u.2)
      (λ k out. elim (Bool-cases (k == index_of h)) [
        | inl e ↦ let e' = ==→eq k (index_of h) e in rw e' u.0
        | inr ne ↦ rollback_at-other r owner h dead k (ground arith) ∙ same k (ground arith)
      ])
      j
