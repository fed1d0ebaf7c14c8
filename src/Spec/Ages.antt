-- ===== src/Spec/Ages.antt =====
-- The generations of the slots (src/core.rs, lines 110-135 and 336-349): a handle that has lost its object never
-- names another one.
use ntsync_android.Base.{
  ℕ, ◌≤◌, ◌≡◌, ◌∙◌, none, some, arith, ◌==◌, Bool-cases, Option-cases, inl, inr, ==→eq,
}
use ntsync_android.Region.{Region, Slot, slot, slot_used, index_of, generation_of}
use ntsync_android.Region.Handle.{slot-some, slot_found}
use ntsync_android.Spec.View.{SameView, Elsewhere}
use ntsync_android.Spec.Changes.{IsSound, Writes}

-- A slot keeps its object as long as it keeps its generation.
pub record Ages (s t : Slot) : Type 0 where
  pub later : s.generation ≤ t.generation
  pub kept : t.generation ≡ s.generation → s.state ≡ slot_used → t.state ≡ slot_used

abbrev pub AllAges : (r r' : Region) → Type 0
AllAges r r' = (i : ℕ) → Ages (r.slots i) (r'.slots i)

-- A region that may come after another.
abbrev pub IsNext : ℕ → (r r' : Region) → Type 0
IsNext n r r' = IsSound n r' × AllAges r r'

pub Ages-refl : (s : Slot) → Ages s s
Ages-refl s = record { later = omega arith; kept = λ e used. used }

pub Ages-trans : {s t u : Slot} → Ages s t → Ages t u → Ages s u
Ages-trans a b = record {
  later = omega (arith, a.later, b.later);
  kept = λ e used.
      b.kept (omega (arith, e, a.later, b.later))
        (a.kept (omega (arith, e, a.later, b.later)) used);
}

pub SameView-Ages : {s t : Slot} → SameView t s → Ages s t
SameView-Ages e = record { later = omega (arith, e.generation); kept = λ _ used. e.state ∙ used }

-- A change of one slot.
pub Elsewhere-Ages :
    (r r' : Region) (i : ℕ) → Elsewhere r r' i → Ages (r.slots i) (r'.slots i) → AllAges r r'
Elsewhere-Ages r r' i others a j = elim (Bool-cases (j == i)) [
  | inl e ↦ let f = ==→eq j i e in rw f a
  | inr e ↦ SameView-Ages (others j (ground arith))
]

pub Writes-Ages : (r r' : Region) (i w : ℕ) → Writes r r' i w → AllAges r r'
Writes-Ages r r' i w c =
    Elsewhere-Ages r r' i c.others
      (record { later = omega (arith, c.generation); kept = λ _ used. c.state ∙ used })

-- A handle that has lost its slot does not get it back.
pub slot-stale :
    (r r' r'' : Region) (h : ℕ) {i : ℕ}
    → slot r h ≡ some i
    → AllAges r r'
    → slot r' h ≡ none
    → AllAges r' r''
    → slot r'' h ≡ none
slot-stale r r' r'' h {i} found first gone second =
    let (at, used, gen) = slot-some r h found in
    let a = first (index_of h) in
    let b = second (index_of h) in
    let used : (r.slots (index_of h)).state ≡ slot_used = rw at at used in
    let gen : (r.slots (index_of h)).generation ≡ generation_of h = rw at at gen in
    elim (Option-cases (slot r'' h)) [
      | inl e ↦ e
      | inr (j, e) ↦
          let (_, _, gen2) = slot-some r'' h e in
          let at2 = (slot-some r'' h e).0 in
          let gen3 : (r''.slots (index_of h)).generation ≡ generation_of h = rw at2 at gen2 in
          let same : (r'.slots (index_of h)).generation ≡ (r.slots (index_of h)).generation =
            omega (arith, a.later, b.later, gen, gen3) in
          let again = slot_found r' h (a.kept same used) (same ∙ gen) in
          absurd (ground (arith, again, gone))
    ]
