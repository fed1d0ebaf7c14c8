-- ===== src/Open/Paths.antt =====
-- `open_and_map` of src/core.rs (lines 610-626): the name of the region file, with the layout's version in it.
use ntsync_android.Base.{
  append_cancel_right, ℕ, ◌≡◌, ◌≢◌, refl, sym, ◌∙◌, ap, true, false, none, some, [], ◌∷◌, ◌++◌,
  arith, ◌==◌, Option-cases, Bool-cases, inl, inr, ==→eq,
}
use ntsync_android.Open.{Text, codes, eq_text, rsplit_once, versioned}

eq_text-eq : (s t : Text) → eq_text s t ≡ true → s ≡ t
eq_text-eq [] [] e = refl
eq_text-eq [] (d ∷ t) e = cc
eq_text-eq (c ∷ s) [] e = cc
eq_text-eq (c ∷ s) (d ∷ t) e =
    let rest = eq_text-eq s t (ground (arith, e)) in
    let first : c ≡ d = ground (arith, e) in rw (first, rest) refl

rsplit_once-some :
    (path : Text) {stem ext : Text} → rsplit_once path ≡ some (stem, ext) → path ≡ stem ++ 46 ∷ ext
unfolding rsplit_once
rsplit_once-some [] e = cc
rsplit_once-some (c ∷ s) {stem} {ext} e = elim (Option-cases (rsplit_once s)) [
  | inr ((a, b), f) ↦
      let k = rsplit_once-some s f in
      let x : stem ≡ c ∷ a = cc in let y : ext ≡ b = cc in rw (x, y) (ap (λ (t : Text). c ∷ t) k)
  | inl f ↦ elim (Bool-cases (c == 46)) [
    | inl dot ↦
        let x : stem ≡ [] = cc in
        let y : ext ≡ s = cc in let z = ==→eq c 46 dot in rw (x, y, z) refl
    | inr other ↦ absurd cc
  ]
]

-- The last code point, `d` being the one before.
abbrev last_or : ℕ → Text → ℕ
last_or d [] = d
last_or d (c ∷ s) = last_or c s

last_or-append : (d : ℕ) (s : Text) (c : ℕ) (t : Text) → last_or d (s ++ c ∷ t) ≡ last_or c t
last_or-append d [] c t = refl
last_or-append d (b ∷ s) c t = last_or-append b s c t

abbrev shm_end : Text
shm_end = codes ".v10.shm"

abbrev other_end : Text
other_end = codes ".v10"

-- What the versioned name is, and whose name it is.
pub data Named (path named : Text) : Type 0 where
  of_shm : (stem : Text) → path ≡ stem ++ codes ".shm" → named ≡ stem ++ shm_end → Named path named
  of_other :
      ((stem : Text) → path ≢ stem ++ codes ".shm") → named ≡ path ++ other_end → Named path named

-- A path that ends in `.shm` is split there.
rsplit_once-shm : (stem : Text) → rsplit_once (stem ++ codes ".shm") ≡ some (stem, codes "shm")
unfolding rsplit_once
rsplit_once-shm [] = refl
rsplit_once-shm (c ∷ s) = rw (rsplit_once-shm s) refl

split_at_shm :
    (path stem stem' ext : Text)
    → path ≡ stem ++ codes ".shm"
    → rsplit_once path ≡ some (stem', ext)
    → ext ≡ codes "shm"
split_at_shm path stem stem' ext same e =
    let f : rsplit_once (stem ++ codes ".shm") ≡ some (stem', ext) = rw same at e in
    let g = rsplit_once-shm stem in cc

versioned-Named : (path : Text) → Named path (versioned path)
unfolding versioned
versioned-Named path = elim (Option-cases (rsplit_once path)) [
  | inl e ↦
      of_other
        (λ stem same.
          let f : rsplit_once (stem ++ codes ".shm") ≡ none = rw same at e in
          let g = rsplit_once-shm stem in absurd cc)
        (rw (e, versioned) refl)
  | inr ((stem, ext), e) ↦ elim (Bool-cases (eq_text ext (codes "shm"))) [
    | inr plain ↦
        of_other
          (λ s same.
            let f : eq_text (codes "shm") (codes "shm") ≡ false =
              rw (split_at_shm path s stem ext same e) at plain in
            absurd cc)
          (rw (e, plain, versioned) refl)
    | inl shm ↦
        let k = rsplit_once-some path e in
        let x = eq_text-eq ext (codes "shm") shm in
        of_shm stem (rw x at k) (rw (e, shm, versioned) refl)
  ]
]

-- The two endings end in different code points.
endings-ne : (s t : Text) → s ++ shm_end ≢ t ++ other_end
endings-ne s t e =
    let one : last_or 0 (s ++ shm_end) ≡ 109 = last_or-append 0 s 46 (codes "v10.shm") in
    let two : last_or 0 (t ++ other_end) ≡ 48 = last_or-append 0 t 46 (codes "v10") in
    let k : last_or 0 (s ++ shm_end) ≡ last_or 0 (t ++ other_end) = ap (last_or 0) e in
    absurd (omega (arith, one, two, k))

versioned-injective : (p q : Text) → versioned p ≡ versioned q → p ≡ q
versioned-injective p q e = elim (versioned-Named p) [
  | of_shm s a b ↦ elim (versioned-Named q) [
    | of_shm t c d ↦
        let same = append_cancel_right s t shm_end (sym b ∙ e ∙ d) in
        a ∙ ap (λ (x : Text). x ++ codes ".shm") same ∙ sym c
    | of_other z d ↦ absurd (endings-ne s q (sym b ∙ e ∙ d))
  ]
  | of_other z b ↦ elim (versioned-Named q) [
    | of_shm t c d ↦ absurd (endings-ne t p (sym (sym b ∙ e ∙ d)))
    | of_other z d ↦ append_cancel_right p q other_end (sym b ∙ e ∙ d)
  ]
]

-- The name of the region file carries the layout's version: a path that is a stem and `.shm` gives the
-- stem and `.v10.shm`, every other path gives itself and `.v10`. Two different paths get different names.
pub versioned-ne :
    (p q : Text)
    → p ≢ q
    → Named p (versioned p) × Named q (versioned q) × (versioned p ≢ versioned q)
versioned-ne p q ne = (versioned-Named p, versioned-Named q, λ e. ne (versioned-injective p q e))
