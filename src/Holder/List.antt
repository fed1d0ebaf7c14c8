-- ===== src/Holder/List.antt =====
-- The holders of a slot as a list (src/core.rs, lines 832-868): what `holder_add` and `holder_remove`
-- do to it.
use ntsync_android.Base.{
  ℕ, zero, suc, ◌+◌, ◌%◌, ◌^◌, ◌≤◌, ◌<◌, ◌≡◌, refl, ap, ◌∙◌, none, some, List, [], ◌∷◌, ◌++◌, Bool,
  true, false, arith, ◌==◌, if◌then◌else◌, update, contains, Option-cases, Bool-cases, inl, inr,
}
use ntsync_android.Region.{Slot, max_holders, holder_overflow}
use ntsync_android.Holder.{cap_of, overflow_bit, holder_index, holder_add}

-- The `left` cells from the `i`-th on, and the recorded holders.
abbrev pub cells : (left i : ℕ) → (ℕ → ℕ) → List ℕ
cells zero i f = []
cells (suc left) i f = f i ∷ cells left (i + 1) f

abbrev pub holders_of : Slot → List ℕ
holders_of s = cells (cap_of s.holders_len) 0 s.holders

abbrev pub is_spilled : Slot → Bool
is_spilled s = if overflow_bit s.holders_len == 0 then false else true

-- The search finds the first cell with the pid.
pub holder_index-some :
    (left i : ℕ) (f : ℕ → ℕ) (pid : ℕ) {j : ℕ}
    → holder_index left i f pid ≡ some j
    → (f j ≡ pid) × (i ≤ j) × (j < i + left)
unfolding holder_index
holder_index-some zero i f pid e = cc
holder_index-some (suc left) i f pid e = elim (Bool-cases (f i == pid)) [
  | inl hit ↦ (ground arith, ground arith, ground arith)
  | inr miss ↦
      let (a, b, c) = holder_index-some left (i + 1) f pid (rw miss at e) in
      (a, omega arith, omega arith)
]

holder_index-contains :
    (left i : ℕ) (f : ℕ → ℕ) (pid : ℕ)
    → contains (cells left i f) pid
      ≡ (elim (holder_index left i f pid) [ none ↦ false | some j ↦ true ])
unfolding holder_index
holder_index-contains zero i f pid = refl
holder_index-contains (suc left) i f pid = ground (arith, holder_index-contains left (i + 1) f pid)

cells_ext :
    (left i : ℕ) (f g : ℕ → ℕ)
    → ((j : ℕ) → i ≤ j → j < i + left → f j ≡ g j)
    → cells left i f ≡ cells left i g
cells_ext zero i f g h = refl
cells_ext (suc left) i f g h =
    let e = h i (omega arith) (omega arith) in
    rw (e, cells_ext left (i + 1) f g (λ j a b. h j (omega arith) (omega arith)))

-- One more cell.
cells-suc : (left i : ℕ) (f : ℕ → ℕ) → cells (suc left) i f ≡ cells left i f ++ f (i + left) ∷ []
cells-suc zero i f = let e : i + 0 ≡ i = omega arith in rw e
cells-suc (suc left) i f =
    let e : i + suc left ≡ i + 1 + left = omega arith in
    rw e (ap (λ (xs : List ℕ). f i ∷ xs) (cells-suc left (i + 1) f))

append_cell :
    (cap : ℕ) (f : ℕ → ℕ) (pid : ℕ)
    → cells (suc cap) 0 (update f cap pid) ≡ cells cap 0 f ++ pid ∷ []
append_cell cap f pid =
    let e : update f cap pid (0 + cap) ≡ pid = ground arith in
    cells-suc cap 0 (update f cap pid)
    ∙ (rw (e, cells_ext cap 0 (update f cap pid) f (λ j a b. ground arith)))

module _ (s : Slot) (pid : ℕ) where
  abbrev cap : ℕ
  cap = cap_of s.holders_len

  pub add_found : {j : ℕ} → holder_index cap 0 s.holders pid ≡ some j → holder_add s pid ≡ s
  unfolding holder_add
  add_found e = rw (e, holder_add)

  pub add_full :
      holder_index cap 0 s.holders pid ≡ none
      → (cap == max_holders) ≡ true
      → holder_add s pid ≡ record s { holders_len = s.holders_len % 2 ^ 31 + holder_overflow }
  unfolding holder_add
  add_full e full = rw (e, full, holder_add)

  pub add_room :
      holder_index cap 0 s.holders pid ≡ none
      → (cap == max_holders) ≡ false
      → holder_add s pid ≡ record s {
        holders = update s.holders cap pid;
        holders_len = (cap + 1) + overflow_bit s.holders_len;
      }
  unfolding holder_add
  add_room e room = rw (e, room, holder_add)

  -- `holder_add` puts a pid that is not recorded behind the others while there is room, and changes
  -- the recorded pids neither for one that is recorded nor when the list is full.
  pub holder_add-holders_of : holders_of (holder_add s pid) ≡ (
      if contains (holders_of s) pid
      then holders_of s
      else if cap_of s.holders_len == max_holders
      then holders_of s
      else holders_of s ++ pid ∷ [])
  holder_add-holders_of =
      let recorded = holder_index-contains cap 0 s.holders pid in
      elim (Option-cases (holder_index cap 0 s.holders pid)) [
        | inr (j, e) ↦
            let c : contains (holders_of s) pid ≡ true = ground arith in rw (add_found e, c)
        | inl e ↦
            let c : contains (holders_of s) pid ≡ false = ground arith in
            elim (Bool-cases (cap == max_holders)) [
              | inl full ↦
                  let k : cap_of (s.holders_len % 2 ^ 31 + holder_overflow) ≡ cap = omega arith in
                  rw (add_full e full, c, full, k)
              | inr room ↦
                  let l : cap_of (cap + 1 + overflow_bit s.holders_len) ≡ suc cap = ground arith in
                  rw (add_room e room, c, room, l) (append_cell cap s.holders pid)
            ]
      ]

  -- A list that has spilled stays so.
  pub holder_add-is_spilled :
      (contains (holders_of s) pid ≡ false
        → (cap == max_holders) ≡ true
        → is_spilled (holder_add s pid) ≡ true)
      × (is_spilled s ≡ true → is_spilled (holder_add s pid) ≡ true)
  unfolding holder_add
  holder_add-is_spilled =
      let recorded = holder_index-contains cap 0 s.holders pid in
      (λ a b. ground arith, λ a. ground arith)
