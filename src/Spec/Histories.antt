-- ===== src/Spec/Histories.antt =====
-- The whole of src/core.rs's object table (lines 767-1087 and 2321-2329), from a new file on: every history of
-- requests answers as the table promises.
use ntsync_android.Base.{
  ℕ, suc, ◌+◌, ◌^◌, ◌<◌, ◌≡◌, ◌≢◌, refl, ◌==◌, none, some, List, [], ◌∷◌, length, arith, Bool-cases,
  Option-cases, ==→eq, inl, inr,
}
use ntsync_android.Region.{Region, Env, slot, init_region, index_of}
use ntsync_android.Spec.View.{view, view-none, slot_free_none}
use ntsync_android.Spec.Changes.{IsSound}
use ntsync_android.Spec.Ages.{IsNext, Ages-refl, Ages-trans, slot-stale}
use ntsync_android.Spec.Requests.{Request, serve, serve_all, AllQuiet, History, ended, step}
use ntsync_android.Spec.Known.{view_zero, view_known}
use ntsync_android.Spec.Serves.{serve-IsServed}

serve_all-History :
    (cs : List (Env × Request)) (n : ℕ) (r : Region)
    → IsSound n r
    → n + length cs < 2 ^ 18
    → AllQuiet cs
    → History (view r) cs (serve_all cs r).0 (view (serve_all cs r).1)
serve_all-History [] n r v lt q = ended (view r)
serve_all-History ((env, c) ∷ cs) n r v lt (quiet, fits, q) =
    let one = serve-IsServed env quiet n r v (omega (arith, lt)) c fits in
    let r1 = (serve env c r).1 in
    step (view r) (view r1) (view (serve_all cs r1).1) env c cs (serve env c r).0
      (serve_all cs r1).0 one.allowed
      (serve_all-History cs (n + 1) r1 one.sound (omega (arith, lt)) q)

-- The new file.
pub init-IsSound : IsSound 0 init_region
init-IsSound = record {
  typed =
      λ i. record { sem = λ k. ground arith; mutex = λ k. ground arith; event = λ k. ground arith };
  known = λ i ne used. ground arith;
  young = λ i. ground arith;
  settled = λ i. ground arith;
  reserved = refl;
  kernel = refl;
  unowned = refl;
}

init-empty : (k : ℕ) → view init_region k ≡ none
init-empty k = elim (Bool-cases (index_of k == 0)) [
  | inl e ↦ view_zero 0 init_region init-IsSound k (==→eq (index_of k) 0 e)
  | inr e ↦ view-none init_region k (slot_free_none init_region k (ground arith))
]

-- The slots after a sequence of requests.
pub serve_all-IsNext :
    (cs : List (Env × Request)) (n : ℕ) (r : Region)
    → IsSound n r
    → n + length cs < 2 ^ 18
    → AllQuiet cs
    → IsNext (n + length cs) r (serve_all cs r).1
serve_all-IsNext [] n r v lt q =
    let e : n + 0 ≡ n = omega arith in rw e (v, λ i. Ages-refl (r.slots i))
serve_all-IsNext ((env, c) ∷ cs) n r v lt (quiet, fits, q) =
    let one = serve-IsServed env quiet n r v (omega (arith, lt)) c fits in
    let (sound, ages) =
      serve_all-IsNext cs (n + 1) (serve env c r).1 one.sound (omega (arith, lt)) q in
    let e : n + 1 + length cs ≡ n + suc (length cs) = omega arith in
    (rw e at sound, λ i. Ages-trans (one.aged i) (ages i))

-- From a new file on, in any sequence of fewer than 2 ^ 18 requests (creations, signals, reads, retains,
-- releases, closes, sweeps, and whole waits with no time to wait and without an alert) by processes that
-- meet no error, lock or otherwise, and no other thread, with arguments that fit a `u32`: every request
-- answers, and changes the table of objects by handle, as the table promises, the table being empty at first. A wait with a
-- handle that names no object is answered as invalid.
pub init-History :
    (cs : List (Env × Request))
    → length cs < 2 ^ 18
    → AllQuiet cs
    → ((k : ℕ) → view init_region k ≡ none)
      × History
          (view init_region)
          cs
          (serve_all cs init_region).0
          (view (serve_all cs init_region).1)
init-History cs lt q =
    (init-empty, serve_all-History cs 0 init_region init-IsSound (omega (arith, lt)) q)

view-slot :
    (n : ℕ) (r : Region) (h : ℕ) → IsSound n r → view r h ≢ none → (i : ℕ) × (slot r h ≡ some i)
view-slot n r h v ne = elim (Option-cases (slot r h)) [
  | inl e ↦ absurd (ne (view-none r h e))
  | inr found ↦ found
]

-- A handle that names no object names no slot, or slot 0.
view-none-slot :
    (n : ℕ) (r : Region) (h : ℕ) → IsSound n r → view r h ≡ none → index_of h ≢ 0 → slot r h ≡ none
view-none-slot n r h v e ne = elim (Option-cases (slot r h)) [
  | inl f ↦ f
  | inr (i, f) ↦ let (o, seen) = view_known n r v h i f ne in absurd (ground arith)
]

abbrev pub after : List (Env × Request) → Region → Region
after cs r = (serve_all cs r).1

-- From a new file on, in fewer than 2 ^ 18 requests in sequence, by processes that meet no error and no other
-- thread, with arguments that fit a `u32`: a handle that named an object after the first requests `cs`, and names
-- none after the next ones `ds`, names none after any later ones `es` either, so that it is never given to
-- another object.
pub serve_all-stale :
    (cs ds es : List (Env × Request)) (h : ℕ)
    → length cs + (length ds + length es) < 2 ^ 18
    → AllQuiet cs
    → AllQuiet ds
    → AllQuiet es
    → view (after cs init_region) h ≢ none
    → view (after ds (after cs init_region)) h ≡ none
    → view (after es (after ds (after cs init_region))) h ≡ none
serve_all-stale cs ds es h lt qc qd qe named gone =
    let n = length cs in
    let m = n + length ds in
    let (s, _) = serve_all-IsNext cs 0 init_region init-IsSound (omega (arith, lt)) qc in
    let r = after cs init_region in
    let v : IsSound n r = let e : 0 + n ≡ n = omega arith in rw e at s in
    let (v', first) = serve_all-IsNext ds n r v (omega (arith, lt)) qd in
    let r' = after ds r in
    let (_, second) = serve_all-IsNext es m r' v' (omega (arith, lt)) qe in
    let (_, found) = view-slot n r h v named in
    let ne : index_of h ≢ 0 = λ z. named (view_zero n r v h z) in
    let lost = view-none-slot m r' h v' gone ne in
    let r'' = after es r' in view-none r'' h (slot-stale r r' r'' h found first lost second)
