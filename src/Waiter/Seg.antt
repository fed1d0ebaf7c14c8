-- ===== src/Waiter/Seg.antt =====
-- Segments of an object's waiter list (`WaitNode::obj_prev`, `obj_next` of src/core.rs).
use ntsync_android.Base.{
  ℕ, ◌≡◌, ◌≢◌, refl, sym, true, false, ◌||◌, ◌==◌, List, [], ◌∷◌, ◌++◌, contains, arith,
  if◌then◌else◌,
}
use ntsync_android.Region.{WaitNode, Region, nil}

-- A node that is linked behind `prev` on the list of `obj`.
pub record Linked (n : WaitNode) (obj prev : ℕ) : Type 0 where
  pub registered : n.registered ≡ 1
  pub on : n.obj ≡ obj
  pub behind : n.obj_prev ≡ prev

-- Two contents of a node with the same place in the lists.
pub record SameLinks (n m : WaitNode) : Type 0 where
  pub registered : n.registered ≡ m.registered
  pub obj : n.obj ≡ m.obj
  pub obj_prev : n.obj_prev ≡ m.obj_prev
  pub obj_next : n.obj_next ≡ m.obj_next

pub SameLinks-of_eq : {n m : WaitNode} → n ≡ m → SameLinks n m
SameLinks-of_eq e = ground arith

-- From `p` the nodes `xs` follow one another on the list of `obj` up to `q`, the first behind `prev`.
abbrev pub Seg : (ℕ → WaitNode) → (obj prev p : ℕ) → List ℕ → (q : ℕ) → Type 0
Seg N obj prev p [] q = p ≡ q
Seg N obj prev p (x ∷ xs) q =
    (p ≡ x) × (x ≢ nil) × Linked (N x) obj prev × Seg N obj x (N x).obj_next xs q

abbrev pub Distinct : List ℕ → Type 0
Distinct [] = Unit
Distinct (x ∷ xs) = (contains xs x ≡ false) × Distinct xs

abbrev pub last_or : ℕ → List ℕ → ℕ
last_or prev [] = prev
last_or prev (x ∷ xs) = last_or x xs

-- Where a segment starts when its end `b` is all that may be left.
abbrev pub entry : (b p : ℕ) → List ℕ → ℕ
entry b p [] = b
entry b p (x ∷ xs) = p

-- The waiters of an object: its list runs from `waiter_head` to `NIL`.
pub record Waiters (r : Region) (obj : ℕ) (xs : List ℕ) : Type 0 where
  pub chain : Seg r.nodes obj nil (r.slots obj).waiter_head xs nil
  pub distinct : Distinct xs

pub contains-append :
    (xs ys : List ℕ) (a : ℕ) → contains (xs ++ ys) a ≡ (contains xs a || contains ys a)
contains-append [] ys a = refl
contains-append (x ∷ xs) ys a = ground (arith, contains-append xs ys a)

pub contains-last_or : (y : ℕ) (xs : List ℕ) → contains (y ∷ xs) (last_or y xs) ≡ true
contains-last_or y [] = ground arith
contains-last_or y (x ∷ xs) = ground (arith, contains-last_or x xs)

pub Distinct-append_left : (xs ys : List ℕ) → Distinct (xs ++ ys) → Distinct xs
Distinct-append_left [] ys d = tt
Distinct-append_left (x ∷ xs) ys d =
    (ground (arith, contains-append xs ys x), Distinct-append_left xs ys d.1)

pub Distinct-append_right : (xs ys : List ℕ) → Distinct (xs ++ ys) → Distinct ys
Distinct-append_right [] ys d = d
Distinct-append_right (x ∷ xs) ys d = Distinct-append_right xs ys d.1

pub Distinct-apart :
    (xs ys : List ℕ) (a : ℕ) → Distinct (xs ++ ys) → contains xs a ≡ true → contains ys a ≡ false
Distinct-apart [] ys a d c = cc
Distinct-apart (x ∷ xs) ys a d c =
    ground (arith, contains-append xs ys x, Distinct-apart xs ys a d.1)

pub Distinct-remove : (xs ys : List ℕ) (a : ℕ) → Distinct (xs ++ a ∷ ys) → Distinct (xs ++ ys)
Distinct-remove [] ys a d = d.1
Distinct-remove (x ∷ xs) ys a d = (
  ground (arith, contains-append xs ys x, contains-append xs (a ∷ ys) x),
  Distinct-remove xs ys a d.1,
)

-- What is proved of a list is proved at each of its nodes: the last argument of each lemma here is a
-- fact about the nodes of `xs` only.
module _ (obj : ℕ) where
  pub Seg-obj :
      (N : ℕ → WaitNode) (prev p q : ℕ) (xs : List ℕ) (x : ℕ)
      → Seg N obj prev p xs q
      → contains xs x ≡ true
      → ((N x).obj ≡ obj) × ((N x).registered ≡ 1) × (x ≢ nil)
  Seg-obj N prev p q [] x s c = cc
  Seg-obj N prev p q (y ∷ xs) x s c = ground (arith, Seg-obj N y (N y).obj_next q xs x s.3)

  pub Seg-frame :
      (N M : ℕ → WaitNode) (prev p q : ℕ) (xs : List ℕ)
      → Seg N obj prev p xs q
      → ((x : ℕ) → contains xs x ≡ true → SameLinks (M x) (N x))
      → Seg M obj prev p xs q
  Seg-frame N M prev p q [] s same = s
  Seg-frame N M prev p q (x ∷ xs) s same =
      let e = same x (ground arith) in
      let s' = Seg-frame N M x (N x).obj_next q xs s.3 (λ y c. same y (ground arith)) in
      (s.0, s.1, ground arith, rw e.obj_next s')

  pub Seg-split :
      (N : ℕ → WaitNode) (prev p q : ℕ) (xs ys : List ℕ)
      → Seg N obj prev p (xs ++ ys) q
      → (m : ℕ) × Seg N obj prev p xs m × Seg N obj (last_or prev xs) m ys q
  Seg-split N prev p q [] ys s = (p, refl, s)
  Seg-split N prev p q (x ∷ xs) ys s =
      let (m, a, b) = Seg-split N x (N x).obj_next q xs ys s.3 in (m, (s.0, s.1, s.2, a), b)

  pub Seg-join :
      (N : ℕ → WaitNode) (prev p m q : ℕ) (xs ys : List ℕ)
      → Seg N obj prev p xs m
      → Seg N obj (last_or prev xs) m ys q
      → Seg N obj prev p (xs ++ ys) q
  Seg-join N prev p m q [] ys a b = rw a b
  Seg-join N prev p m q (x ∷ xs) ys a b =
      (a.0, a.1, a.2, Seg-join N x (N x).obj_next m q xs ys a.3 b)

  -- Only the first node's backward link changes.
  pub Seg-set_prev :
      (N M : ℕ → WaitNode) (a b p q : ℕ) (xs : List ℕ)
      → Seg N obj a p xs q
      → Distinct xs
      → ((x : ℕ)
          → contains xs x ≡ true
          → (x ≡ p → Linked (M x) obj b) × (x ≢ p → M x ≡ N x) × ((M x).obj_next ≡ (N x).obj_next))
      → Seg M obj b p xs q
  Seg-set_prev N M a b p q [] s d h = s
  Seg-set_prev N M a b p q (x ∷ xs) s d h =
      let (linked, other, next) = h x (ground arith) in
      (
        s.0,
        s.1,
        linked (sym s.0),
        rw next (
            Seg-frame N M x (N x).obj_next q xs s.3
              (λ y c. SameLinks-of_eq ((h y (ground arith)).1 (ground arith)))),
      )

  -- Only the last node's forward link changes.
  pub Seg-set_next :
      (N M : ℕ → WaitNode) (prev p q b : ℕ) (xs : List ℕ)
      → Seg N obj prev p xs q
      → Distinct xs
      → ((x : ℕ)
          → contains xs x ≡ true
          → ((M x).registered ≡ (N x).registered)
            × ((M x).obj ≡ (N x).obj)
            × ((M x).obj_prev ≡ (N x).obj_prev)
            × ((M x).obj_next ≡ (if last_or prev xs == x then b else (N x).obj_next)))
      → Seg M obj prev (entry b p xs) xs b
  Seg-set_next N M prev p q b [] s d h = refl
  Seg-set_next N M prev p q b (x ∷ []) s d h =
      let at = h x (ground arith) in (s.0, s.1, ground arith, ground arith)
  Seg-set_next N M prev p q b (x ∷ y ∷ xs) s d h =
      let at = h x (ground arith) in
      let rest =
        Seg-set_next N M x (N x).obj_next q b (y ∷ xs) s.3 d.1 (λ z c. h z (ground arith)) in
      let last : (last_or y xs == x) ≡ false = ground (arith, contains-last_or y xs) in
      let e : (M x).obj_next ≡ (N x).obj_next = ground arith in (s.0, s.1, ground arith, rw e rest)
