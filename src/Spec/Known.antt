-- ===== src/Spec/Known.antt =====
-- Which handles of a sound region have objects: `Region::slot` of src/core.rs (lines 336-349) and the table.
use ntsync_android.Base.{ℕ, ◌≡◌, ◌≢◌, refl, ◌∙◌, none, some, arith, Option-cases, inl, inr}
use ntsync_android.Region.{Region, slot, index_of}
use ntsync_android.Region.Handle.{slot-some}
use ntsync_android.Spec.{Object}
use ntsync_android.Spec.View.{object_of, view, view-some, view-none}
use ntsync_android.Spec.Changes.{IsSound}

module _ (n : ℕ) (r : Region) (v : IsSound n r) (h : ℕ) where
  -- Slot 0 has no object.
  pub view_zero : index_of h ≡ 0 → view r h ≡ none
  unfolding object_of
  view_zero e = elim (Option-cases (slot r h)) [
    | inl f ↦ view-none r h f
    | inr (i, f) ↦
        let (at, _, _) = slot-some r h f in
        let zeroth : i ≡ 0 = at ∙ e in view-some r h f ∙ (rw (zeroth, v.kernel) refl)
  ]

  -- Every other handle that is found has one.
  pub view_known : (i : ℕ) → slot r h ≡ some i → index_of h ≢ 0 → (o : Object) × (view r h ≡ some o)
  unfolding object_of
  view_known i f ne =
      let (at, used, _) = slot-some r h f in
      let known = v.known i (ground (arith, at)) used in
      elim (Option-cases (object_of (r.slots i).obj_type (r.slots i).w0)) [
        | inl e ↦ absurd (ground arith)
        | inr (o, e) ↦ (o, view-some r h f ∙ e)
      ]
