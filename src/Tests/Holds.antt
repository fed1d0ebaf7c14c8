-- ===== src/Tests/Holds.antt =====
-- An object whose creator, the process 7, is dead, and that the process 8 has retained.
use ntsync_android.Base.{ℕ, ◌≡◌, ◌==◌, refl, arith, Bool, some, List, [], ◌∷◌}
use ntsync_android.Region.{Region, Env, ok, slot}
use ntsync_android.Holder.{holder_add, holder_index}
use ntsync_android.Sweep.{sweep_dead_locked}
use ntsync_android.Slot.{retain}
use ntsync_android.Spec.View.{view}
use ntsync_android.Spec.Retained.{Holding, retained_by, released_by, serve_holds, retain-survives}
use ntsync_android.Tests.Data.{alone, furnished}

abbrev heir : Env
heir = record alone { pid = 8 }

abbrev heirs : Region
heirs = (retain heir 1 furnished).1

abbrev passing : List Holding
passing =
    retained_by (record alone { pid = 9 })
    ∷ released_by alone
    ∷ released_by (record alone { pid = 9 })
    ∷ []

abbrev only_heir : ℕ → Bool
only_heir pid = pid == 8

retained : retain heir 1 furnished ≡ (ok tt, heirs)
unfolding retain slot holder_add holder_index
retained = refl

retain-survives_example :
    (slot (sweep_dead_locked only_heir (serve_holds 1 passing heirs)).0 1 ≡ some 1)
    × (view (sweep_dead_locked only_heir (serve_holds 1 passing heirs)).0 1 ≡ view furnished 1)
retain-survives_example =
    retain-survives heir 1 furnished passing only_heir retained (λ e. ground (arith, e)) refl
      ((λ e. ground (arith, e)), ((λ e. ground (arith, e)), ((λ e. ground (arith, e)), tt)))
