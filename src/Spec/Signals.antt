-- ===== src/Spec/Signals.antt =====
-- The signal operations of src/core.rs (lines 924-1062) do to the table what the kernel's operations do.
use ntsync_android.Base.{ℕ, refl, arith, ◌==◌, Bool-cases, inl, inr}
use ntsync_android.Region.{Region, Env}
use ntsync_android.Object.{
  sem_release_round, event_set_round, event_reset_round, mutex_unlock_round, mutex_kill_round,
}
use ntsync_android.Object.State.{release_spec, set_spec, reset_spec, unlock_spec, kill_spec}
use ntsync_android.Object.Refines.{
  sem_release_round-Implements, event_set_round-Implements, event_reset_round-Implements,
  mutex_unlock_round-Implements, mutex_kill_round-Implements,
}
use ntsync_android.Signal.{sem_release, event_set, event_reset, mutex_unlock, mutex_kill}
use ntsync_android.Spec.{
  refused, number, nothing, releases, unlocks, kills, sets, resets, call_spec,
}
use ntsync_android.Spec.Changes.{IsSound}
use ntsync_android.Spec.Calls.{IsQuiet, Serves}
use ntsync_android.Spec.Kinds.{sem_kind, mutex_kind, event_kind}
use ntsync_android.Spec.Agree.{refused-Agrees, call-Agrees}

module _ (env : Env) (quiet : IsQuiet env) (n : ℕ) (r : Region) (v : IsSound n r) (h : ℕ) where
  pub releases-Serves : (count : ℕ) → Serves env n r h (releases count)
  unfolding sem_release call_spec
  releases-Serves count =
      call-Agrees env quiet n r v h sem_kind (sem_release_round count) (release_spec count) number
        (sem_release_round-Implements count)

  pub sets-Serves : Serves env n r h sets
  unfolding event_set call_spec
  sets-Serves =
      call-Agrees env quiet n r v h event_kind event_set_round set_spec number
        event_set_round-Implements

  pub resets-Serves : Serves env n r h resets
  unfolding event_reset call_spec
  resets-Serves =
      call-Agrees env quiet n r v h event_kind event_reset_round reset_spec number
        event_reset_round-Implements

  pub unlocks-Serves : (owner : ℕ) → Serves env n r h (unlocks owner)
  unfolding mutex_unlock call_spec
  unlocks-Serves owner = elim (Bool-cases (owner == 0)) [
    | inl e ↦ rw e (refused-Agrees env quiet n r v h refused (λ o seen. refl))
    | inr e ↦ rw e (
        call-Agrees env quiet n r v h mutex_kind (mutex_unlock_round owner) (unlock_spec owner)
          number (mutex_unlock_round-Implements owner (ground arith)))
  ]

  pub kills-Serves : (owner : ℕ) → Serves env n r h (kills owner)
  unfolding mutex_kill call_spec
  kills-Serves owner = elim (Bool-cases (owner == 0)) [
    | inl e ↦ rw e (refused-Agrees env quiet n r v h refused (λ o seen. refl))
    | inr e ↦ rw e (
        call-Agrees env quiet n r v h mutex_kind (mutex_kill_round owner) (kill_spec owner)
          (λ _. nothing) (mutex_kill_round-Implements owner (ground arith)))
  ]
