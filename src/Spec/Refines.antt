-- ===== src/Spec/Refines.antt =====
-- Every call of src/core.rs on the object of a handle (lines 869-1087) against the table, and calls in
-- sequence.
use ntsync_android.Base.{ℕ, ◌+◌, ◌<◌, ◌^◌}
use ntsync_android.Region.{Region, Env}
use ntsync_android.Spec.{
  ObjectCall, releases, unlocks, kills, sets, resets, pulses, reads_sem, reads_mutex, reads_event,
  retains, lets_go, closes, call_spec, at_handle,
}
use ntsync_android.Spec.View.{view}
use ntsync_android.Spec.Changes.{IsSound}
use ntsync_android.Spec.Calls.{serve_call, IsQuiet, Agrees}
use ntsync_android.Spec.Signals.{
  releases-Serves, sets-Serves, resets-Serves, unlocks-Serves, kills-Serves,
}
use ntsync_android.Spec.Reads.{reads_sem-Serves, reads_mutex-Serves, reads_event-Serves}
use ntsync_android.Spec.Handles.{retains-Serves, lets_go-Serves}
use ntsync_android.Spec.Closes.{closes-Serves}
use ntsync_android.Spec.Pulses.{pulses-Serves}

module _ (env : Env) (quiet : IsQuiet env) (n : ℕ) (r : Region) (v : IsSound n r)
    (young : n + 1 < 2 ^ 32) (h : ℕ) where
  pub serve_call-Agrees :
      (c : ObjectCall)
      → Agrees n r
          (serve_call env h c r).0
          (serve_call env h c r).1
          (at_handle (view r) h (call_spec c))
  serve_call-Agrees (releases count) = releases-Serves env quiet n r v h count
  serve_call-Agrees (unlocks owner) = unlocks-Serves env quiet n r v h owner
  serve_call-Agrees (kills owner) = kills-Serves env quiet n r v h owner
  serve_call-Agrees sets = sets-Serves env quiet n r v h
  serve_call-Agrees resets = resets-Serves env quiet n r v h
  serve_call-Agrees pulses = pulses-Serves env quiet n r v h
  serve_call-Agrees reads_sem = reads_sem-Serves env quiet n r v h
  serve_call-Agrees reads_mutex = reads_mutex-Serves env quiet n r v h
  serve_call-Agrees reads_event = reads_event-Serves env quiet n r v h
  serve_call-Agrees retains = retains-Serves env quiet n r v h
  serve_call-Agrees lets_go = lets_go-Serves env quiet n r v h
  serve_call-Agrees closes = closes-Serves env quiet n r v h young
