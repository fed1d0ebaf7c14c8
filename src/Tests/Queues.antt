-- ===== src/Tests/Queues.antt =====
-- The waiter lists of src/core.rs at concrete regions.
use ntsync_android.Base.{◌≡◌, refl, true, ◌∷◌, [], arith}
use ntsync_android.Word.{lo}
use ntsync_android.Region.{Region, ok, slot, type_event}
use ntsync_android.Object.State.{IsEvent}
use ntsync_android.Waiter.{node_alloc, node_register, wake_object}
use ntsync_android.Waiter.Seg.{Waiters}
use ntsync_android.Waiter.Wake.{Woke, wake_object-Woke}
use ntsync_android.Signal.{event_pulse}
use ntsync_android.Signal.Effect.{Names}
use ntsync_android.Signal.Pulse.{Pulsed, event_pulse-Pulsed}
use ntsync_android.Slot.{close}
use ntsync_android.Slot.Close.{Closed, close-Closed}
use ntsync_android.Tests.Data.{alone, furnished, linked_twice}

both-Waiters : Waiters linked_twice 1 (1 ∷ 0 ∷ [])
unfolding node_alloc node_register
both-Waiters = record { chain = ground arith; distinct = (refl, (refl, tt)) }

wake_object-Woke_example : Woke 1 (1 ∷ 0 ∷ []) linked_twice (wake_object linked_twice 1)
wake_object-Woke_example = wake_object-Woke 1 linked_twice (1 ∷ 0 ∷ []) (omega arith) both-Waiters

closes : close alone 1 linked_twice ≡ (true, (close alone 1 linked_twice).1)
unfolding close slot node_alloc node_register
closes = refl

close-Closed_example : Closed linked_twice (close alone 1 linked_twice).1 1 (1 ∷ 0 ∷ [])
close-Closed_example =
    close-Closed alone linked_twice 1 (1 ∷ 0 ∷ []) (omega arith) both-Waiters closes

-- An unsignaled event in slot 4 with the waiter 0.
abbrev awaited : Region
awaited = node_register (node_alloc 7 furnished).1 0 4 0

awaited-Waiters : Waiters awaited 4 (0 ∷ [])
unfolding node_alloc node_register
awaited-Waiters = record { chain = ground arith; distinct = (refl, tt) }

awaited-Names : Names alone awaited 4 type_event
unfolding slot node_alloc node_register
awaited-Names = record { opened = refl; found = refl; typed = refl }

awaited-IsEvent : IsEvent (awaited.slots 4).w0
unfolding node_alloc node_register
awaited-IsEvent = ground arith

uncounted : (awaited.slots 4).d ≡ 0
unfolding node_alloc node_register
uncounted = refl

event_pulse-Pulsed_example :
    ((event_pulse alone 4 awaited).0 ≡ ok (lo (awaited.slots 4).w0))
    × Pulsed alone awaited (event_pulse alone 4 awaited).1 4 (0 ∷ [])
event_pulse-Pulsed_example =
    event_pulse-Pulsed alone awaited 4 (0 ∷ []) awaited-Names refl tt awaited-IsEvent
      (omega (arith, uncounted)) (omega arith) awaited-Waiters
