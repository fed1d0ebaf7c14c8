-- ===== src/Tests/Tables.antt =====
-- Histories of requests on a new file: semaphores are made, released, read and closed.
use ntsync_android.Base.{true, false, ◌<◌, ◌^◌, ℕ, ◌≡◌, refl, arith, none, some, List, [], ◌∷◌}
use ntsync_android.Word.{pack_sem}
use ntsync_android.Cas.{cas_loop}
use ntsync_android.Holder.{holder_remove, holder_index}
use ntsync_android.Region.{signaled, WaitOutcome, slot, Env, Error, ok, err, init_region}
use ntsync_android.Signal.{sem_release, read_sem, signal}
use ntsync_android.Waiter.{wake_waiters_if_any, wake_object, waiter_cleanup}
use ntsync_android.Object.{sem_release_round}
use ntsync_android.Slot.{
  alloc_slot, alloc_loop, alloc_slot_or_sweep, slot_publish, create, create_semaphore, close,
  close_slot,
}
use ntsync_android.Spec.{waited, nothing, number, contents, a_sem, releases, reads_sem, closes}
use ntsync_android.Spec.View.{view, object_of}
use ntsync_android.Spec.Calls.{IsQuiet}
use ntsync_android.Spec.Requests.{
  Request, on, creates_sem, polls, serve_all, AllQuiet, History, Locks,
}
use ntsync_android.Spec.Histories.{
  after, init-History, serve_all-stale, init-IsSound, serve_all-IsNext,
}
use ntsync_android.Wait.{
  wait_entry, has_duplicate, fast_path, fast_targets, fast_target, alert_valid, alert_signaled,
}
use ntsync_android.Satisfy.{try_satisfy, acquire_at}
use ntsync_android.Object.{try_acquire, acquire_sem_round}
use ntsync_android.Spec.Changes.{IsSound}
use ntsync_android.Spec.Polls.{poll_spec}
use ntsync_android.Spec.Attempts.{Attempted}
use ntsync_android.Spec.Polled.{wait_entry-Attempted}
use ntsync_android.Block.{locked_cycle, revalidate, revalidate_one}
use ntsync_android.Block.Asleep.{ends, turn, wait_loop}
use ntsync_android.Block.Whole.{Meets, wait}
use ntsync_android.Tests.Data.{alone}
use ntsync_android.Tests.Polls.{nobody, thread, early}

alone-IsQuiet : IsQuiet alone
alone-IsQuiet = record { opened = refl; locked = refl; alone = refl }

abbrev one_turn : Meets
one_turn = record nobody { turns = early ∷ [] }

abbrev made : List (Env × Request)
made = (alone, creates_sem 2 5) ∷ []

abbrev closed : List (Env × Request)
closed = (alone, on 1 closes) ∷ []

abbrev worked_and_closed : List (Env × Request)
worked_and_closed =
    (alone, on 1 (releases 3))
    ∷ (alone, polls false 9 (1 ∷ []) one_turn thread)
    ∷ (alone, polls false 9 (0xDEADBEEF ∷ []) one_turn thread)
    ∷ (alone, on 1 reads_sem)
    ∷ (alone, on 1 closes)
    ∷ (alone, on 1 reads_sem)
    ∷ []

abbrev run : List (Env × Request)
run = (alone, creates_sem 2 5) ∷ worked_and_closed

closed_quiet : AllQuiet closed
closed_quiet = (alone-IsQuiet, tt, tt)

made_quiet : (cs : List (Env × Request)) → AllQuiet cs → AllQuiet ((alone, creates_sem 2 5) ∷ cs)
made_quiet cs q = (alone-IsQuiet, (omega arith, omega arith), q)

-- The turn that a poll may take meets nobody and gets the lock.
polled_quiet : (9 < 2 ^ 32) × (one_turn.at_entry ≡ []) × Locks one_turn
polled_quiet = (omega arith, refl, (early, [], refl, refl))

run_quiet : AllQuiet run
run_quiet =
    let q = alone-IsQuiet in
    made_quiet worked_and_closed
      (q, tt, (q, polled_quiet, (q, polled_quiet, (q, tt, (q, tt, (q, tt, tt))))))

run_answers :
    (serve_all run init_region).0
    ≡ ok (number 1)
      ∷ ok (number 2)
      ∷ ok (waited (ends (signaled 0 false)))
      ∷ ok (waited (ends WaitOutcome.invalid))
      ∷ ok (contents (a_sem (record { count = 4; max = 5 })))
      ∷ ok nothing
      ∷ err Error.invalid
      ∷ []
unfolding create_semaphore create alloc_slot_or_sweep alloc_slot alloc_loop slot_publish sem_release
    read_sem close slot signal cas_loop sem_release_round pack_sem wake_waiters_if_any close_slot
    wake_object holder_remove holder_index wait_entry has_duplicate fast_path fast_targets
    fast_target alert_valid alert_signaled try_satisfy acquire_at try_acquire acquire_sem_round wait
    wait_loop turn locked_cycle revalidate revalidate_one waiter_cleanup
run_answers = refl

init-History_example :
    ((k : ℕ) → view init_region k ≡ none)
    × History
        (view init_region)
        run
        (serve_all run init_region).0
        (view (serve_all run init_region).1)
init-History_example = init-History run (omega arith) run_quiet

there : view (after made init_region) 1 ≡ some (a_sem (record { count = 2; max = 5 }))
unfolding create_semaphore create alloc_slot_or_sweep alloc_slot alloc_loop slot_publish sem_release
    read_sem close slot signal cas_loop sem_release_round pack_sem wake_waiters_if_any close_slot
    wake_object holder_remove holder_index view object_of
there = refl

gone : view (after closed (after made init_region)) 1 ≡ none
unfolding create_semaphore create alloc_slot_or_sweep alloc_slot alloc_loop slot_publish sem_release
    read_sem close slot signal cas_loop sem_release_round pack_sem wake_waiters_if_any close_slot
    wake_object holder_remove holder_index view object_of
gone = refl

serve_all-stale_example : view (after made (after closed (after made init_region))) 1 ≡ none
serve_all-stale_example =
    serve_all-stale made closed made 1 (omega arith) (made_quiet [] tt) closed_quiet
      (made_quiet [] tt) (λ e. ground (arith, e, there)) gone

made-IsSound : IsSound 1 (after made init_region)
made-IsSound = (serve_all-IsNext made 0 init_region init-IsSound (omega arith) (made_quiet [] tt)).0

wait_entry-Attempted_example :
    Attempted 1
      (after made init_region)
      (wait_entry [] alone (after made init_region) (1 ∷ []) 9 true true 0)
      (poll_spec true 9 (1 ∷ []) (view (after made init_region)))
wait_entry-Attempted_example =
    wait_entry-Attempted alone alone-IsQuiet 1 (after made init_region) made-IsSound true 9
      (omega arith) (1 ∷ [])
