-- ===== src/Spec/Words.antt =====
-- The words of new objects (src/core.rs, lines 290-304 and 803-830) and what they stand for.
use ntsync_android.Base.{ℕ, ◌^◌, ◌≤◌, ◌<◌, ◌≡◌, refl, ◌∙◌, Bool, true, false, some, arith}
use ntsync_android.Word.{pack_sem, pack_mutex, pack_event}
use ntsync_android.Word.Fields.{
  lo-pack_sem, hi-pack_sem, lo-pack_mutex, mutex_count-pack_mutex, mutex_dead-pack_mutex,
}
use ntsync_android.Region.{Slot, type_sem, type_mutex, type_event}
use ntsync_android.Object.State.{IsSem, IsMutex, IsEvent}
use ntsync_android.Wait.Poll.{IsTyped}
use ntsync_android.Spec.{a_sem, a_mutex, an_event}
use ntsync_android.Spec.View.{object_of}
use ntsync_android.Spec.Kinds.{sem-reads, mutex-reads}

-- The words that the three calls make.
pack_sem-fits : (count max : ℕ) → count < 2 ^ 32 → max < 2 ^ 32 → pack_sem count max < 2 ^ 64
unfolding pack_sem
pack_sem-fits count max c m = omega arith

pack_mutex-fits : (owner count : ℕ) → owner < 2 ^ 32 → pack_mutex owner count false < 2 ^ 64
unfolding pack_mutex
pack_mutex-fits owner count h = omega arith

pub pack_sem-IsSem : (count max : ℕ) → count ≤ max → max < 2 ^ 32 → IsSem (pack_sem count max)
pack_sem-IsSem count max le fits = record {
  fits = pack_sem-fits count max (omega arith) fits;
  bounded = rw (lo-pack_sem count max (omega arith), hi-pack_sem count max (omega arith) fits) le;
}

pub pack_mutex-IsMutex :
    (owner count : ℕ)
    → owner < 2 ^ 32
    → count < 2 ^ 31
    → (owner ≡ 0 → count ≡ 0)
    → (count ≡ 0 → owner ≡ 0)
    → IsMutex (pack_mutex owner count false)
pack_mutex-IsMutex owner count ho hc a b =
    let x = lo-pack_mutex owner count false ho in
    let y = mutex_count-pack_mutex owner count false ho hc in
    let z = mutex_dead-pack_mutex owner count false ho in
    record {
      fits = pack_mutex-fits owner count ho;
      free = rw (x, y) a;
      held = rw (x, y) b;
      abandoned = λ e. ground arith;
    }

pub pack_event-IsEvent : (manual signaled : Bool) → IsEvent (pack_event signaled manual)
unfolding pack_event
pack_event-IsEvent true true = record {
  signal = omega arith;
  mode = omega arith;
  fits = omega arith;
}
pack_event-IsEvent true false = record {
  signal = omega arith;
  mode = omega arith;
  fits = omega arith;
}
pack_event-IsEvent false true = record {
  signal = omega arith;
  mode = omega arith;
  fits = omega arith;
}
pack_event-IsEvent false false = record {
  signal = omega arith;
  mode = omega arith;
  fits = omega arith;
}

-- A slot of each type that has a word of the type.
pub IsTyped-sem : (w : ℕ) → IsSem w → (s : Slot) → s.obj_type ≡ type_sem → s.w0 ≡ w → IsTyped s
IsTyped-sem w v s t e = record {
  sem = λ k. rw e v;
  mutex = λ k. ground arith;
  event = λ k. ground arith;
}

pub IsTyped-mutex :
    (w : ℕ) → IsMutex w → (s : Slot) → s.obj_type ≡ type_mutex → s.w0 ≡ w → IsTyped s
IsTyped-mutex w v s t e = record {
  sem = λ k. ground arith;
  mutex = λ k. rw e v;
  event = λ k. ground arith;
}

pub IsTyped-event :
    (w : ℕ) → IsEvent w → (s : Slot) → s.obj_type ≡ type_event → s.w0 ≡ w → IsTyped s
IsTyped-event w v s t e = record {
  sem = λ k. ground arith;
  mutex = λ k. ground arith;
  event = λ k. rw e v;
}

-- The objects that the words stand for.
pub pack_sem-reads :
    (count max : ℕ)
    → count < 2 ^ 32
    → max < 2 ^ 32
    → object_of type_sem (pack_sem count max) ≡ some (a_sem (record { count = count; max = max }))
pack_sem-reads count max c m =
    let x = lo-pack_sem count max c in
    let y = hi-pack_sem count max c m in sem-reads (pack_sem count max) ∙ (rw (x, y) refl)

pub pack_mutex-reads :
    (owner count : ℕ)
    → owner < 2 ^ 32
    → count < 2 ^ 31
    → object_of type_mutex (pack_mutex owner count false)
      ≡ some (a_mutex (record { owner = owner; count = count; abandoned = false }))
pack_mutex-reads owner count ho hc =
    let x = lo-pack_mutex owner count false ho in
    let y = mutex_count-pack_mutex owner count false ho hc in
    let z = mutex_dead-pack_mutex owner count false ho in
    mutex-reads (pack_mutex owner count false) ∙ (rw (x, y, z) refl)

pub pack_event-reads :
    (manual signaled : Bool)
    → object_of type_event (pack_event signaled manual)
      ≡ some (an_event (record { manual = manual; signaled = signaled }))
unfolding pack_event object_of
pack_event-reads true true = refl
pack_event-reads true false = refl
pack_event-reads false true = refl
pack_event-reads false false = refl
