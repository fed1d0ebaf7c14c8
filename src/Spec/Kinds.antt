-- ===== src/Spec/Kinds.antt =====
-- The three types of objects: the words of each (src/core.rs, lines 290-304) and the objects that they stand for.
use ntsync_android.Base.{ℕ, ◌≡◌, ◌≢◌, refl, some, arith}
use ntsync_android.Region.{Slot, type_sem, type_mutex, type_event}
use ntsync_android.Object.State.{IsSem, IsMutex, IsEvent, sem_of, mutex_of, event_of}
use ntsync_android.Object.State.{Sem, Mutex, Event}
use ntsync_android.Spec.{
  on_sem, on_mutex, on_event, refused, a_mutex, an_event, Object, a_sem, Outcome,
}
use ntsync_android.Spec.View.{object_of}
use ntsync_android.Wait.Poll.{IsTyped}

pub sem-reads : (w : ℕ) → object_of type_sem w ≡ some (a_sem (sem_of w))
unfolding object_of
sem-reads w = refl

pub mutex-reads : (w : ℕ) → object_of type_mutex w ≡ some (a_mutex (mutex_of w))
unfolding object_of
mutex-reads w = refl

pub event-reads : (w : ℕ) → object_of type_event w ≡ some (an_event (event_of w))
unfolding object_of
event-reads w = refl

pub sem-keeps : (s : Slot) (w : ℕ) → s.obj_type ≡ type_sem → IsSem w → IsTyped (record s { w0 = w })
sem-keeps s w e v = record {
  sem = λ k. ground arith;
  mutex = λ k. ground arith;
  event = λ k. ground arith;
}

pub mutex-keeps :
    (s : Slot) (w : ℕ) → s.obj_type ≡ type_mutex → IsMutex w → IsTyped (record s { w0 = w })
mutex-keeps s w e v = record {
  sem = λ k. ground arith;
  mutex = λ k. ground arith;
  event = λ k. ground arith;
}

pub event-keeps :
    (s : Slot) (w : ℕ) → s.obj_type ≡ type_event → IsEvent w → IsTyped (record s { w0 = w })
event-keeps s w e v = record {
  sem = λ k. ground arith;
  mutex = λ k. ground arith;
  event = λ k. ground arith;
}

pub sem-other :
    (f : Sem → Outcome) (t w : ℕ) (o : Object)
    → t ≢ type_sem
    → object_of t w ≡ some o
    → on_sem f o ≡ refused o
unfolding object_of
sem-other f t w (a_sem s) ne e = absurd (ground arith)
sem-other f t w (a_mutex m) ne e = refl
sem-other f t w (an_event a) ne e = refl

pub mutex-other :
    (f : Mutex → Outcome) (t w : ℕ) (o : Object)
    → t ≢ type_mutex
    → object_of t w ≡ some o
    → on_mutex f o ≡ refused o
unfolding object_of
mutex-other f t w (a_sem s) ne e = refl
mutex-other f t w (a_mutex m) ne e = absurd (ground arith)
mutex-other f t w (an_event a) ne e = refl

pub event-other :
    (f : Event → Outcome) (t w : ℕ) (o : Object)
    → t ≢ type_event
    → object_of t w ≡ some o
    → on_event f o ≡ refused o
unfolding object_of
event-other f t w (a_sem s) ne e = refl
event-other f t w (a_mutex m) ne e = refl
event-other f t w (an_event a) ne e = absurd (ground arith)

-- A type of objects: its number, its words, and the object that such a word stands for.
pub record Kind (O : Type 0) : Type 1 where
  pub number : ℕ
  pub Ok : ℕ → Type 0
  pub of : ℕ → O
  pub con : O → Object
  pub reads : (w : ℕ) → object_of number w ≡ some (con (of w))
  pub typed : (s : Slot) → IsTyped s → s.obj_type ≡ number → Ok s.w0
  pub keeps : (s : Slot) (w : ℕ) → s.obj_type ≡ number → Ok w → IsTyped (record s { w0 = w })
  pub on : (O → Outcome) → Object → Outcome
  pub on_own : (f : O → Outcome) (o : O) → on f (con o) ≡ f o
  pub on_other :
      (f : O → Outcome) (t w : ℕ) (o : Object)
      → t ≢ number
      → object_of t w ≡ some o
      → on f o ≡ refused o

abbrev pub sem_kind : Kind Sem
sem_kind = record {
  number = type_sem;
  Ok = IsSem;
  of = sem_of;
  con = a_sem;
  reads = sem-reads;
  typed = λ s v e. v.sem e;
  keeps = sem-keeps;
  on = on_sem;
  on_own = λ f o. refl;
  on_other = sem-other;
}

abbrev pub mutex_kind : Kind Mutex
mutex_kind = record {
  number = type_mutex;
  Ok = IsMutex;
  of = mutex_of;
  con = a_mutex;
  reads = mutex-reads;
  typed = λ s v e. v.mutex e;
  keeps = mutex-keeps;
  on = on_mutex;
  on_own = λ f o. refl;
  on_other = mutex-other;
}

abbrev pub event_kind : Kind Event
event_kind = record {
  number = type_event;
  Ok = IsEvent;
  of = event_of;
  con = an_event;
  reads = event-reads;
  typed = λ s v e. v.event e;
  keeps = event-keeps;
  on = on_event;
  on_own = λ f o. refl;
  on_other = event-other;
}
