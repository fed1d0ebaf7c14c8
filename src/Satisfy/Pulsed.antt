-- ===== src/Satisfy/Pulsed.antt =====
-- The rollback of a WAIT_ALL attempt of src/core.rs (lines 1203-1213) at an auto-reset event that a
-- pulse had satisfied.
use ntsync_android.Base.{ℕ, ◌≡◌, ◌≢◌, sym, ◌∙◌, refl, none, some, true, false, [], ◌∷◌, arith}
use ntsync_android.Word.{lo, hi, set_low}
use ntsync_android.Region.{Region, index_of, type_event}
use ntsync_android.Cas.{cas_loop}
use ntsync_android.Object.{try_acquire, rollback_acquire, acquire_event, rollback_event_round}
use ntsync_android.Object.State.{IsEvent}
use ntsync_android.Satisfy.Any.{acquire_at-none}
use ntsync_android.Satisfy.Wait.{acquire_at-cong, acquire_at-other}
use ntsync_android.Satisfy.{Target, acquire_at, rollback_at, rollback_all, satisfy_all, try_satisfy}

pulsed_word :
    (w d owner seq : ℕ)
    → IsEvent w
    → hi w ≡ 0
    → lo w ≡ 0
    → d ≢ seq
    → (try_acquire [] type_event w d owner seq ≡ (w, some false))
      × (rollback_acquire [] type_event w owner false ≡ 1)
unfolding try_acquire rollback_acquire cas_loop acquire_event rollback_event_round set_low
pulsed_word w d owner seq v h l ne = (ground arith, ground arith)

pulsed_acquire :
    (r : Region) (owner : ℕ) (t : Target)
    → (r.slots (index_of t.handle)).obj_type ≡ type_event
    → IsEvent (r.slots (index_of t.handle)).w0
    → hi (r.slots (index_of t.handle)).w0 ≡ 0
    → lo (r.slots (index_of t.handle)).w0 ≡ 0
    → (r.slots (index_of t.handle)).d ≢ t.entry_seq
    → ((acquire_at r owner t).0 ≡ some false)
      × (((acquire_at r owner t).1.slots (index_of t.handle)).w0 ≡ (r.slots (index_of t.handle)).w0)
      × (((acquire_at r owner t).1.slots (index_of t.handle)).obj_type
          ≡ (r.slots (index_of t.handle)).obj_type)
unfolding acquire_at
pulsed_acquire r owner t typed v h l ne =
    let s = r.slots (index_of t.handle) in
    let (e, _) = pulsed_word s.w0 s.d owner t.entry_seq v h l ne in
    (ground arith, ground arith, ground arith)

signaled_again :
    (r : Region) (owner : ℕ) (t : Target)
    → (r.slots (index_of t.handle)).obj_type ≡ type_event
    → IsEvent (r.slots (index_of t.handle)).w0
    → hi (r.slots (index_of t.handle)).w0 ≡ 0
    → lo (r.slots (index_of t.handle)).w0 ≡ 0
    → ((rollback_at r owner t.handle false).slots (index_of t.handle)).w0 ≡ 1
unfolding rollback_at
signaled_again r owner t typed v h l =
    let s = r.slots (index_of t.handle) in
    let (_, e) = pulsed_word s.w0 0 owner 1 v h l (omega arith) in ground arith

-- An attempt to wait for all of two objects in different slots, the first an unsignaled auto-reset
-- event that was pulsed since the wait began and the second one that cannot be acquired: it fails and
-- leaves the event signaled, though nobody set it.
pub try_satisfy-resignals :
    (r : Region) (owner : ℕ) (event busy : Target)
    → index_of event.handle ≢ index_of busy.handle
    → (r.slots (index_of event.handle)).obj_type ≡ type_event
    → IsEvent (r.slots (index_of event.handle)).w0
    → hi (r.slots (index_of event.handle)).w0 ≡ 0
    → lo (r.slots (index_of event.handle)).w0 ≡ 0
    → (r.slots (index_of event.handle)).d ≢ event.entry_seq
    → (acquire_at r owner busy).0 ≡ none
    → ((try_satisfy [] r owner (event ∷ busy ∷ []) true).0 ≡ none)
      × (((try_satisfy [] r owner (event ∷ busy ∷ []) true).1.slots (index_of event.handle)).w0 ≡ 1)
unfolding try_satisfy satisfy_all rollback_all
try_satisfy-resignals r owner event busy apart typed v h l ne b =
    let r1 = (acquire_at r owner event).1 in
    let (got, word, type) = pulsed_acquire r owner event typed v h l ne in
    let other = acquire_at-other r owner event (index_of busy.handle) (λ e. apart (sym e)) in
    let b1 : (acquire_at r1 owner busy).0 ≡ none = (acquire_at-cong r1 r owner busy other).0 ∙ b in
    let same = acquire_at-none r1 owner busy b1 in
    rw (got, satisfy_all)
      (rw (b1, satisfy_all)
        (rw same
          (refl, signaled_again r1 owner event (type ∙ typed) (rw word v) (rw word h) (rw word l))))
