-- ===== src/Slot/Create.antt =====
-- `create_semaphore`, `create_mutex` and `create_event` of src/core.rs (lines 791-830): the object
-- that a successful call leaves behind its handle.
use ntsync_android.Base.{
  ℕ, ◌%◌, ◌^◌, ◌≤◌, ◌<◌, ◌≡◌, Bool, false, none, some, arith, Option-cases, inl, inr,
}
use ntsync_android.Word.{pack_sem, pack_mutex, pack_event}
use ntsync_android.Word.Fields.{
  lo-pack_sem, hi-pack_sem, lo-pack_mutex, mutex_count-pack_mutex, mutex_dead-pack_mutex,
}
use ntsync_android.Region.{
  Region, Env, Error, ok, err, slot, slot_count, slot_used, nil, index_of, generation_of, type_sem,
  type_mutex, type_event,
}
use ntsync_android.Region.Handle.{slot_found}
use ntsync_android.Sweep.{sweep_dead_locked}
use ntsync_android.Signal.{read_sem, read_mutex, read_event}
use ntsync_android.Slot.{
  alloc_slot, alloc_slot_or_sweep, slot_publish, create, create_semaphore, create_mutex,
  create_event, handle_of,
}
use ntsync_android.Slot.Alloc.{Took, alloc_slot-Took}

-- The object that `handle` was made for.
pub record Created (r : Region) (handle obj_type w0 pid : ℕ) : Type 0 where
  pub named : handle ≡ handle_of (r.slots (index_of handle)).generation (index_of handle)
  pub used : (r.slots (index_of handle)).state ≡ slot_used
  pub typed : (r.slots (index_of handle)).obj_type ≡ obj_type
  pub word : (r.slots (index_of handle)).w0 ≡ w0
  pub owned : (r.slots (index_of handle)).pid ≡ pid
  pub unheld : (r.slots (index_of handle)).holders_len ≡ 0
  pub unpulsed : (r.slots (index_of handle)).d ≡ 0
  pub no_waiters : (r.slots (index_of handle)).waiter_head ≡ nil

pub index_of-handle_of : (g i : ℕ) → i < slot_count → index_of (handle_of g i) ≡ i
index_of-handle_of g i h = omega arith

-- The 18 bits of a handle's generation.
pub generation_of-handle_of :
    (g i : ℕ) → i < slot_count → generation_of (handle_of g i) ≡ g % 2 ^ 18
generation_of-handle_of g i h = omega arith

publish-Created :
    (r r' : Region) (handle pid t w : ℕ)
    → Took r handle r'
    → Created (slot_publish pid handle t w r') handle t w pid
unfolding slot_publish
publish-Created r r' handle pid t w k =
    let e : index_of handle ≡ k.index =
      ground
        (arith, k.named, k.in_table, index_of-handle_of (r.slots k.index).generation k.index) in
    record {
      named = ground (arith, k.named, k.generation);
      used = ground arith;
      typed = ground arith;
      word = ground arith;
      owned = ground arith;
      unheld = ground arith;
      unpulsed = ground arith;
      no_waiters = ground (arith, k.emptied);
    }

alloc_or_sweep-Took :
    (probe : ℕ → Bool) (r : Region) {handle : ℕ} {r' : Region}
    → alloc_slot_or_sweep probe r ≡ (some handle, r')
    → (before : Region) × Took before handle r'
unfolding alloc_slot_or_sweep
alloc_or_sweep-Took probe r e = elim (Option-cases (alloc_slot r).0) [
  | inr (h, f) ↦ (r, alloc_slot-Took r (ground arith))
  | inl f ↦ (
    (sweep_dead_locked probe (alloc_slot r).1).0,
    alloc_slot-Took (sweep_dead_locked probe (alloc_slot r).1).0 (ground arith),
  )
]

create-Created :
    (env : Env) (t w : ℕ) (r : Region) {handle : ℕ} {r' : Region}
    → create env t w r ≡ (ok handle, r')
    → (env.region_error ≡ none) × Created r' handle t w env.pid
unfolding create
create-Created env t w r {handle} {r'} e =
    let out = alloc_slot_or_sweep env.probe r in
    let opened : env.region_error ≡ none = ground arith in
    let got : out.0 ≡ some handle = ground arith in
    let final : r' ≡ slot_publish env.pid handle t w out.1 = ground arith in
    let (before, took) =
      alloc_or_sweep-Took env.probe r {handle = handle} {r' = out.1} (ground arith) in
    (opened, rw final (publish-Created before out.1 handle env.pid t w took))

-- A handle is found again while the slot's generation fits its 18 bits.
Created-slot :
    (r : Region) {handle t w pid : ℕ}
    → Created r handle t w pid
    → (r.slots (index_of handle)).generation < 2 ^ 18
    → slot r handle ≡ some (index_of handle)
Created-slot r {handle} c g =
    let n = c.named in
    let u =
      generation_of-handle_of (r.slots (index_of handle)).generation (index_of handle)
        (omega arith) in
    slot_found r handle c.used (ground arith)

-- The handle that `create_semaphore` returns reads back as the count and the maximum it was made
-- with, as long as the generation of its slot is below 2 ^ 18.
pub create_semaphore-read_sem :
    (env : Env) (count max : ℕ) (r : Region) {handle : ℕ} {r' : Region}
    → count < 2 ^ 32
    → max < 2 ^ 32
    → create_semaphore env count max r ≡ (ok handle, r')
    → (r'.slots (index_of handle)).generation < 2 ^ 18
    → read_sem env handle r' ≡ (ok (count, max), r')
unfolding create_semaphore read_sem
create_semaphore-read_sem env count max r {handle} {r'} hc hm e g =
    let (opened, c) =
      create-Created env type_sem (pack_sem count max) r {handle = handle} {r' = r'}
        (ground arith) in
    let found = Created-slot r' c g in
    let a = lo-pack_sem count max hc in
    let b = hi-pack_sem count max hc hm in ground (arith, c.typed, c.word)

-- The handle that `create_mutex` returns reads back as the recursion count and the owner it was made
-- with, not abandoned, as long as the generation of its slot is below 2 ^ 18.
pub create_mutex-read_mutex :
    (env : Env) (owner count : ℕ) (r : Region) {handle : ℕ} {r' : Region}
    → owner < 2 ^ 32
    → create_mutex env owner count r ≡ (ok handle, r')
    → (r'.slots (index_of handle)).generation < 2 ^ 18
    → read_mutex env handle r' ≡ (ok (count, owner, false), r')
unfolding create_mutex read_mutex
create_mutex-read_mutex env owner count r {handle} {r'} ho e g =
    let (opened, c) =
      create-Created env type_mutex (pack_mutex owner count false) r {handle = handle} {r' = r'}
        (ground arith) in
    let small : count < 2 ^ 31 = ground arith in
    let found = Created-slot r' c g in
    let a = lo-pack_mutex owner count false ho in
    let b = mutex_count-pack_mutex owner count false ho small in
    let d = mutex_dead-pack_mutex owner count false ho in ground (arith, c.typed, c.word)

-- Once the generation of a slot has reached 2 ^ 18, a handle made for it names nothing: the shift
-- drops the high bits of the generation, and the lookup compares what is left with all of it.
pub create-stale :
    (env : Env) (manual signaled : Bool) (r : Region) {handle : ℕ} {r' : Region}
    → create_event env manual signaled r ≡ (ok handle, r')
    → 2 ^ 18 ≤ (r'.slots (index_of handle)).generation
    → (read_event env handle r' ≡ (err Error.invalid, r')) × (slot r' handle ≡ none)
unfolding create_event read_event slot
create-stale env manual signaled r {handle} {r'} e g =
    let (opened, c) =
      create-Created env type_event (pack_event signaled manual) r {handle = handle} {r' = r'}
        (ground arith) in
    let n = c.named in
    let u =
      generation_of-handle_of (r'.slots (index_of handle)).generation (index_of handle)
        (omega arith) in
    (ground arith, ground arith)
