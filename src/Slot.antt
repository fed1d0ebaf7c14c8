-- ===== src/Slot.antt =====
-- src/core.rs, lines 760-922 and 2309-2331: the slot table. An object is created in the first free
-- slot from the allocation cursor on, named by a handle (generation << 14 | index), held by
-- processes, and closed; a full table is swept once.
pub mod Alloc
pub mod Create
pub mod Close
use ntsync_android.Base.{
  ℕ, zero, suc, ◌+◌, ◌*◌, ◌/◌, ◌%◌, ◌^◌, Bool, true, false, not, ◌||◌, Option, none, some, ◌==◌,
  ltb, if◌then◌else◌,
}
use ntsync_android.Base.Int.{ℤ, pos}
use ntsync_android.Word.{pack_sem, pack_mutex, pack_event}
use ntsync_android.Region.{
  Region, Slot, Header, Error, Result, ok, err, init, Env, Op, pure, fail, ◌>>=◌, ◌>>◌, region,
  lock, slot, slot_or_invalid, set_slot, set_header, nil, index_of, slot_count, slot_free,
  slot_used, type_sem, type_mutex, type_event,
}
use ntsync_android.Holder.{holder_add, holder_remove}
use ntsync_android.Waiter.{wake_object}
use ntsync_android.Sweep.{sweep_dead_locked}

abbrev pub scan_wrapped : ℕ
scan_wrapped = 2 ^ 31

-- `(generation << INDEX_BITS) | index`, on `u32`: the shift drops the generation's top 14 bits.
abbrev pub handle_of : (generation index : ℕ) → ℕ
handle_of generation index = generation * 2 ^ 14 % 2 ^ 32 + index

-- The slot that the loop stops at: its list is emptied, and the cursor moves past it.
abbrev pub take_slot : Region → ℕ → Option ℕ × Region
take_slot r index =
    let s = r.slots index in
    let h = r.header in
    let next = (index + 1) % slot_count in
    let flags = if next == 0 then scan_wrapped else h.next_scan / 2 ^ 31 % 2 * scan_wrapped in
    let r' = set_slot r index (record s { waiter_head = nil }) in
    (some (handle_of s.generation index), set_header r' (record h { next_scan = next + flags }))

-- `for i in 0..SLOT_COUNT`, with `left` rounds to go.
unfoldable pub alloc_loop : (left i cursor : ℕ) → Region → Option ℕ × Region
alloc_loop zero i cursor r = (none, r)
alloc_loop (suc left) i cursor r =
    let index = (cursor + i) % slot_count in
    let rest = alloc_loop left (i + 1) cursor r in
    if (r.slots index).state == slot_free then take_slot r index else rest

unfoldable pub alloc_slot : Region → Option ℕ × Region
alloc_slot r = alloc_loop slot_count 0 (r.header.next_scan % 2 ^ 31) r

-- The retry after a sweep that freed something.
unfoldable pub alloc_slot_or_sweep : (probe : ℕ → Bool) → Region → Option ℕ × Region
alloc_slot_or_sweep probe r =
    let (h, r') = alloc_slot r in
    let (swept, freed) = sweep_dead_locked probe r' in
    let again = alloc_slot swept in
    elim h [ some a ↦ (some a, r') | none ↦ if ltb 0 freed then again else (none, swept) ]

unfoldable pub slot_publish : (pid : ℕ) → (handle obj_type w0 : ℕ) → Region → Region
slot_publish pid handle obj_type w0 r =
    let s = r.slots (index_of handle) in
    set_slot r (index_of handle) (record s {
      w0 = w0;
      d = 0;
      obj_type = obj_type;
      pid = pid;
      holders_len = 0;
      holders = λ _. 0;
      state = slot_used;
    })

-- `libc::ENOMEM`
abbrev pub enomem : ℤ
enomem = pos 12

-- The part that the three `create_*` functions share.
unfoldable pub create : Env → (obj_type w0 : ℕ) → Op ℕ
create env obj_type w0 = do
  region env
  lock env
  λ r.
      let (h, r') = alloc_slot_or_sweep env.probe r in
      elim h [
        | none ↦ (err (init enomem), r')
        | some handle ↦ (ok handle, slot_publish env.pid handle obj_type w0 r')
      ]

unfoldable pub create_semaphore : Env → (count max : ℕ) → Op ℕ
create_semaphore env count max =
    if ltb max count then fail Error.invalid else create env type_sem (pack_sem count max)

unfoldable pub create_mutex : Env → (owner count : ℕ) → Op ℕ
create_mutex env owner count =
    if (if owner == 0 then not (count == 0) else count == 0) || ltb 0x7fff_ffff count
    then fail Error.invalid
    else create env type_mutex (pack_mutex owner count false)

unfoldable pub create_event : Env → (manual signaled : Bool) → Op ℕ
create_event env manual signaled = create env type_event (pack_event signaled manual)

-- A change of the holders of the slot at `i`.
abbrev pub hold : (Slot → ℕ → Slot) → Env → ℕ → Op (Unit {0})
hold f env i r = (ok tt, set_slot r i (f (r.slots i) env.pid))

unfoldable pub retain : Env → (handle : ℕ) → Op (Unit {0})
retain env handle =
    if index_of handle == 0
    then fail Error.invalid
    else do region env; lock env; i ← slot_or_invalid handle; hold holder_add env i

unfoldable pub release : Env → (handle : ℕ) → Op (Unit {0})
release env handle =
    if index_of handle == 0
    then fail Error.invalid
    else do region env; lock env; i ← slot_or_invalid handle; hold holder_remove env i

-- The part of `close` under the lock, at the slot's index.
unfoldable pub close_slot : Env → ℕ → Region → Region
close_slot env i r =
    let s = holder_remove (r.slots i) env.pid in
    let freed = record s { state = slot_free; generation = (s.generation + 1) % 2 ^ 32 } in
    wake_object (set_slot r i freed) i

-- `close` returns whether there was such an object; every failure is `false`.
unfoldable pub close : Env → (handle : ℕ) → Region → Bool × Region
close env handle r = if index_of handle == 0 then (false, r) else elim env.region_error [
  | some e ↦ (false, r)
  | none ↦ elim env.lock_error [
    | some e ↦ (false, r)
    | none ↦ elim (slot r handle) [ none ↦ (false, r) | some i ↦ (true, close_slot env i r) ]
  ]
]

unfoldable pub sweep_dead : Env → Op ℕ
sweep_dead env = do
  region env
  lock env
  λ r. let (r', freed) = sweep_dead_locked env.probe r in (ok freed, r')
