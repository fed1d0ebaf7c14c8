-- ===== src/Region.antt =====
-- src/core.rs, lines 40-194 and 306-349: the constants, the records of the shared region, and the
-- lookup of a handle. The region's memory is a function from an index to a slot or a waiter node,
-- written at one index at a time (`slot_ptr`, `node_ptr`); the fields that only the debug log reads
-- (`wake_ts`, `lock_owner_pid`, `lock_owner_tid`) are left out, as are `magic`, `version` and the
-- capacities, which never change after the file is created.
pub mod Handle
use ntsync_android.Base.{
  ℕ, ◌+◌, ◌-◌, ◌/◌, ◌%◌, ◌^◌, Bool, true, false, ◌&&◌, Option, none, some, List, [], ◌==◌, ltb,
  if◌then◌else◌, update,
}
use ntsync_android.Base.Int.{ℤ, pos}

abbrev pub max_wait_count : ℕ
max_wait_count = 64

abbrev pub slot_count : ℕ
slot_count = 16384

abbrev pub node_count : ℕ
node_count = 8192

-- `NIL`, `u32::MAX`
abbrev pub nil : ℕ
nil = 4294967295

-- `handle & INDEX_MASK` and `handle >> INDEX_BITS`, at 14 index bits.
abbrev pub index_of : ℕ → ℕ
index_of handle = handle % 2 ^ 14

abbrev pub generation_of : ℕ → ℕ
generation_of handle = handle / 2 ^ 14

abbrev pub slot_free : ℕ
slot_free = 0

abbrev pub slot_used : ℕ
slot_used = 1

abbrev pub max_holders : ℕ
max_holders = 8

-- `HOLDER_OVERFLOW` is the top bit of `holders_len`.
abbrev pub holder_overflow : ℕ
holder_overflow = 2 ^ 31

abbrev pub type_sem : ℕ
type_sem = 1

abbrev pub type_mutex : ℕ
type_mutex = 2

abbrev pub type_event : ℕ
type_event = 3

abbrev pub type_reserved : ℕ
type_reserved = 4

pub data Error : Type 0 where
  invalid : Error
  perm : Error
  overflow : Error
  init : ℤ → Error

pub data WaitOutcome : Type 0 where
  signaled : (index : ℕ) → (owner_dead : Bool) → WaitOutcome
  timeout : WaitOutcome
  invalid : WaitOutcome

-- `Result<A, Error>`
pub data Result (A : Type 0) : Type 0 where
  ok : A → Result A
  err : Error → Result A

-- `holders: [u32; MAX_HOLDERS]` is read and written below `max_holders` only.
pub record Slot : Type 0 where
  pub state : ℕ
  pub generation : ℕ
  pub obj_type : ℕ
  pub pid : ℕ
  pub waiter_head : ℕ
  pub holders_len : ℕ
  pub w0 : ℕ
  pub d : ℕ
  pub holders : ℕ → ℕ

pub record WaitNode : Type 0 where
  pub seq : ℕ
  pub registered : ℕ
  pub obj : ℕ
  pub wait_word : ℕ
  pub obj_prev : ℕ
  pub obj_next : ℕ
  pub waiter_next : ℕ
  pub pid : ℕ

pub record Header : Type 0 where
  pub node_free_head : ℕ
  pub node_fresh : ℕ
  pub next_scan : ℕ
  pub sweep_ns : ℕ

-- `woken` is no memory of the source: it lists the waiter nodes on whose futex word a `FUTEX_WAKE` was
-- made, the latest first.
pub record Region : Type 0 where
  pub header : Header
  pub slots : ℕ → Slot
  pub nodes : ℕ → WaitNode
  pub woken : List ℕ

-- Zeroed memory, as `ftruncate` leaves it.
abbrev pub zero_slot : Slot
zero_slot = record {
  state = 0;
  generation = 0;
  obj_type = 0;
  pid = 0;
  waiter_head = 0;
  holders_len = 0;
  w0 = 0;
  d = 0;
  holders = λ _. 0;
}

abbrev pub zero_node : WaitNode
zero_node = record {
  seq = 0;
  registered = 0;
  obj = 0;
  wait_word = 0;
  obj_prev = 0;
  obj_next = 0;
  waiter_next = 0;
  pid = 0;
}

-- What `try_open_and_map` makes of a new file: the header, and slot 0 reserved.
abbrev pub init_region : Region
init_region = record {
  header = record { node_free_head = nil; node_fresh = 0; next_scan = 0; sweep_ns = 0 };
  slots =
      update (λ _. zero_slot) 0
        (record zero_slot { waiter_head = nil; obj_type = type_reserved; state = slot_used });
  nodes = λ _. zero_node;
  woken = [];
}

-- A write through `slot_ptr(i)` and one through `node_ptr(i)`.
abbrev pub set_slot : Region → ℕ → Slot → Region
set_slot r i s = record r { slots = update r.slots i s }

abbrev pub set_node : Region → ℕ → WaitNode → Region
set_node r i n = record r { nodes = update r.nodes i n }

abbrev pub set_header : Region → Header → Region
set_header r h = record r { header = h }

-- `Region::slot`: the index of the used slot that a handle's index and generation name. The
-- comparison of the generations is between the 18 bits of the handle and the whole `u32`.
unfoldable pub slot : Region → ℕ → Option ℕ
slot r handle =
    let i = index_of handle in
    if ltb i slot_count
    then (if (r.slots i).state == slot_used && (r.slots i).generation == generation_of handle
        then some i
        else none)
    else none

-- What a process brings to a call: whether `region()` and `lock_guard()` succeed, its pid, what
-- `kill(pid, 0)` says of another process (false exactly when it fails with `ESRCH`), and what other
-- threads do to the object's word between a load and the compare-exchange after it.
pub record Env : Type 0 where
  pub region_error : Option ℤ
  pub lock_error : Option ℤ
  pub pid : ℕ
  pub probe : ℕ → Bool
  pub interference : List (ℕ → ℕ)

-- A call: it may fail, and returns the region as it leaves it. An error keeps what was written.
abbrev pub Op : Type 0 → Type 0
Op A = Region → Result A × Region

abbrev pub pure : {A : Type 0} → A → Op A
pure a r = (ok a, r)

abbrev pub fail : {A : Type 0} → Error → Op A
fail e r = (err e, r)

module _ {A B : Type 0} where
  abbrev pub and_then : Result A × Region → (A → Op B) → Result B × Region
  and_then (ok a, r) f = f a r
  and_then (err e, r) f = (err e, r)

  infixl 5 ◌>>=◌
  abbrev pub ◌>>=◌ : Op A → (A → Op B) → Op B
  m >>= f = λ r. and_then (m r) f

infixl 5 ◌>>◌
abbrev pub ◌>>◌ : {B : Type 0} → Op (Unit {0}) → Op B → Op B
m >> k = m >>= λ _. k

-- `region()?`
abbrev pub region : Env → Op (Unit {0})
region env = elim env.region_error [ none ↦ pure tt | some e ↦ fail (init e) ]

-- `r.lock_guard().map_err(Error::Init)?`
abbrev pub lock : Env → Op (Unit {0})
lock env = elim env.lock_error [ none ↦ pure tt | some e ↦ fail (init e) ]

-- `r.slot(handle).ok_or(Error::Invalid)?`
abbrev pub slot_or_invalid : ℕ → Op ℕ
slot_or_invalid handle r = elim (slot r handle) [
  | none ↦ (err Error.invalid, r)
  | some i ↦ (ok i, r)
]

-- `r.slot(handle).filter(|s| s.obj_type == t).ok_or(Error::Invalid)?`
abbrev pub find : ℕ → ℕ → Op ℕ
find t handle = do
  i ← slot_or_invalid handle
  λ r. if (r.slots i).obj_type == t then (ok i, r) else (err Error.invalid, r)
