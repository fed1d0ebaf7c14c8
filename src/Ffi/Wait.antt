-- ===== src/Ffi/Wait.antt =====
-- src/ffi.rs, lines 49-65, 76-131 and 378-417: the entry points that wait, and `ntsync_init`.
use ntsync_android.Base.{
  ℕ, ◌-◌, ◌^◌, ◌%◌, Bool, true, false, ◌||◌, Option, none, some, List, ◌==◌, ltb, take,
  if◌then◌else◌,
}
use ntsync_android.Base.Int.{ℤ, pos, neg}
use ntsync_android.Region.{
  Region, Env, Result, ok, err, WaitOutcome, signaled, timeout, max_wait_count,
}
use ntsync_android.Block.{Call}
use ntsync_android.Block.Asleep.{Thread, Turned, ends, panics, goes_on}
use ntsync_android.Block.Whole.{Meets, wait}
use ntsync_android.Ffi.{efault, einval, eownerdead, errno}
use ntsync_android.Open.{Text, OsResult, init_result}

abbrev pub etimedout : ℕ
etimedout = 110

-- `objs` is the array behind the pointer, if that is not null.
pub record WaitArgs : Type 0 where
  pub timeout : ℕ
  pub objs : Option (List ℕ)
  pub count : ℕ
  pub index : ℕ
  pub flags : ℕ
  pub owner : ℕ
  pub alert : ℕ

-- What the two clocks say, in nanoseconds, and the pid of the process.
pub record Clocks : Type 0 where
  pub realtime : ℕ
  pub monotonic : ℕ
  pub pid : ℕ

-- `none` is an infinite wait.
unfoldable pub timeout_to_duration : Clocks → (deadline flags : ℕ) → Option ℕ
timeout_to_duration clocks deadline flags =
    let now = if flags % 2 == 1 then clocks.realtime else clocks.monotonic in
    if deadline == 2 ^ 64 - 1 then none else some (deadline - now)

-- The handles and the duration, or an errno.
pub data ReadWait : Type 0 where
  good : (handles : List ℕ) → (duration : Option ℕ) → ReadWait
  bad : ℤ → ReadWait

unfoldable pub read_wait : Clocks → WaitArgs → ReadWait
read_wait clocks args =
    if args.count == 0 || ltb max_wait_count args.count
    then bad (neg (pos einval))
    else elim args.objs [
      | none ↦ bad (neg (pos efault))
      | some objs ↦ good (take args.count objs) (timeout_to_duration clocks args.timeout args.flags)
    ]

abbrev pub is_zero : Option ℕ → Bool
is_zero none = false
is_zero (some d) = d == 0

-- The value of the call and what stands behind the pointer then; `none` if it has not returned.
unfoldable pub wait_value : WaitArgs → Turned → Option (ℤ × WaitArgs)
wait_value args (ends (signaled index owner_dead)) =
    some (if owner_dead then neg (pos eownerdead) else pos 0, record args { index = index })
wait_value args (ends timeout) = some (neg (pos etimedout), args)
wait_value args (ends WaitOutcome.invalid) = some (neg (pos einval), args)
wait_value args panics = none
wait_value args (goes_on ts ns) = none

unfoldable pub do_wait :
    Env
    → Clocks
    → Meets
    → Thread
    → (all : Bool) → WaitArgs
    → Region
    → Option (ℤ × WaitArgs) × Thread × Region
do_wait env clocks m th all args r = elim (read_wait clocks args) [
  | bad e ↦ (some (e, args), th, r)
  | good handles duration ↦
      let c : Call = record {
        pid = clocks.pid;
        owner = args.owner;
        all = all;
        alert = args.alert;
      } in
      let (turned, th', r') = wait env m handles (is_zero duration) c th r in
      (wait_value args turned, th', r')
]

-- The pointer to the arguments is `none` when it is null.
abbrev pub Waited : Type 0
Waited = Option ℤ × Option WaitArgs × Thread × Region

abbrev pub with_args : Option (ℤ × WaitArgs) × Thread × Region → WaitArgs → Waited
with_args (some (value, after), th, r) before = (some value, some after, th, r)
with_args (none, th, r) before = (none, some before, th, r)

unfoldable pub ntsync_wait_any : Env → Clocks → Meets → Thread → Option WaitArgs → Region → Waited
ntsync_wait_any env clocks m th none r = (some (neg (pos efault)), none, th, r)
ntsync_wait_any env clocks m th (some args) r =
    with_args (do_wait env clocks m th false args r) args

unfoldable pub ntsync_wait_all : Env → Clocks → Meets → Thread → Option WaitArgs → Region → Waited
ntsync_wait_all env clocks m th none r = (some (neg (pos efault)), none, th, r)
ntsync_wait_all env clocks m th (some args) r = with_args (do_wait env clocks m th true args r) args

-- The path of `ntsync_init`: null, not UTF-8, or a text.
pub data InitPath : Type 0 where
  null : InitPath
  not_utf8 : InitPath
  path : Text → InitPath

abbrev pub init_value : Result (Unit {0}) → ℤ
init_value (ok a) = pos 0
init_value (err e) = errno e

-- `core_init` is the result that `core::init` finds or makes with the path.
unfoldable pub ntsync_init : (core_init : Option Text → OsResult Region) → InitPath → ℤ
ntsync_init core_init null = init_value (init_result (core_init none))
ntsync_init core_init not_utf8 = neg (pos einval)
ntsync_init core_init (path p) = init_value (init_result (core_init (some p)))
