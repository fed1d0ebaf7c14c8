-- ===== src/Spec/Requests.antt =====
-- The calls of src/core.rs (lines 803-1087, 1372-1825 and 2321-2329) that make, change, read, acquire and free
-- objects, as one kind of request, and what each promises on the table.
use ntsync_android.Base.{
  ℕ, ◌^◌, ◌<◌, ◌≡◌, Bool, true, false, ◌||◌, ◌==◌, ltb, if◌then◌else◌, Option, none, some, List, [],
  ◌∷◌,
}
use ntsync_android.Region.{Region, Env, Error, Result, ok, err}
use ntsync_android.Slot.{create_semaphore, create_mutex, create_event, sweep_dead}
use ntsync_android.Spec.{
  Table, Object, a_sem, a_mutex, an_event, ObjectCall, call_spec, at_handle, Answer, number, waited,
}
use ntsync_android.Spec.Calls.{serve_call, answered, IsQuiet}
use ntsync_android.Block.Asleep.{Thread, Turn}
use ntsync_android.Block.Whole.{Meets, wait}
use ntsync_android.Spec.Waits.{poll_call, or_invalid}
use ntsync_android.Spec.Polls.{poll_spec}
use ntsync_android.Spec.Reaps.{Loses}
use ntsync_android.Spec.Makes.{Makes}

pub data Request : Type 0 where
  on : (handle : ℕ) → ObjectCall → Request
  creates_sem : (count max : ℕ) → Request
  creates_mutex : (owner count : ℕ) → Request
  creates_event : (manual signaled : Bool) → Request
  sweeps : Request
  polls : (all : Bool) (owner : ℕ) (handles : List ℕ) (m : Meets) (th : Thread) → Request

-- The region lock is taken in the first turn of the loop, if there is one.
abbrev pub Locks : Meets → Type 0
Locks m = (t : Turn) × (turns : List Turn) × (m.turns ≡ t ∷ turns) × (t.lock_ok ≡ true)

-- The arguments that the source keeps in a `u32`. In a poll no other thread acts, and the lock can be taken.
abbrev pub Fits : Request → Type 0
Fits (on handle c) = Unit
Fits (creates_sem count max) = (count < 2 ^ 32) × (max < 2 ^ 32)
Fits (creates_mutex owner count) = owner < 2 ^ 32
Fits (creates_event manual signaled) = Unit
Fits sweeps = Unit
Fits (polls all owner handles m th) = (owner < 2 ^ 32) × (m.at_entry ≡ []) × Locks m

abbrev pub serve : Env → Request → Region → Result Answer × Region
serve env (on handle c) r = serve_call env handle c r
serve env (creates_sem count max) r = answered number (create_semaphore env count max r)
serve env (creates_mutex owner count) r = answered number (create_mutex env owner count r)
serve env (creates_event manual signaled) r = answered number (create_event env manual signaled r)
serve env sweeps r = answered number (sweep_dead env r)
serve env (polls all owner handles m th) r =
    let (out, th', r') = wait env m handles true (poll_call env all owner) th r in
    (ok (waited out), r')

-- The objects that may be made: a count within its maximum, and an owner exactly if there is a positive
-- recursion count.
abbrev pub new_sem : (count max : ℕ) → Option Object
new_sem count max =
    if ltb max count then none else some (a_sem (record { count = count; max = max }))

abbrev pub new_mutex : (owner count : ℕ) → Option Object
new_mutex owner count =
    let m = a_mutex (record { owner = owner; count = count; abandoned = false }) in
    if owner == 0
    then (if count == 0 then some m else none)
    else if count == 0 || ltb 0x7fff_ffff count
    then none
    else some m

abbrev pub new_event : (manual signaled : Bool) → Option Object
new_event manual signaled = some (an_event (record { manual = manual; signaled = signaled }))

abbrev pub Creates : Table → Option Object → Result Answer → Table → Type 0
Creates T none answer T' = (answer ≡ err Error.invalid) × ((k : ℕ) → T' k ≡ T k)
Creates T (some o) answer T' = Makes T o answer T'

-- The answer and the table that a request may end with.
abbrev pub Allowed : Table → Request → Result Answer → Table → Type 0
Allowed T (on handle c) answer T' =
    let promised = at_handle T handle (call_spec c) in
    (answer ≡ promised.0) × ((k : ℕ) → T' k ≡ promised.1 k)
Allowed T (creates_sem count max) answer T' = Creates T (new_sem count max) answer T'
Allowed T (creates_mutex owner count) answer T' = Creates T (new_mutex owner count) answer T'
Allowed T (creates_event manual signaled) answer T' =
    Creates T (new_event manual signaled) answer T'
Allowed T sweeps answer T' = ((n : ℕ) × (answer ≡ ok (number n))) × Loses T T'
Allowed T (polls all owner handles m th) answer T' =
    let promised = poll_spec all owner handles T in
    (answer ≡ ok (waited (or_invalid promised.0))) × ((k : ℕ) → T' k ≡ promised.1 k)

-- Requests in sequence, each with the process that makes it.
abbrev pub Served : Type 0
Served = List (Result Answer) × Region

abbrev pub serve_all : List (Env × Request) → Region → Served
serve_all [] r = ([], r)
serve_all ((env, c) ∷ cs) r =
    let (a, r') = serve env c r in let (said, r'') = serve_all cs r' in (a ∷ said, r'')

abbrev pub AllQuiet : List (Env × Request) → Type 0
AllQuiet [] = Unit
AllQuiet ((env, c) ∷ cs) = IsQuiet env × Fits c × AllQuiet cs

-- The tables that the promises lead to.
pub data History : Table → List (Env × Request) → List (Result Answer) → Table → Type 0 where
  ended : (T : Table) → History T [] [] T
  step :
      (T T1 T2 : Table) (env : Env) (c : Request) (cs : List (Env × Request)) (a : Result Answer)
      (said : List (Result Answer))
      → Allowed T c a T1
      → History T1 cs said T2
      → History T ((env, c) ∷ cs) (a ∷ said) T2
