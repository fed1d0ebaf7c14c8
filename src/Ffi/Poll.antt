-- ===== src/Ffi/Poll.antt =====
-- A poll through the C interface (src/ffi.rs, lines 378-417): `ntsync_wait_all` with a deadline that is
-- past.
use ntsync_android.Base.{
  ℕ, ◌^◌, ◌≤◌, ◌<◌, ◌≡◌, refl, Bool, true, false, Option, none, some, List, [], ◌∷◌, arith, take,
  length, if◌then◌else◌, contains, ◌∙◌,
}
use ntsync_android.Base.Int.{ℤ, pos, neg}
use ntsync_android.Region.{Region, Env, WaitOutcome, signaled, timeout, max_wait_count}
use ntsync_android.Satisfy.{Target}
use ntsync_android.Satisfy.Wait.{Taken, places, any_dead, taken, refused}
use ntsync_android.Wait.{fast_targets, has_duplicate, wait_entry}
use ntsync_android.Wait.Poll.{IsTyped, wait_entry-AllOf}
use ntsync_android.Block.{Call}
use ntsync_android.Block.Asleep.{Thread, ends}
use ntsync_android.Block.Whole.{Meets, wait}
use ntsync_android.Ffi.{eownerdead}
use ntsync_android.Ffi.Wait.{
  WaitArgs, Clocks, etimedout, timeout_to_duration, read_wait, wait_value, do_wait, ntsync_wait_all,
  with_args, good,
}

-- What a poll for all of `ts` returns and leaves: everything taken, the index 0 and 0 or -EOWNERDEAD;
-- or nothing changed, and -ETIMEDOUT.
pub data Polled (r : Region) (owner : ℕ) (ts : List Target) (args : WaitArgs) (th : Thread)
    (value : Option ℤ) (out : Option WaitArgs) (th' : Thread) (r' : Region) : Type 0 where
  all_taken :
      value ≡ some (if any_dead r owner ts then neg (pos eownerdead) else pos 0)
      → out ≡ some (record args { index = 0 })
      → Taken r owner r' ts
      → ((j : ℕ) → contains (places ts) j ≡ false → r'.slots j ≡ r.slots j)
      → th' ≡ th
      → Polled r owner ts args th value out th' r'
  timed_out :
      value ≡ some (neg (pos etimedout))
      → out ≡ some args
      → ((j : ℕ) → r'.slots j ≡ r.slots j)
      → th' ≡ th
      → Polled r owner ts args th value out th' r'

take-length : (xs : List ℕ) → take (length xs) xs ≡ xs
take-length [] = refl
take-length (x ∷ xs) = rw (take-length xs) refl

module _ (env : Env) (clocks : Clocks) (m : Meets) (th : Thread) (args : WaitArgs)
    (r : Region) where
  -- A wait that the attempt decides.
  wait-decided :
      (handles : List ℕ) (poll : Bool) (c : Call) (out : WaitOutcome) (r' : Region)
      → wait_entry m.at_entry env r handles c.owner poll c.all c.alert ≡ (some out, r')
      → wait env m handles poll c th r ≡ (ends out, th, r')
  unfolding wait
  wait-decided handles poll c out r' e = ground (arith, e)

  do_wait-good :
      (handles : List ℕ) (all : Bool) (out : WaitOutcome) (r' : Region)
      → read_wait clocks args ≡ good handles (some 0)
      → wait_entry m.at_entry env r handles args.owner true all args.alert ≡ (some out, r')
      → do_wait env clocks m th all args r ≡ (wait_value args (ends out), th, r')
  unfolding do_wait
  do_wait-good handles all out r' e f =
      let c : Call = record {
        pid = clocks.pid;
        owner = args.owner;
        all = all;
        alert = args.alert;
      } in
      let w = wait-decided handles true c out r' f in rw (e, do_wait) (rw w refl)

  poll-value :
      (handles : List ℕ)
      → args.objs ≡ some handles
      → args.count ≡ length handles
      → 0 < length handles
      → length handles ≤ max_wait_count
      → args.alert ≡ 0
      → timeout_to_duration clocks args.timeout args.flags ≡ some 0
      → m.at_entry ≡ []
      → (out : WaitOutcome) (r' : Region)
      → wait_entry [] env r handles args.owner true true 0 ≡ (some out, r')
      → ntsync_wait_all env clocks m th (some args) r
        ≡ with_args (wait_value args (ends out), th, r') args
  unfolding ntsync_wait_all read_wait
  poll-value handles objs count some_handle few alert past quiet out r' e =
      let all_handles : take args.count handles ≡ handles = rw count (take-length handles) in
      let read : read_wait clocks args ≡ good handles (some 0) = ground (arith, all_handles) in
      rw (do_wait-good handles true out r' read (rw (quiet, alert) e)) refl

  -- A poll for all of up to 64 different handles of objects through the C interface, with a deadline that
  -- is past, by an owner that is not 0 and below 2 ^ 32, without an alert and with no other thread in
  -- between, in a region that opens and where the word of every slot is one of its type, returns: 0 or
  -- -EOWNERDEAD with the index 0 and every object acquired, or -ETIMEDOUT with every slot as it was.
  pub ntsync_wait_all-Polled :
      (handles : List ℕ) (ts : List Target)
      → env.region_error ≡ none
      → args.objs ≡ some handles
      → args.count ≡ length handles
      → 0 < length handles
      → length handles ≤ max_wait_count
      → has_duplicate [] handles ≡ false
      → fast_targets r handles ≡ some ts
      → 0 < args.owner
      → args.owner < 2 ^ 32
      → args.alert ≡ 0
      → timeout_to_duration clocks args.timeout args.flags ≡ some 0
      → m.at_entry ≡ []
      → ((i : ℕ) → IsTyped (r.slots i))
      → Polled r args.owner ts args th
          (ntsync_wait_all env clocks m th (some args) r).0
          (ntsync_wait_all env clocks m th (some args) r).1
          (ntsync_wait_all env clocks m th (some args) r).2
          (ntsync_wait_all env clocks m th (some args) r).3
  unfolding wait_value
  ntsync_wait_all-Polled handles ts opened objs count some_handle few apart found owner fits alert
        past quiet typed =
      let (out, all, e) =
        wait_entry-AllOf r env handles args.owner ts true opened owner fits some_handle few apart
          found typed in
      let r' = (wait_entry [] env r handles args.owner true true 0).1 in
      let runs =
        λ (o : WaitOutcome) (f : (wait_entry [] env r handles args.owner true true 0).0 ≡ some o).
          poll-value handles objs count some_handle few alert past quiet o r' (ground arith) in
      elim all [
        | taken o t left ↦
            let d = any_dead r args.owner ts in
            let k = runs (signaled 0 d) (e ∙ (rw o refl)) in rw k (all_taken refl refl t left refl)
        | refused o before u after split busy same ↦
            let k = runs timeout (e ∙ (rw o refl)) in rw k (timed_out refl refl same refl)
      ]
