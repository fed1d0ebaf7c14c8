-- ===== src/Ffi/Calls.antt =====
-- The entry points of src/ffi.rs that create a semaphore and read it.
use ntsync_android.Base.{
  ℕ, ◌^◌, ◌<◌, ◌≡◌, refl, none, some, arith, Option-cases, Bool-cases, inl, inr, ◌⊎◌, ltb,
}
use ntsync_android.Base.Int.{pos}
use ntsync_android.Region.{Region, Env, ok, err, init, index_of, type_sem}
use ntsync_android.Word.{pack_sem}
use ntsync_android.Slot.{create_semaphore, create, alloc_slot_or_sweep}
use ntsync_android.Slot.Create.{create_semaphore-read_sem}
use ntsync_android.Ffi.{SemArgs, errno, ntsync_create_sem, ntsync_sem_read}

create-result :
    (env : Env) (t w : ℕ) (r : Region)
    → env.region_error ≡ none
    → env.lock_error ≡ none
    → ((create env t w r).0 ≡ err (init (pos 12)))
      ⊎ ((h : ℕ) × (create env t w r ≡ (ok h, (create env t w r).1)))
unfolding create
create-result env t w r opened locked = elim (Option-cases (alloc_slot_or_sweep env.probe r).0) [
  | inl e ↦ inl (ground arith)
  | inr (h, e) ↦ inr (h, ground arith)
]

create_semaphore-returned :
    (env : Env) (out handle : ℕ) (args : SemArgs) (r r' : Region)
    → env.region_error ≡ none
    → env.lock_error ≡ none
    → ntsync_create_sem env (some out) (some args) r
      ≡ record { value = pos 0; out = some handle; region = r' }
    → create_semaphore env args.count args.max r ≡ (ok handle, r')
unfolding ntsync_create_sem errno create_semaphore
create_semaphore-returned env out handle args r r' opened locked e =
    elim (Bool-cases (ltb args.max args.count)) [
      | inl above ↦ absurd (ground arith)
      | inr fits ↦
          elim (create-result env type_sem (pack_sem args.count args.max) r opened locked) [
            | inl full ↦ absurd (ground arith)
            | inr (h, made) ↦ ground arith
          ]
    ]

-- A semaphore that a creation through the C interface reports made, by a process that meets no error of
-- the region or its lock, with arguments that fit 32 bits: reading its handle returns 0 and fills in the
-- count and the maximum it was made with, until the generation of its slot has reached 2 ^ 18.
pub ntsync_create_sem-ntsync_sem_read :
    (env : Env) (out handle : ℕ) (args old : SemArgs) (r r' : Region)
    → env.region_error ≡ none
    → env.lock_error ≡ none
    → args.count < 2 ^ 32
    → args.max < 2 ^ 32
    → ntsync_create_sem env (some out) (some args) r
      ≡ record { value = pos 0; out = some handle; region = r' }
    → (r'.slots (index_of handle)).generation < 2 ^ 18
    → ntsync_sem_read env handle (some old) r'
      ≡ record { value = pos 0; out = some args; region = r' }
unfolding ntsync_sem_read
ntsync_create_sem-ntsync_sem_read env out handle args old r r' opened locked hc hm e g =
    let made = create_semaphore-returned env out handle args r r' opened locked e in
    rw (create_semaphore-read_sem env args.count args.max r hc hm made g) refl
