-- ===== src/Open.antt =====
-- src/core.rs, lines 50-69 and 610-758: where the region file is, how it is opened, mapped and
-- initialised. Texts are lists of code points. What the system calls answer is an argument (`Answers`); the
-- calls that change something are listed in the order they are made.
pub mod Released
pub mod Paths
use Prim.Native.Char.{code}
use Prim.Native.String.{String}
use ntsync_android.Base.{
  ℕ, zero, suc, ◌+◌, Bool, true, false, not, ◌&&◌, ◌||◌, Option, none, some, List, [], ◌∷◌, ◌++◌,
  ◌==◌, if◌then◌else◌,
}
use ntsync_android.Base.Int.{ℤ, pos, eq_ℤ}
use ntsync_android.Region.{
  Region, Error, Result, ok, err, init, init_region, slot_count, node_count,
}

abbrev pub Text : Type 0
Text = List ℕ

abbrev pub codes : String → Text
codes String.[] = []
codes (String.◌∷◌ c s) = code c ∷ codes s

abbrev pub is_empty : Text → Bool
is_empty [] = true
is_empty (c ∷ s) = false

abbrev pub eq_text : Text → Text → Bool
eq_text [] [] = true
eq_text [] (d ∷ t) = false
eq_text (c ∷ s) [] = false
eq_text (c ∷ s) (d ∷ t) = (c == d) && eq_text s t

-- `Result<A, i32>`
pub data OsResult (A : Type 0) : Type 0 where
  done : A → OsResult A
  failed : ℤ → OsResult A

abbrev pub einval : ℤ
einval = pos 22

abbrev pub estale : ℤ
estale = pos 116

abbrev pub magic : ℕ
magic = 0x6E7473796E635F75

abbrev pub version : ℕ
version = 10

-- The argument, `$NTSYNC_SHM`, `$TMPDIR`.
unfoldable pub resolve_path : (path shm tmp : Option Text) → OsResult Text
resolve_path (some p) shm tmp = done p
resolve_path none shm tmp =
    let in_tmp = elim tmp as (λ _. OsResult Text) [
      | none ↦ failed einval
      | some t ↦ if is_empty t then failed einval else done (t ++ codes "/ntsync_userspace.shm")
    ] in
    elim shm [ none ↦ in_tmp | some s ↦ if is_empty s then in_tmp else done s ]

-- `rsplit_once('.')`
unfoldable pub rsplit_once : Text → Option (Text × Text)
rsplit_once [] = none
rsplit_once (c ∷ s) = elim (rsplit_once s) [
  | some (stem, ext) ↦ some (c ∷ stem, ext)
  | none ↦ if c == 46 then some ([], s) else none
]

-- The layout version goes before the extension.
unfoldable pub versioned : Text → Text
versioned path = elim (rsplit_once path) [
  | none ↦ path ++ codes ".v10"
  | some (stem, ext) ↦
      if eq_text ext (codes "shm") then stem ++ codes ".v10.shm" else path ++ codes ".v10"
]

pub record FileHeader : Type 0 where
  pub magic : ℕ
  pub version : ℕ
  pub capacity : ℕ
  pub node_capacity : ℕ

-- What the system calls of one attempt answer: an errno where a call fails, and what the file has.
pub record Answers : Type 0 where
  pub open_error : Option ℤ
  pub flock_error : Option ℤ
  pub fstat_error : Option ℤ
  pub size : ℕ
  pub ftruncate_error : Option ℤ
  pub mmap_error : Option ℤ
  pub header : FileHeader
  pub contents : Region

pub data SysCall : Type 0 where
  opened flocked truncated mapped initialized unmapped unlocked closed : SysCall

unfoldable pub layout_matches : FileHeader → Bool
layout_matches h =
    (h.magic == magic)
    && (h.version == version)
    && (h.capacity == slot_count)
    && (h.node_capacity == node_count)

-- A failure with the file locked.
abbrev pub bail : ℤ → List SysCall → OsResult Region × List SysCall
bail e calls = (failed e, calls ++ unlocked ∷ closed ∷ [])

-- From the mapping on. A new file is initialised, another one must have this layout.
unfoldable pub map_and_check : Answers → List SysCall → OsResult Region × List SysCall
map_and_check a calls = elim a.mmap_error [
  | some e ↦ bail e calls
  | none ↦
      let mapping = calls ++ mapped ∷ [] in
      if a.size == 0
      then (done init_region, mapping ++ initialized ∷ unlocked ∷ closed ∷ [])
      else if not (layout_matches a.header)
      then bail estale (mapping ++ unmapped ∷ [])
      else (done a.contents, mapping ++ unlocked ∷ closed ∷ [])
]

unfoldable pub try_open_and_map : (region_size : ℕ) → Answers → OsResult Region × List SysCall
try_open_and_map region_size a = elim a.open_error [
  | some e ↦ (failed e, [])
  | none ↦ elim a.flock_error [
    | some e ↦ (failed e, opened ∷ closed ∷ [])
    | none ↦
        let locked = opened ∷ flocked ∷ [] in
        let fresh = elim a.ftruncate_error as (λ _. OsResult Region × List SysCall) [
          | some e ↦ bail e locked
          | none ↦ map_and_check a (locked ++ truncated ∷ [])
        ] in
        elim a.fstat_error [
          | some e ↦ bail e locked
          | none ↦
              if not (a.size == 0) && not (a.size == region_size)
              then bail estale locked
              else if a.size == 0
              then fresh
              else map_and_check a locked
        ]
  ]
]

-- `for _ in 0..4`: an attempt that finds a stale file unlinks it. The second component is how often.
unfoldable pub attempts : (left : ℕ) → (region_size : ℕ) → (ℕ → Answers) → OsResult Region × ℕ
attempts zero region_size answers = (failed estale, 0)
attempts (suc left) region_size answers =
    let got = (try_open_and_map region_size (answers left)).0 in
    let (last, unlinked) = attempts left region_size answers in
    elim got [
      | done r ↦ (done r, 0)
      | failed e ↦ if eq_ℤ e estale then (last, unlinked + 1) else (failed e, 0)
    ]

-- `c_path` is whether the path has no NUL.
unfoldable pub open_and_map : (c_path : Bool) → (region_size : ℕ) → (ℕ → Answers) → OsResult Region
open_and_map c_path region_size answers =
    if c_path then (attempts 4 region_size answers).0 else failed einval

-- `REGION`: the first result stays.
abbrev pub get_or_init : Option (OsResult Region) → OsResult Region → OsResult Region
get_or_init none made = made
get_or_init (some kept) made = kept

unfoldable pub init_result : OsResult Region → Result (Unit {0})
init_result (done r) = ok tt
init_result (failed e) = err (init e)
