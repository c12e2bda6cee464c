-- ===== src/Store/FileStore/Locks.antt =====
-- The methods of store/file.go called from many goroutines at once: `getLock` gives one read-write
-- lock for each key, which a method holds from its start to its end.
pub mod Effects
pub mod Phases
pub mod Advancing
pub mod Frames
pub mod Invariant
pub mod Acquire
pub mod Work
pub mod Release
pub mod Atomic
use cdc_trigger.Prelude.{
  ℕ, String, ◌≡◌, ◌≢◌, Bool, true, false, Option, none, some, List, [], ◌∷◌, lookup, insert, erase,
  snoc, ◌==◌, if◌then◌else◌,
}
use cdc_trigger.Errors.{GoError, sentinel, not_exist, Result, ok, err}
use cdc_trigger.Store.FileStore.{
  FileStore, Files, Io, file_path, stat, has, get, delete, set, is_not_exist, remove_file, clean_up,
}

-- A call of a method, with what the system answers to it.
pub data Op : Type 0 where
  has_op get_op delete_op : String → Io → Op
  set_op : String → Io → List ℕ → Op

abbrev pub key_of_op : Op → String
key_of_op (has_op key io) = key
key_of_op (get_op key io) = key
key_of_op (delete_op key io) = key
key_of_op (set_op key io value) = key

pub data Reply : Type 0 where
  found : Bool → Reply
  content : Result (List ℕ) → Reply
  error : Option GoError → Reply

-- A call with nothing else running.
unfoldable pub run_op : FileStore → Op → Files → Reply × Files
unfolding has get delete set
run_op fs (has_op key io) files = (found (has fs io key files), files)
run_op fs (get_op key io) files = (content (get fs io key files), files)
run_op fs (delete_op key io) files = let (e, left) = delete fs io key files in (error e, left)
run_op fs (set_op key io value) files = let (e, left) = set fs io key value files in (error e, left)

-- Where a goroutine stands: it holds the lock (`locked`), has its temporary file (`created`) with
-- the value in it (`filled`), runs the deferred clean-up with what `Set` will return (`cleaning`),
-- is about to remove the file (`removing`), or has its reply and is about to unlock.
pub data Phase : Type 0 where
  idle : Phase
  locked : Op → Phase
  created filled : String → Io → List ℕ → String → Phase
  cleaning : String → Io → List ℕ → String → Option GoError → Phase
  removing : String → Io → Phase
  replied : Op → Reply → Phase

-- `os.Rename`: what the temporary file holds stands under the path.
abbrev rename_file : String → String → Files → Option GoError × Files
rename_file temp path files = elim (lookup temp files) [
  | none ↦ (some (sentinel not_exist), files)
  | some held ↦ (none, insert path held (erase temp files))
]

abbrev remove_or_reply : String → Io → Option GoError → Phase
remove_or_reply key io none = removing key io
remove_or_reply key io (some e) =
    if is_not_exist e then replied (delete_op key io) (error none) else removing key io

-- `Set` after its write: `tmp.Close`, `os.Chmod` and `os.Rename`.
abbrev publish : FileStore → String → Io → List ℕ → String → Files → Phase × Files
publish fs key io value temp files = elim io.close [
  | some e ↦ (cleaning key io value temp (some e), files)
  | none ↦ elim io.chmod [
    | some e ↦ (cleaning key io value temp (some e), files)
    | none ↦ elim io.rename [
      | some e ↦ (cleaning key io value temp (some e), files)
      | none ↦
          let (e, left) = rename_file temp (file_path fs key) files in
          (cleaning key io value temp e, left)
    ]
  ]
]

-- The next step of a goroutine that holds a lock.
unfoldable pub advance : FileStore → Phase → Files → Phase × Files
unfolding has get stat clean_up
advance fs idle files = (idle, files)
advance fs (locked (has_op key io)) files =
    (replied (has_op key io) (found (has fs io key files)), files)
advance fs (locked (get_op key io)) files =
    (replied (get_op key io) (content (get fs io key files)), files)
advance fs (locked (delete_op key io)) files =
    (remove_or_reply key io (stat io (file_path fs key) files), files)
advance fs (locked (set_op key io value)) files = elim io.temp [
  | err e ↦ (replied (set_op key io value) (error (some e)), files)
  | ok temp ↦ (created key io value temp, insert temp [] files)
]
advance fs (created key io value temp) files = elim io.write [
  | some e ↦ (cleaning key io value temp (some e), insert temp io.partial files)
  | none ↦ (filled key io value temp, insert temp value files)
]
advance fs (filled key io value temp) files = publish fs key io value temp files
advance fs (cleaning key io value temp e) files =
    (replied (set_op key io value) (error e), clean_up io temp files)
advance fs (removing key io) files =
    let (e, left) = remove_file io (file_path fs key) files in
    (replied (delete_op key io) (error e), left)
advance fs (replied op reply) files = (replied op reply, files)

-- The key whose lock a goroutine holds for writing.
abbrev pub op_writes : Op → Option String
op_writes (delete_op key io) = some key
op_writes (set_op key io value) = some key
op_writes op = none

-- The key whose lock a goroutine holds for reading.
abbrev pub op_reads : Op → Option String
op_reads (has_op key io) = some key
op_reads (get_op key io) = some key
op_reads op = none

abbrev pub writing : Phase → Option String
writing idle = none
writing (locked op) = op_writes op
writing (created key io value temp) = some key
writing (filled key io value temp) = some key
writing (cleaning key io value temp e) = some key
writing (removing key io) = some key
writing (replied op reply) = op_writes op

abbrev pub reading : Phase → Option String
reading (locked op) = op_reads op
reading (replied op reply) = op_reads op
reading p = none

-- The temporary file that a goroutine has.
abbrev pub temp_of : Phase → Option String
temp_of (created key io value temp) = some temp
temp_of (filled key io value temp) = some temp
temp_of (cleaning key io value temp e) = some temp
temp_of p = none

abbrev pub named : Result String → Option String
named (ok temp) = some temp
named (err e) = none

-- The temporary file that the next step makes.
abbrev pub creates : Phase → Option String
creates (locked (set_op key io value)) = named io.temp
creates p = none

-- The files, the goroutines, and the calls that have returned, the last one last.
pub record System : Type 0 where
  pub files : Files
  pub phase : ℕ → Phase
  pub log : List (Op × Reply)

abbrev pub update : ℕ → Phase → (ℕ → Phase) → ℕ → Phase
update g p phase h = if h == g then p else phase h

-- `RLock` waits for a writer, and `Lock` for anyone.
abbrev pub MayLock : (ℕ → Phase) → Op → Type 0
MayLock phase op =
    ((h : ℕ) (key : String) → op_reads op ≡ some key → writing (phase h) ≢ some key)
    × ((h : ℕ) (key : String) → op_writes op ≡ some key → writing (phase h) ≢ some key)
    × ((h : ℕ) (key : String) → op_writes op ≡ some key → reading (phase h) ≢ some key)

module _ (fs : FileStore) (Used : String → Type 0) where
  -- The steps of the goroutines, in any order, in calls for the keys in use. `os.CreateTemp` makes a new file, whose name is that
  -- of no key's file and of no other goroutine's temporary file.
  pub data LockStep : System → System → Type 0 where
    acquire :
        (s : System) (g : ℕ) (op : Op)
        → s.phase g ≡ idle
        → Used (key_of_op op)
        → MayLock s.phase op
        → ((t key : String) → creates (locked op) ≡ some t → t ≢ file_path fs key)
        → LockStep s (record s { phase = update g (locked op) s.phase })
    work :
        (s : System) (g : ℕ) (p : Phase)
        → s.phase g ≡ p
        → ((h : ℕ) (t : String) → h ≢ g → creates p ≡ some t → temp_of (s.phase h) ≢ some t)
        → LockStep s (record s {
          files = (advance fs p s.files).1;
          phase = update g (advance fs p s.files).0 s.phase;
        })
    release :
        (s : System) (g : ℕ) (op : Op) (reply : Reply)
        → s.phase g ≡ replied op reply
        → LockStep s (record s { phase = update g idle s.phase; log = snoc s.log (op, reply) })

  pub data LockReach (s : System) : System → Type 0 where
    here : LockReach s s
    next : {t u : System} → LockReach s t → LockStep t u → LockReach s u

abbrev pub at_rest : Files → System
at_rest files = record { files = files; phase = λ g. idle; log = [] }

-- The files after these calls, one after another.
unfoldable pub after : FileStore → Files → List (Op × Reply) → Files
unfolding run_op
after fs files [] = files
after fs files ((op, reply) ∷ rest) = after fs (run_op fs op files).1 rest
