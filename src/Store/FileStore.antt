-- ===== src/Store/FileStore.antt =====
-- store/file.go: one file for each key, replaced by a rename. Here a call is one sequence of steps on
-- the files; Locks has many calls at once.
pub mod Laws
pub mod Crash
pub mod Removal
pub mod Locks
use Prim.Native.String.{◌++◌ as str_append}
use cdc_trigger.Prelude.{
  ℕ, String, Bool, true, false, Option, none, some, List, [], ◌∷◌, lookup, insert, erase, str_eq,
  if◌then◌else◌,
}
use cdc_trigger.Errors.{GoError, sentinel, not_exist, Result, ok, err}
use cdc_trigger.Store.{StoreApi}

-- The regular files below the directory, by path.
abbrev pub Files : Type 0
Files = List (String × List ℕ)

abbrev pub key_prefix : String
key_prefix = "cdc-trigger-"

-- The directory, the hex form of the MD5 sum, and `filepath.Join`.
pub record FileStore : Type 0 where
  pub dir : String
  pub hex_md5 : String → String
  pub join : String → String → String

-- `NewFileStore` with its configuration, the directory for temporary files, and what `os.MkdirAll`
-- reports for a directory.
unfoldable pub new_file_store :
    (String → String)
    → (String → String → String)
    → String
    → (String → Option GoError)
    → String
    → Result FileStore
new_file_store hex_md5 join temp_dir mkdir_all configured =
    let dir = if str_eq configured "" then temp_dir else configured in
    elim (mkdir_all dir) [
      | some e ↦ err e
      | none ↦ ok (record { dir = dir; hex_md5 = hex_md5; join = join })
    ]

unfoldable pub file_path : FileStore → String → String
file_path fs key = fs.join fs.dir (str_append key_prefix (fs.hex_md5 key))

-- What the operating system answers to the calls of one method: an error where one occurs, the
-- name of the temporary file, and how much of a failed write reached it.
pub record Io : Type 0 where
  pub temp : Result String
  pub write : Option GoError
  pub partial : List ℕ
  pub close : Option GoError
  pub chmod : Option GoError
  pub rename : Option GoError
  pub remove : Option GoError
  pub stat : Option GoError
  pub read : Option GoError

-- `os.Stat`: an error of the system, or that of a file which is not there.
unfoldable pub stat : Io → String → Files → Option GoError
stat io path files = elim io.stat [
  | some e ↦ some e
  | none ↦ elim (lookup path files) [ none ↦ some (sentinel not_exist) | some content ↦ none ]
]

unfoldable pub has : FileStore → Io → String → Files → Bool
unfolding stat
has fs io key files = elim (stat io (file_path fs key) files) [ none ↦ true | some e ↦ false ]

unfoldable pub get : FileStore → Io → String → Files → Result (List ℕ)
get fs io key files = elim io.read [
  | some e ↦ err e
  | none ↦ elim (lookup (file_path fs key) files) [
    | none ↦ err (sentinel not_exist)
    | some content ↦ ok content
  ]
]

-- `os.Remove`: an error of the system, or that of a file which is not there.
abbrev pub remove_file : Io → String → Files → Option GoError × Files
remove_file io path files = elim io.remove [
  | some e ↦ (some e, files)
  | none ↦ elim (lookup path files) [
    | none ↦ (some (sentinel not_exist), files)
    | some content ↦ (none, erase path files)
  ]
]

-- The error `os.IsNotExist` looks for.
abbrev pub is_not_exist : GoError → Bool
is_not_exist (sentinel not_exist) = true
is_not_exist e = false

unfoldable pub delete : FileStore → Io → String → Files → Option GoError × Files
unfolding stat
delete fs io key files = elim (stat io (file_path fs key) files) [
  | none ↦ remove_file io (file_path fs key) files
  | some e ↦ elim (is_not_exist e) [
    | true ↦ (none, files)
    | false ↦ remove_file io (file_path fs key) files
  ]
]

-- The deferred function of `Set`: what is left of the temporary file is removed.
unfoldable pub clean_up : Io → String → Files → Files
unfolding stat
clean_up io temp files = elim (stat io temp files) [
  | some e ↦ files
  | none ↦ (remove_file io temp files).1
]

-- The result of `Set`, the files it leaves, and the files as they stood after each of its steps.
pub record Written : Type 0 where
  pub result : Option GoError
  pub files : Files
  pub visited : List Files

abbrev give_up : Io → String → GoError → Files → List Files → Written
give_up io temp e files visited = record {
  result = some e;
  files = clean_up io temp files;
  visited = clean_up io temp files ∷ visited;
}

-- `Set` from the temporary file on.
unfoldable pub set_from : Io → String → String → List ℕ → Files → Written
unfolding clean_up
set_from io temp path value files =
    let made = insert temp [] files in
    let full = insert temp value made in
    let part = insert temp io.partial made in
    elim io.write [
      | some e ↦ give_up io temp e part (part ∷ made ∷ files ∷ [])
      | none ↦ elim io.close [
        | some e ↦ give_up io temp e full (full ∷ made ∷ files ∷ [])
        | none ↦ elim io.chmod [
          | some e ↦ give_up io temp e full (full ∷ made ∷ files ∷ [])
          | none ↦ elim io.rename [
            | some e ↦ give_up io temp e full (full ∷ made ∷ files ∷ [])
            | none ↦ record {
              result = none;
              files = clean_up io temp (insert path value (erase temp full));
              visited =
                  clean_up io temp (insert path value (erase temp full))
                  ∷ insert path value (erase temp full)
                  ∷ full
                  ∷ made
                  ∷ files
                  ∷ [];
            }
          ]
        ]
      ]
    ]

unfoldable pub set_steps : FileStore → Io → String → List ℕ → Files → Written
unfolding set_from
set_steps fs io key value files = elim io.temp [
  | err e ↦ record { result = some e; files = files; visited = files ∷ [] }
  | ok temp ↦ set_from io temp (file_path fs key) value files
]

unfoldable pub set : FileStore → Io → String → List ℕ → Files → Option GoError × Files
unfolding set_steps
set fs io key value files = let w = set_steps fs io key value files in (w.result, w.files)

abbrev pub file_store_api : FileStore → StoreApi Io Files
file_store_api fs = record { get = get fs; has = has fs; set = set fs; delete = delete fs }
