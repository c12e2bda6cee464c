-- ===== src/Store/FileStore/Locks/Effects.antt =====
-- What one call of store/file.go does to the file of its key, and to no other.
use cdc_trigger.Prelude.{
  ℕ, String, ◌≡◌, ◌≢◌, refl, sym, ap, ◌∙◌, inl, inr, Bool, true, false, Option, none, some, List,
  arith, lookup, lookup-erase, eq_iff, eq_refl, if◌then◌else◌, Option-cases,
}
use cdc_trigger.Errors.{GoError, sentinel, not_exist, Result, ok, err, Result-cases}
use cdc_trigger.Store.FileStore.{
  FileStore, Files, Io, file_path, stat, has, get, delete, set, set_steps, set_from, is_not_exist,
}
use cdc_trigger.Store.FileStore.Laws.{content_after, lookup-set}
use cdc_trigger.Store.FileStore.Locks.{
  key_of_op, Op, has_op, get_op, delete_op, set_op, Reply, found, content, error, run_op, locked,
  creates, named, op_writes,
}

abbrev pub Held : Type 0
Held = Option (List ℕ)

abbrev pub stat_held : Io → Held → Option GoError
stat_held io held = elim io.stat [
  | some e ↦ some e
  | none ↦ elim held [ none ↦ some (sentinel not_exist) | some c ↦ none ]
]

abbrev pub remove_held : Io → Held → Option GoError × Held
remove_held io held = elim io.remove [
  | some e ↦ (some e, held)
  | none ↦ elim held [ none ↦ (some (sentinel not_exist), none) | some c ↦ (none, none) ]
]

abbrev pub delete_held : Io → Held → Option GoError × Held
delete_held io held = elim (stat_held io held) [
  | none ↦ remove_held io held
  | some e ↦ if is_not_exist e then (none, held) else remove_held io held
]

-- What `Set` returns is decided by the answers of the system.
abbrev pub set_result : Io → Option GoError
set_result io = elim io.temp [
  | err e ↦ some e
  | ok temp ↦ elim io.write [
    | some e ↦ some e
    | none ↦ elim io.close [
      | some e ↦ some e
      | none ↦ elim io.chmod [ some e ↦ some e | none ↦ io.rename ]
    ]
  ]
]

abbrev pub set_held : Option GoError → List ℕ → Held → Held
set_held none value held = some value
set_held (some e) value held = held

abbrev pub get_held : Io → Held → Result (List ℕ)
get_held io held = elim io.read [
  | some e ↦ err e
  | none ↦ elim held [ none ↦ err (sentinel not_exist) | some c ↦ ok c ]
]

abbrev is_there : Option GoError → Bool
is_there none = true
is_there (some e) = false

-- The reply of a call, and what the file of its key then holds.
abbrev pub effect : Op → Held → Reply × Held
effect (has_op key io) held = (found (is_there (stat_held io held)), held)
effect (get_op key io) held = (content (get_held io held), held)
effect (delete_op key io) held = let (e, left) = delete_held io held in (error e, left)
effect (set_op key io value) held = (error (set_result io), set_held (set_result io) value held)

module _ (fs : FileStore) (io : Io) (key : String) (files : Files) where
  abbrev path : String
  path = file_path fs key

  pub stat-stat_held : stat io path files ≡ stat_held io (lookup path files)
  unfolding stat
  stat-stat_held = ground arith

  pub has-held : has fs io key files ≡ is_there (stat_held io (lookup path files))
  unfolding has stat
  has-held = ground arith

  pub get-held : get fs io key files ≡ get_held io (lookup path files)
  unfolding get
  get-held = ground arith

  pub delete-held :
      ((delete fs io key files).0 ≡ (delete_held io (lookup path files)).0)
      × (lookup path (delete fs io key files).1 ≡ (delete_held io (lookup path files)).1)
  unfolding delete stat
  delete-held = (
    ground (arith, lookup-erase path path files, eq_refl path),
    ground (arith, lookup-erase path path files, eq_refl path),
  )

  pub delete-other : (j : String) → path ≢ j → lookup j (delete fs io key files).1 ≡ lookup j files
  unfolding delete stat
  delete-other j apart = ground (arith, lookup-erase path j files, eq_iff path j, apart)

  pub set-result : (value : List ℕ) → (set fs io key value files).0 ≡ set_result io
  unfolding set set_steps set_from
  set-result value = ground arith

module _ (fs : FileStore) (io : Io) (key : String) (value : List ℕ) (files : Files) where
  -- Without a temporary file nothing is written.
  set-unnamed : (e : GoError) → io.temp ≡ err e → (set fs io key value files).1 ≡ files
  unfolding set set_steps
  set-unnamed e h = ground (arith, h)

  set-content :
      (j : String)
      → ((t : String) → named io.temp ≡ some t → t ≢ file_path fs key)
      → ((t : String) → named io.temp ≡ some t → t ≢ j)
      → lookup j (set fs io key value files).1
        ≡ content_after (set fs io key value files).0 (file_path fs key) value j (lookup j files)
  set-content j apart other = elim (Result-cases io.temp) [
    | inl (e, failed) ↦
        let report : (set fs io key value files).0 ≡ some e =
          set-result fs io key files value ∙ ground (arith, failed) in
        ap (lookup j) (set-unnamed e failed)
        ∙ sym (ap (λ r. content_after r (file_path fs key) value j (lookup j files)) report)
    | inr (t, made) ↦
        (lookup-set fs io key t j value files made (apart t (ground (arith, made)))
          (other t (ground (arith, made)))).0
  ]

  pub set-held :
      ((t : String) → named io.temp ≡ some t → t ≢ file_path fs key)
      → lookup (file_path fs key) (set fs io key value files).1
        ≡ set_held (set_result io) value (lookup (file_path fs key) files)
  set-held apart =
      set-content (file_path fs key) apart apart
      ∙ ap
          (λ r.
            content_after r (file_path fs key) value (file_path fs key)
              (lookup (file_path fs key) files))
          (set-result fs io key files value)
      ∙ elim (Option-cases (set_result io)) [
        | inl fine ↦ rw fine (ground (arith, eq_refl (file_path fs key)))
        | inr (e, failed) ↦ rw failed refl
      ]

  pub set-other :
      (j : String)
      → ((t : String) → named io.temp ≡ some t → t ≢ file_path fs key)
      → ((t : String) → named io.temp ≡ some t → t ≢ j)
      → file_path fs key ≢ j
      → lookup j (set fs io key value files).1 ≡ lookup j files
  set-other j apart other away =
      set-content j apart other ∙ elim (Option-cases (set fs io key value files).0) [
        | inl fine ↦ rw fine (ground (arith, eq_iff (file_path fs key) j, away))
        | inr (e, failed) ↦ rw failed refl
      ]

-- The temporary file of a call has the name of no key's file.
abbrev pub Apart : FileStore → Op → Type 0
Apart fs op = (t key : String) → creates (locked op) ≡ some t → t ≢ file_path fs key

pub run_op-effect :
    (fs : FileStore) (op : Op) (files : Files)
    → Apart fs op
    → let held = lookup (file_path fs (key_of_op op)) files in
      ((run_op fs op files).0 ≡ (effect op held).0)
      × (lookup (file_path fs (key_of_op op)) (run_op fs op files).1 ≡ (effect op held).1)
unfolding run_op
run_op-effect fs (has_op key io) files apart = (ap found (has-held fs io key files), refl)
run_op-effect fs (get_op key io) files apart = (ap content (get-held fs io key files), refl)
run_op-effect fs (delete_op key io) files apart =
    let (told, left) = delete-held fs io key files in (ap error told, left)
run_op-effect fs (set_op key io value) files apart = (
  ap error (set-result fs io key files value),
  set-held fs io key value files (λ t h. apart t key h),
)

pub run_op-other :
    (fs : FileStore) (op : Op) (files : Files) (key : String)
    → Apart fs op
    → file_path fs (key_of_op op) ≢ file_path fs key
    → lookup (file_path fs key) (run_op fs op files).1 ≡ lookup (file_path fs key) files
unfolding run_op
run_op-other fs (has_op k io) files key apart away = refl
run_op-other fs (get_op k io) files key apart away = refl
run_op-other fs (delete_op k io) files key apart away =
    delete-other fs io k files (file_path fs key) away
run_op-other fs (set_op k io value) files key apart away =
    set-other fs io k value files (file_path fs key) (λ t h. apart t k h) (λ t h. apart t key h)
      away

-- A call under a read lock leaves the file as it is.
pub effect-reader : (op : Op) (held : Held) → op_writes op ≡ none → (effect op held).1 ≡ held
effect-reader (has_op key io) held h = refl
effect-reader (get_op key io) held h = refl
effect-reader (delete_op key io) held h = absurd (ground (arith, h))
effect-reader (set_op key io value) held h = absurd (ground (arith, h))
