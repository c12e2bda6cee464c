-- ===== src/Tests/Locking.antt =====
-- Two goroutines inside the methods of store/file.go at once.
use Prim.Native.Char.{Char, code}
use mathlib.Core.Path.{subst}
use text.Mathlib.TextLemmas.{cons-append, head-eq_of_cons-eq}
use cdc_trigger.Prelude.{
  ℕ, String, ◌≡◌, ◌≢◌, refl, sym, ap, ◌∙◌, ◌⊎◌, inl, inr, Option, some, str_eq, if◌then◌else◌, [],
  ◌∷◌, arith, lookup, insert,
}
use cdc_trigger.Errors.{ok}
use cdc_trigger.Store.FileStore.{FileStore, Files, file_path, get}
use cdc_trigger.Store.FileStore.Locks.{
  Op, get_op, set_op, content, idle, locked, advance, writing, temp_of, System, update, acquire,
  work, release, LockReach, here, next, at_rest, after,
}
use cdc_trigger.Store.FileStore.Locks.Invariant.{Sequential, each}
use cdc_trigger.Store.FileStore.Locks.Atomic.{locked_calls_atomic}
use cdc_trigger.Tests.Stores.{calm}
use cdc_trigger.Tests.Samples.{text_ne}

-- The MD5 sums of the keys in use.
abbrev md5 : String → String
md5 key =
    if str_eq key "a"
    then "0cc175b9c0f1b6a831c399e269772661"
    else if str_eq key "b"
    then "92eb5ffee6ae2fec3ad71c777531578f"
    else "d41d8cd98f00b204e9800998ecf8427e"

abbrev store : FileStore
store = record { dir = "data"; hex_md5 = md5; join = λ dir name. name }

-- The files of the two keys.
abbrev stored : Files
stored =
    ("cdc-trigger-0cc175b9c0f1b6a831c399e269772661", 1 ∷ [])
    ∷ ("cdc-trigger-92eb5ffee6ae2fec3ad71c777531578f", 2 ∷ [])
    ∷ []

abbrev Used : String → Type 0
Used key = (key ≡ "a") ⊎ (key ≡ "b")

paths_apart : file_path store "a" ≢ file_path store "b"
unfolding file_path
paths_apart =
    text_ne "cdc-trigger-0cc175b9c0f1b6a831c399e269772661"
      "cdc-trigger-92eb5ffee6ae2fec3ad71c777531578f" refl

paths_one_to_one : (a b : String) → Used a → Used b → file_path store a ≡ file_path store b → a ≡ b
paths_one_to_one a b (inl x) (inl y) e = x ∙ sym y
paths_one_to_one a b (inr x) (inr y) e = x ∙ sym y
paths_one_to_one a b (inl x) (inr y) e =
    absurd (paths_apart (sym (ap (file_path store) x) ∙ e ∙ ap (file_path store) y))
paths_one_to_one a b (inr x) (inl y) e =
    absurd (paths_apart (sym (ap (file_path store) y) ∙ sym e ∙ ap (file_path store) x))

abbrev first_of_temp : Char
first_of_temp = "t"

abbrev first_of_path : Char
first_of_path = "c"

temp_away : (key : String) → "tmp-1" ≢ file_path store key
unfolding file_path
temp_away key e =
    let same : first_of_temp ≡ first_of_path =
      head-eq_of_cons-eq (e ∙ cons-append first_of_path "dc-trigger-" (md5 key)) in
    absurd (omega (arith, ap code same))

abbrev writer : Op
writer = set_op "a" calm (5 ∷ [])

abbrev reader : Op
reader = get_op "b" calm

abbrev both : System
both = record (at_rest stored) {
  phase = update 1 (locked reader) (update 0 (locked writer) (λ g. idle));
}

-- The writer has made its temporary file.
abbrev writing_a : System
writing_a = record both {
  files = (advance store (locked writer) both.files).1;
  phase = update 0 (advance store (locked writer) both.files).0 both.phase;
}

-- The reader has read, and then returns.
abbrev read_b : System
read_b = record writing_a {
  files = (advance store (locked reader) writing_a.files).1;
  phase = update 1 (advance store (locked reader) writing_a.files).0 writing_a.phase;
}

abbrev returned_b : System
returned_b = record read_b {
  phase = update 1 idle read_b.phase;
  log = (reader, content (ok (2 ∷ []))) ∷ [];
}

a_not_b : ◌≡◌ {A = Option String} (some "a") (some "b") → ⊥
a_not_b e = let same : ◌≡◌ {A = String} "a" "b" = cc in text_ne "a" "b" refl same

no_b : (h : ℕ) → writing (update 0 (locked writer) (λ g. idle) h) ≢ some "b"
no_b =
    each (λ g p. writing p ≢ some "b") 0 (locked writer) (λ g. idle) a_not_b
      (λ h far e. absurd (ground (arith, e)))

no_temps : (t : String) (h : ℕ) → temp_of (both.phase h) ≢ some t
no_temps t =
    each (λ g p. temp_of p ≢ some t) 1 (locked reader) (update 0 (locked writer) (λ g. idle))
      (λ e. absurd (ground (arith, e)))
      (λ h far.
        each (λ g p. temp_of p ≢ some t) 0 (locked writer) (λ g. idle)
          (λ e. absurd (ground (arith, e))) (λ i apart e. absurd (ground (arith, e))) h)

four : LockReach store Used (at_rest stored) read_b
unfolding insert file_path
four =
    next
      (next
        (next
          (next here (
            acquire (at_rest stored) 0 writer refl (inl refl)
              (
                λ h key r e. absurd (ground (arith, e)),
                λ h key w e. absurd (ground (arith, e)),
                λ h key w e. absurd (ground (arith, e)),
              )
              (λ t key made.
                let same : ◌≡◌ {A = String} "tmp-1" t = cc in
                subst (λ x. x ≢ file_path store key) same (temp_away key))))
          (acquire _ 1 reader refl (inr refl)
            (
              λ h key r e. no_b h (e ∙ sym r),
              λ h key w e. absurd (ground (arith, w)),
              λ h key w e. absurd (ground (arith, w)),
            )
            (λ t key made. absurd (ground (arith, made)))))
        (work both 0 (locked writer) refl (λ h t far made. no_temps t h)))
      (work writing_a 1 (locked reader) refl (λ h t far made. absurd (ground (arith, made))))

went : LockReach store Used (at_rest stored) returned_b
unfolding advance get file_path lookup insert
went = next four (release read_b 1 reader (content (ok (2 ∷ []))) refl)

nobody_writes_b : (g : ℕ) → writing (returned_b.phase g) ≢ some "b"
unfolding advance
nobody_writes_b =
    each (λ g p. writing p ≢ some "b") 1 idle read_b.phase (λ e. absurd (ground (arith, e)))
      (each (λ g p. g ≢ 1 → writing p ≢ some "b") 1
        (advance store (locked reader) writing_a.files).0 writing_a.phase
        (λ far e. absurd (far refl))
        (each (λ g p. g ≢ 1 → g ≢ 1 → writing p ≢ some "b") 0
          (advance store (locked writer) both.files).0 both.phase (λ far away. a_not_b)
          (each (λ g p. g ≢ 0 → g ≢ 1 → g ≢ 1 → writing p ≢ some "b") 1 (locked reader)
            (update 0 (locked writer) (λ g. idle)) (λ other far. absurd (far refl))
            (λ h away other far near. no_b h))))

locked_calls_atomic_example :
    Sequential store stored returned_b.log
    × (lookup (file_path store "b") returned_b.files
        ≡ lookup (file_path store "b") (after store stored returned_b.log))
locked_calls_atomic_example =
    locked_calls_atomic store Used stored returned_b "b" paths_one_to_one (inr refl) went
      nobody_writes_b
