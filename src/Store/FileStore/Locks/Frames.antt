-- ===== src/Store/FileStore/Locks/Frames.antt =====
-- What a step of a goroutine inside a method of store/file.go leaves alone.
use cdc_trigger.Prelude.{
  String, ◌≡◌, ◌≢◌, refl, sym, ◌∙◌, ◌⊎◌, inl, inr, none, some, [], arith, lookup, erase,
  lookup-insert, lookup-erase, eq_iff, Option-cases,
}
use cdc_trigger.Errors.{Result-cases}
use cdc_trigger.Store.FileStore.{FileStore, Files, file_path}
use cdc_trigger.Store.FileStore.Laws.{lookup-clean_up}
use cdc_trigger.Store.FileStore.Locks.{
  key_of_op, op_writes, Op, has_op, get_op, delete_op, set_op, Phase, idle, locked, created, filled,
  cleaning, removing, replied, advance, writing, reading, temp_of, creates,
}
use cdc_trigger.Store.FileStore.Locks.Phases.{key_of, op_of, StandsIn}

-- The lock, its kind and its key, and the temporary file, which is the one before or a new one.
pub record Keeps (p q : Phase) : Type 0 where
  pub writes : writing q ≡ writing p
  pub reads : reading q ≡ reading p
  pub key : key_of q ≡ key_of p
  pub call : op_of q ≡ op_of p
  pub temps : (t : String) → temp_of q ≡ some t → (creates p ≡ some t) ⊎ (temp_of p ≡ some t)
  pub fresh : creates q ≡ none

module _ (fs : FileStore) where
  pub advance-Keeps : (p : Phase) (files : Files) → Keeps p (advance fs p files).0
  unfolding advance
  advance-Keeps idle files = record {
    writes = ground arith;
    reads = ground arith;
    key = ground arith;
    call = ground arith;
    temps = λ t h. ground arith;
    fresh = ground arith;
  }
  advance-Keeps (locked (has_op key io)) files = record {
    writes = ground arith;
    reads = ground arith;
    key = ground arith;
    call = ground arith;
    temps = λ t h. ground arith;
    fresh = ground arith;
  }
  advance-Keeps (locked (get_op key io)) files = record {
    writes = ground arith;
    reads = ground arith;
    key = ground arith;
    call = ground arith;
    temps = λ t h. ground arith;
    fresh = ground arith;
  }
  advance-Keeps (locked (delete_op key io)) files = record {
    writes = ground arith;
    reads = ground arith;
    key = ground arith;
    call = ground arith;
    temps = λ t h. ground arith;
    fresh = ground arith;
  }
  advance-Keeps (locked (set_op key io value)) files = record {
    writes = ground arith;
    reads = ground arith;
    key = ground arith;
    call = ground arith;
    temps = λ t h. ground arith;
    fresh = ground arith;
  }
  advance-Keeps (created key io value temp) files = record {
    writes = ground arith;
    reads = ground arith;
    key = ground arith;
    call = ground arith;
    temps = λ t h. ground arith;
    fresh = ground arith;
  }
  advance-Keeps (filled key io value temp) files = record {
    writes = ground arith;
    reads = ground arith;
    key = ground arith;
    call = ground arith;
    temps = λ t h. ground arith;
    fresh = ground arith;
  }
  advance-Keeps (cleaning key io value temp e) files = record {
    writes = ground arith;
    reads = ground arith;
    key = ground arith;
    call = ground arith;
    temps = λ t h. ground arith;
    fresh = ground arith;
  }
  advance-Keeps (removing key io) files = record {
    writes = ground arith;
    reads = ground arith;
    key = ground arith;
    call = ground arith;
    temps = λ t h. ground arith;
    fresh = ground arith;
  }
  advance-Keeps (replied op reply) files = record {
    writes = ground arith;
    reads = ground arith;
    key = ground arith;
    call = ground arith;
    temps = λ t h. ground arith;
    fresh = ground arith;
  }

  -- A file that is neither that of the key a goroutine writes nor its temporary one.
  pub advance-other :
      (p : Phase) (files : Files) (j : String)
      → ((key : String) → writing p ≡ some key → file_path fs key ≢ j)
      → ((t : String) → (creates p ≡ some t) ⊎ (temp_of p ≡ some t) → t ≢ j)
      → lookup j (advance fs p files).1 ≡ lookup j files
  unfolding advance
  advance-other idle files j away apart = refl
  advance-other (locked (has_op key io)) files j away apart = refl
  advance-other (locked (get_op key io)) files j away apart = refl
  advance-other (locked (delete_op key io)) files j away apart = refl
  advance-other (locked (set_op key io value)) files j away apart = elim (Result-cases io.temp) [
    | inl (e, failed) ↦ ground (arith, failed)
    | inr (t, made) ↦
        ground (
          arith,
          made,
          lookup-insert t j [] files,
          eq_iff t j,
          apart t (inl (ground (arith, made))),
        )
  ]
  advance-other (created key io value temp) files j away apart = ground (
    arith,
    lookup-insert temp j io.partial files,
    lookup-insert temp j value files,
    eq_iff temp j,
    apart temp (inr refl),
  )
  advance-other (filled key io value temp) files j away apart =
      elim (Option-cases (lookup temp files)) [
        | inl gone ↦ ground (arith, gone)
        | inr (v, full) ↦ ground (
          arith,
          full,
          lookup-insert (file_path fs key) j v (erase temp files),
          lookup-erase temp j files,
          eq_iff temp j,
          eq_iff (file_path fs key) j,
          apart temp (inr refl),
          away key refl,
        )
      ]
  advance-other (cleaning key io value temp e) files j away apart =
      lookup-clean_up io temp j files (apart temp (inr refl))
  advance-other (removing key io) files j away apart =
      ground
        (arith, lookup-erase (file_path fs key) j files, eq_iff (file_path fs key) j, away key refl)
  advance-other (replied op reply) files j away apart = refl

-- A goroutine that is not idle holds the lock of its key.
abbrev pub Locks : Phase → Type 0
Locks p = (writing p ≡ some (key_of p)) ⊎ (reading p ≡ some (key_of p))

pub writes-key : (op : Op) (key : String) → op_writes op ≡ some key → key_of_op op ≡ key
writes-key (has_op k io) key h = absurd (ground (arith, h))
writes-key (get_op k io) key h = absurd (ground (arith, h))
writes-key (delete_op k io) key h = cc
writes-key (set_op k io value) key h = cc

pub op-Locks : (op : Op) → Locks (locked op)
op-Locks (has_op key io) = inr refl
op-Locks (get_op key io) = inr refl
op-Locks (delete_op key io) = inl refl
op-Locks (set_op key io value) = inl refl

-- A goroutine that holds a lock is in a call for its key.
pub call_of : (p : Phase) → Locks p → (op : Op) × (op_of p ≡ some op) × (key_of_op op ≡ key_of p)
call_of idle held = absurd (elim held [ inl w ↦ ground (arith, w) | inr r ↦ ground (arith, r) ])
call_of (locked op) held = (op, refl, refl)
call_of (created key io value temp) held = (set_op key io value, refl, refl)
call_of (filled key io value temp) held = (set_op key io value, refl, refl)
call_of (cleaning key io value temp e) held = (set_op key io value, refl, refl)
call_of (removing key io) held = (delete_op key io, refl, refl)
call_of (replied op reply) held = (op, refl, refl)

pub writing-key : (p : Phase) (key : String) → writing p ≡ some key → key_of p ≡ key
writing-key idle key w = absurd (ground (arith, w))
writing-key (locked op) key w = writes-key op key w
writing-key (created k io value temp) key w = cc
writing-key (filled k io value temp) key w = cc
writing-key (cleaning k io value temp e) key w = cc
writing-key (removing k io) key w = cc
writing-key (replied op reply) key w = writes-key op key w

-- A goroutine stands where it stood if nobody else changed the file of its key, what that file would
-- hold, or its temporary file.
pub StandsIn-frame :
    (fs : FileStore) (p : Phase) (files files' r r' : Files)
    → (Locks p → lookup (file_path fs (key_of p)) files' ≡ lookup (file_path fs (key_of p)) files)
    → (Locks p → lookup (file_path fs (key_of p)) r' ≡ lookup (file_path fs (key_of p)) r)
    → ((t : String) → temp_of p ≡ some t → lookup t files' ≡ lookup t files)
    → StandsIn fs p files r
    → StandsIn fs p files' r'
StandsIn-frame fs idle files files' r r' c d t v = tt
StandsIn-frame fs (locked op) files files' r r' c d t v =
    c (op-Locks op) ∙ v ∙ sym (d (op-Locks op))
StandsIn-frame fs (created key io value temp) files files' r r' c d t (known, same) =
    (known, c (inl refl) ∙ same ∙ sym (d (inl refl)))
StandsIn-frame fs (filled key io value temp) files files' r r' c d t (known, wrote, same, full) =
    (known, wrote, c (inl refl) ∙ same ∙ sym (d (inl refl)), t temp refl ∙ full)
StandsIn-frame fs (cleaning key io value temp e) files files' r r' c d t (told, left) =
    (told, rw (c (inl refl), d (inl refl)) left)
StandsIn-frame fs (removing key io) files files' r r' c d t (same, removes) =
    (c (inl refl) ∙ same ∙ sym (d (inl refl)), rw (d (inl refl)) removes)
StandsIn-frame fs (replied op reply) files files' r r' c d t (told, left) =
    let unread = c (op-Locks op) in
    let unrun = d (op-Locks op) in (rw unrun told, rw (unread, unrun) left)
