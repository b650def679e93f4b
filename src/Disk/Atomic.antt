-- ===== src/Disk/Atomic.antt =====
-- What a reader of the destination of `writeAtomic` can find.
use credimi_runner.Prelude.{
  ℕ, Bool, ◌≡◌, ◌≢◌, ◌⊎◌, inl, inr, refl, sym, ◌∙◌, String, str_eq, eq_iff, Option, none, some,
  arith, if◌then◌else◌,
}
use credimi_runner.GoError.{GoError, message}
use credimi_runner.Disk.{
  Ownership, File, Entry, regular, Disk, set_entry, Faults, Done, or_fail, wrapped, repaired,
  chown_error, Written, new_file, replace, write_atomic,
}

or_fail_lem :
    (P : Done → Type 0) (e : Option GoError) (disk : Disk) (rest : Done)
    → ((x : GoError) → P (disk, some x))
    → P rest
    → P (or_fail e disk rest)
or_fail_lem P none disk rest bad good = good
or_fail_lem P (some x) disk rest bad good = bad x

set_entry_same : (p : String) (e : Option Entry) (disk : Disk) → set_entry p e disk p ≡ e
set_entry_same p e disk = ground (arith, eq_iff p p)

set_entry_other :
    (p : String) (e : Option Entry) (disk : Disk) (q : String)
    → q ≢ p
    → set_entry p e disk q ≡ disk q
set_entry_other p e disk q n = ground (arith, eq_iff q p)

module _ (faults : Faults) (temporary path : String) (perm : ℕ) (owner : Option Ownership)
    (root : Bool) (w : Written) (disk : Disk) (apart : temporary ≢ path) where
  abbrev pub target : Option Entry
  target = some (new_file faults temporary path perm owner root w)

  -- The destination is old or new, and new after a success; other files are as they were.
  abbrev pub IsWhole : Done → Type 0
  IsWhole d =
      ((d.0 path ≡ disk path) ⊎ (d.0 path ≡ target))
      × (d.1 ≡ none → d.0 path ≡ target)
      × ((q : String) → q ≢ path → q ≢ temporary → d.0 q ≡ disk q)

  unchanged-IsWhole : (x : GoError) → IsWhole (disk, some x)
  unchanged-IsWhole x = (inl refl, λ h. cc, λ q n m. refl)

  -- Failures while the temporary file is written.
  writing-IsWhole : (t : Option Entry) (x : GoError) → IsWhole (set_entry temporary t disk, some x)
  writing-IsWhole t x = (
    inl (set_entry_other temporary t disk path (λ e. apart (sym e))),
    λ h. cc,
    λ q n m. set_entry_other temporary t disk q m,
  )

  renamed-IsWhole :
      (e : Option GoError) → IsWhole (set_entry path target (set_entry temporary none disk), e)
  renamed-IsWhole e =
      let moved = set_entry temporary none disk in
      let new = set_entry_same path target moved in
      (
        inr new,
        λ h. new,
        λ q n m. set_entry_other path target moved q n ∙ set_entry_other temporary none disk q m,
      )

  -- A call that may fail while the temporary file is there, and the calls after it.
  writing :
      (e : Option GoError) (f : File) {rest : Done}
      → IsWhole rest
      → IsWhole (or_fail e (set_entry temporary (some (regular f)) disk) rest)
  writing e f h = or_fail_lem IsWhole e _ _ (writing-IsWhole (some (regular f))) h

  -- The same after the rename.
  syncing :
      (e : Option GoError) {rest : Done}
      → IsWhole rest
      → IsWhole (or_fail e (set_entry path target (set_entry temporary none disk)) rest)
  syncing e h = or_fail_lem IsWhole e _ _ (λ x. renamed-IsWhole (some x)) h

  -- A call that may fail before there is a temporary file.
  preparing : (e : Option GoError) {rest : Done} → IsWhole rest → IsWhole (or_fail e disk rest)
  preparing e h = or_fail_lem IsWhole e disk _ unchanged-IsWhole h

  abbrev empty_file : ℕ → Option Ownership → File
  empty_file mode o = record { contents = ""; perm = mode; owner = o }

  abbrev filled : File
  filled = record { contents = w.text; perm = perm; owner = repaired owner root }

  replace-IsWhole : IsWhole (replace faults temporary path perm owner root w disk)
  replace-IsWhole = writing faults.chmod (empty_file 384 none) (
      writing (wrapped "set atomic file owner" (chown_error (repaired owner root) faults.chown))
        (empty_file perm none)
        (writing w.error filled (
          writing faults.sync filled (
            writing faults.close filled (
              writing (wrapped "replace atomic file" faults.rename) filled (
                syncing (wrapped "open atomic file directory" faults.open_dir) (
                  syncing (wrapped "sync atomic file directory" faults.sync_dir) (
                    renamed-IsWhole (wrapped "close atomic file directory" faults.close_dir)))))))))

  removed-IsWhole : (d : Done) → IsWhole d → IsWhole (set_entry temporary none d.0, d.1)
  removed-IsWhole d h =
      let same = λ (q : String) (m : q ≢ temporary). set_entry_other temporary none d.0 q m in
      let at = same path (λ e. apart (sym e)) in
      (
        elim h.0 [ inl e ↦ inl (at ∙ e) | inr e ↦ inr (at ∙ e) ],
        λ e. at ∙ h.1 e,
        λ q n m. same q m ∙ h.2 q n m,
      )

  abbrev path_error : Option GoError
  path_error = if str_eq path "" then some (message "atomic file path is empty") else none

  abbrev after : Done
  after = write_atomic faults temporary path perm owner root (some w) disk

  -- A reader of the path finds the whole old entry or the whole new file, and after a success the
  -- new file, with the contents and the mode asked for; no other path but the temporary one
  -- changes.
  pub write_atomic-IsWhole : IsWhole after
  unfolding write_atomic
  write_atomic-IsWhole = preparing path_error (
      preparing (wrapped "create atomic file directory" faults.mkdir) (
        preparing (wrapped "create atomic file temporary" faults.create)
          (removed-IsWhole _ replace-IsWhole)))

  -- The temporary file does not outlive the call.
  pub write_atomic-tidy : disk temporary ≡ none → after.0 temporary ≡ none
  unfolding write_atomic
  write_atomic-tidy unused =
      let IsTidy = λ (d : Done). d.0 temporary ≡ none in
      or_fail_lem IsTidy path_error _ _ (λ x. unused)
        (or_fail_lem IsTidy (wrapped "create atomic file directory" faults.mkdir) _ _ (λ x. unused)
          (or_fail_lem IsTidy (wrapped "create atomic file temporary" faults.create) _ _
            (λ x. unused)
            (set_entry_same temporary none
              (replace faults temporary path perm owner root w disk).0)))
