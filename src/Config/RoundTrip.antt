-- ===== src/Config/RoundTrip.antt =====
-- `WriteFile`, and `LoadFile` after it.
use credimi_runner.Prelude.{
  Bool, false, ◌≡◌, ◌≢◌, ◌⊎◌, inl, inr, refl, sym, ap, ◌∙◌, String, str_eq, Option, none, some,
}
use credimi_runner.GoError.{GoError, Result, ok, err}
use credimi_runner.Config.{Config}
use credimi_runner.Config.Checks.{Outside}
use credimi_runner.Config.Defaults.{Host, apply_defaults}
use credimi_runner.Config.Filled.{JoinsTmp, apply_defaults-again}
use credimi_runner.Config.Store.{
  StoreError, Loaded, loaded, not_loaded, Codec, read_cleanly, finished, configured_owner,
  inspected, default_and_check, load_file, write_encoded, before_write, write_checked, write_file,
}
use credimi_runner.Config.Loading.{Accepted, Accepted-iff, load_file_iff}
use credimi_runner.Disk.{File, regular, Disk, Faults, Written, wrapped, repaired, write_atomic}
use credimi_runner.Disk.Atomic.{write_atomic-IsWhole}

before_write_ok :
    (e : Option GoError) (disk : Disk) (rest : Disk × Option StoreError)
    → (before_write e disk rest).1 ≡ none
    → before_write e disk rest ≡ rest
before_write_ok none disk rest h = refl
before_write_ok (some e) disk rest h = cc

module _ (host : Host) (codec : Codec) (out : Outside) (goos : String) where
  module _ (faults : Faults) (lstat mkdir write : Option GoError) (temporary : String) (root : Bool)
      (path : String) (apart : temporary ≢ path) where
    abbrev written : Config → Disk → Disk × Option StoreError
    written = write_file host codec out goos faults lstat mkdir write temporary root path

    abbrev file_of : String → File
    file_of text = record {
      contents = text;
      perm = 384;
      owner = repaired (configured_owner host.env) root;
    }

    finished_ok :
        (disk : Disk) (e : Option GoError)
        → ((finished disk e).1 ≡ none → e ≡ none) × ((finished disk e).0 ≡ disk)
    finished_ok disk none = (λ h. refl, refl)
    finished_ok disk (some e) = (λ h. cc, refl)

    write_encoded_ok :
        (r : Result String) (disk : Disk)
        → let w =
            write_encoded host codec out goos faults lstat mkdir write temporary root path r disk in
          w.1 ≡ none → (text : String) × (r ≡ ok text) × (w.0 path ≡ some (regular (file_of text)))
    write_encoded_ok (err e) disk h = cc
    write_encoded_ok (ok text) disk h =
        let w : Written = record { text = text; error = write } in
        let whole =
          write_atomic-IsWhole faults temporary path 384 (configured_owner host.env) root w disk
            apart in
        let end = finished_ok _ _ in
        (text, refl, ap (λ (d : Disk). d path) end.1 ∙ whole.1 (end.0 h))

    write_checked_ok :
        (r : Loaded Config) (disk : Disk)
        → let w =
            write_checked host codec out goos faults lstat mkdir write temporary root path r disk in
          w.1 ≡ none
          → (c : Config) × (text : String) × (r ≡ loaded c)
            × (codec.encode c ≡ ok text)
            × (w.0 path ≡ some (regular (file_of text)))
    write_checked_ok (not_loaded e) disk h = cc
    write_checked_ok (loaded c) disk h =
        let inspect = before_write_ok (inspected lstat (disk path)) disk _ h in
        let h2 = sym (ap (λ (d : Disk × Option StoreError). d.1) inspect) ∙ h in
        let make = before_write_ok (wrapped "create config directory" mkdir) disk _ h2 in
        let h3 = sym (ap (λ (d : Disk × Option StoreError). d.1) make) ∙ h2 in
        let q = write_encoded_ok (codec.encode c) disk h3 in
        (c, q.0, refl, q.1, ap (λ (d : Disk × Option StoreError). d.0 path) (inspect ∙ make) ∙ q.2)

    -- The codec reads what it writes of the configuration with its defaults, and writes something.
    abbrev pub Decodes : Config → Type 0
    Decodes cfg =
        (c : Config) (text : String)
        → apply_defaults host cfg ≡ ok c
        → codec.encode c ≡ ok text
        → (codec.decode text ≡ ok c) × (str_eq text "" ≡ false)

    -- When `WriteFile` succeeds, a `LoadFile` of the same path returns the configuration that was
    -- written, with its defaults.
    pub load_file-write_file :
        (cfg : Config) (disk : Disk)
        → Decodes cfg
        → JoinsTmp host
        → (written cfg disk).1 ≡ none
        → (c : Config) × (apply_defaults host cfg ≡ ok c)
          × (load_file host codec out goos read_cleanly (written cfg disk).0 path ≡ loaded c)
    unfolding write_file
    load_file-write_file cfg disk decodes joins h =
        let q = write_checked_ok (default_and_check host codec out goos cfg) disk h in
        let accepted = (Accepted-iff host codec out goos cfg q.0).0 q.2 in
        let code = decodes q.0 q.1 accepted.0 q.3 in
        let again = apply_defaults-again host cfg q.0 joins accepted.0 in
        (
          q.0,
          accepted.0,
          (load_file_iff host codec out goos read_cleanly (written cfg disk).0 path q.0).1
              (file_of q.1, q.0, refl, refl, (q.4, code.1, refl), code.0, (again, accepted.1)),
        )

    -- What a write leaves at the path.
    abbrev Leaves : Loaded Config → Disk → Disk × Option StoreError → Type 0
    Leaves r disk w =
        (w.0 path ≡ disk path)
        ⊎ ((c : Config) × (text : String) × (r ≡ loaded c)
            × (codec.encode c ≡ ok text)
            × (w.0 path ≡ some (regular (file_of text))))

    before_write-Leaves :
        (r : Loaded Config) (e : Option GoError) (disk : Disk) (rest : Disk × Option StoreError)
        → Leaves r disk rest
        → Leaves r disk (before_write e disk rest)
    before_write-Leaves r none disk rest h = h
    before_write-Leaves r (some e) disk rest h = inl refl

    write_encoded-Leaves :
        (c : Config) (r : Result String) (disk : Disk)
        → codec.encode c ≡ r
        → Leaves
            (loaded c)
            disk
            (write_encoded host codec out goos faults lstat mkdir write temporary root path r disk)
    write_encoded-Leaves c (err e) disk h = inl refl
    write_encoded-Leaves c (ok text) disk h =
        let w : Written = record { text = text; error = write } in
        let whole =
          write_atomic-IsWhole faults temporary path 384 (configured_owner host.env) root w disk
            apart in
        let done =
          write_atomic faults temporary path 384 (configured_owner host.env) root (some w) disk in
        let end = finished_ok done.0 done.1 in
        let at = ap (λ (d : Disk). d path) end.1 in
        elim whole.0 [ inl e ↦ inl (at ∙ e) | inr e ↦ inr (c, text, refl, h, at ∙ e) ]

    write_checked-Leaves :
        (r : Loaded Config) (disk : Disk)
        → Leaves r disk
            (write_checked host codec out goos faults lstat mkdir write temporary root path r disk)
    write_checked-Leaves (not_loaded e) disk = inl refl
    write_checked-Leaves (loaded c) disk =
        before_write-Leaves (loaded c) (inspected lstat (disk path)) disk _ (
          before_write-Leaves (loaded c) (wrapped "create config directory" mkdir) disk _
            (write_encoded-Leaves c (codec.encode c) disk refl))

    -- Whether `WriteFile` succeeds or not, the path holds what it held before, or the whole
    -- encoded text of a configuration that is accepted, in a file with mode 0600.
    pub write_file-Leaves :
        (cfg : Config) (disk : Disk)
        → ((written cfg disk).0 path ≡ disk path)
          ⊎ ((c : Config) × (text : String) × Accepted host codec out goos cfg c
              × (codec.encode c ≡ ok text)
              × ((written cfg disk).0 path ≡ some (regular (file_of text))))
    unfolding write_file
    write_file-Leaves cfg disk =
        elim (write_checked-Leaves (default_and_check host codec out goos cfg) disk) [
          | inl e ↦ inl e
          | inr q ↦ inr (q.0, q.1, (Accepted-iff host codec out goos cfg q.0).0 q.2, q.3, q.4)
        ]
