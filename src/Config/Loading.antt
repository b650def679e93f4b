-- ===== src/Config/Loading.antt =====
-- What `LoadFile` accepts.
use credimi_runner.Prelude.{
  true, false, ◌≡◌, ◌↔◌, refl, sym, ap, subst, ◌∙◌, String, str_eq, Option, none, some,
  if◌then◌else◌, arith,
}
use credimi_runner.GoError.{GoError, message, Result, ok, err}
use credimi_runner.Config.{Config}
use credimi_runner.Config.Checks.{ConfigError, Outside}
use credimi_runner.Config.Validate.{validate_for_platform}
use credimi_runner.Config.Valid.{IsValid}
use credimi_runner.Config.DeviceRules.{Visits}
use credimi_runner.Config.Soundness.{validate_iff}
use credimi_runner.Config.Defaults.{Host, apply_defaults}
use credimi_runner.Config.Filled.{ok_injective}
use credimi_runner.Config.Store.{
  failure, Loaded, loaded, not_loaded, Codec, ReadFaults, is_private, read_found, read_config_file,
  checked, after_read, wrap_result, default_and_check, load_config_bytes, load_file,
}
use credimi_runner.Disk.{File, Entry, regular, symlink, irregular, Disk}

-- A file that may be read: a regular one, not empty, and private to its owner.
abbrev pub Readable : Option Entry → File → Type 0
Readable found f =
    (found ≡ some (regular f)) × (str_eq f.contents "" ≡ false) × (is_private f.perm ≡ true)

Readable-iff :
    (lstat fault : Option GoError) (found : Option Entry) (text : String)
    → (read_found lstat fault found ≡ ok text)
      ↔ ((f : File) × (lstat ≡ none) × (fault ≡ none) × Readable found f × (f.contents ≡ text))
Readable-iff (some e) fault found text = (λ h. cc, λ h. let q = h.1 in cc)
Readable-iff none fault none text = (λ h. cc, λ h. let q = h.3.0 in cc)
Readable-iff none fault (some symlink) text = (λ h. cc, λ h. let q = h.3.0 in cc)
Readable-iff none fault (some irregular) text = (λ h. cc, λ h. let q = h.3.0 in cc)
Readable-iff none (some e) (some (regular f)) text = (λ h. ground arith, λ h. let q = h.2 in cc)
Readable-iff none none (some (regular f)) text =
    (λ h. (f, refl, refl, ground arith, ground arith), λ h. readable (h.0) h.3 h.4)
  where
    readable :
        (g : File)
        → Readable (some (regular f)) g
        → g.contents ≡ text
        → read_found none none (some (regular f)) ≡ ok text
    readable g r e = ground arith

after_read_iff :
    {A B : Type 0} (r : Result A) (k : A → Loaded B) (b : B)
    → (after_read r k ≡ loaded b) ↔ ((a : A) × (r ≡ ok a) × (k a ≡ loaded b))
after_read_iff (ok a) k b = (λ h. (a, refl, h), λ h. ap k (ok_injective _ _ h.1) ∙ h.2)
after_read_iff (err e) k b = (λ h. cc, λ h. let q = h.1 in cc)

checked_iff :
    (e : Option ConfigError) (a c : Config) → (checked e a ≡ loaded c) ↔ ((e ≡ none) × (a ≡ c))
checked_iff none a c = (λ h. (refl, cc), λ h. ap loaded h.1)
checked_iff (some x) a c = (λ h. cc, λ h. let q = h.0 in cc)

wrap_result_iff :
    (text : String) (r : Result Config) (c : Config) → (wrap_result text r ≡ ok c) ↔ (r ≡ ok c)
wrap_result_iff text (ok a) c = (λ h. h, λ h. h)
wrap_result_iff text (err e) c = (λ h. cc, λ h. cc)

module _ (host : Host) (codec : Codec) (out : Outside) (goos : String) where
  -- The configuration in a file, with its defaults, is accepted.
  abbrev pub Accepted : Config → Config → Type 0
  Accepted d c = (apply_defaults host d ≡ ok c) × (validate_for_platform out c goos ≡ none)

  pub Accepted-iff :
      (d c : Config) → (default_and_check host codec out goos d ≡ loaded c) ↔ Accepted d c
  Accepted-iff d c =
      let step =
        after_read_iff (apply_defaults host d) (λ x. checked (validate_for_platform out x goos) x)
          c in
      (
        λ h.
            let q = step.0 h in
            let k = (checked_iff (validate_for_platform out q.0 goos) q.0 c).0 q.2 in
            (q.1 ∙ ap ok k.1, sym (ap (λ x. validate_for_platform out x goos) k.1) ∙ k.0),
        λ h. step.1 (c, h.0, (checked_iff _ c c).1 (h.1, refl)),
      )

  load_config_bytes_iff :
      (text : String) (c : Config)
      → str_eq text "" ≡ false
      → (load_config_bytes host codec out goos text ≡ loaded c)
        ↔ ((d : Config) × (codec.decode text ≡ ok d) × Accepted d c)
  unfolding load_config_bytes
  load_config_bytes_iff text c nonempty =
      let rest : Loaded Config =
        after_read (wrap_result "decode TOML config" (codec.decode text))
          (default_and_check host codec out goos) in
      let start : load_config_bytes host codec out goos text ≡ rest =
        ap (λ b. if b then not_loaded (failure (message "config file is empty")) else rest)
          nonempty in
      let step =
        after_read_iff (wrap_result "decode TOML config" (codec.decode text))
          (default_and_check host codec out goos) c in
      (
        λ h.
            let q = step.0 (sym start ∙ h) in
            (q.0, (wrap_result_iff _ (codec.decode text) q.0).0 q.1, (Accepted-iff q.0 c).0 q.2),
        λ h.
            start
            ∙ step.1 (
              h.0,
              (wrap_result_iff _ (codec.decode text) h.0).1 h.1,
              (Accepted-iff h.0 c).1 h.2,
            ),
      )

  -- `LoadFile` returns a configuration exactly if neither `Lstat` nor `ReadFile` fails, the path
  -- holds a regular file, not empty and private to its owner, and its text decodes to a
  -- configuration that is accepted with its defaults; it returns that one.
  pub load_file_iff :
      (faults : ReadFaults) (disk : Disk) (path : String) (c : Config)
      → (load_file host codec out goos faults disk path ≡ loaded c) ↔ (
          (f : File) × (d : Config) × (faults.lstat ≡ none)
          × (faults.read_file ≡ none)
          × Readable (disk path) f
          × (codec.decode f.contents ≡ ok d)
          × Accepted d c)
  unfolding load_file read_config_file load_config_bytes
  load_file_iff faults disk path c =
      let step =
        after_read_iff (read_config_file faults disk path) (load_config_bytes host codec out goos)
          c in
      (
        λ h.
            let q = step.0 h in
            let f = (Readable-iff faults.lstat faults.read_file (disk path) q.0).0 q.1 in
            let full = subst (λ t. str_eq t "" ≡ false) f.4 f.3.1 in
            let d = (load_config_bytes_iff q.0 c full).0 q.2 in
            (f.0, d.0, f.1, f.2, f.3, ap codec.decode f.4 ∙ d.1, d.2),
        λ h.
            let f = h.0 in
            step.1 (
              f.contents,
              (Readable-iff faults.lstat faults.read_file (disk path) f.contents).1
                  (f, h.2, h.3, h.4, refl),
              (load_config_bytes_iff f.contents c h.4.1).1 (h.1, h.5, h.6),
            ),
      )

  -- What is loaded is valid for the platform.
  pub load_file-IsValid :
      (visits : Visits out) (faults : ReadFaults) (disk : Disk) (path : String) (c : Config)
      → load_file host codec out goos faults disk path ≡ loaded c
      → IsValid out goos c
  load_file-IsValid visits faults disk path c h =
      (validate_iff out goos c visits).0 ((load_file_iff faults disk path c).0 h).6.1
