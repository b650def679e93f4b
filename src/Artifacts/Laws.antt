-- ===== src/Artifacts/Laws.antt =====
-- What a request can name.
use Prim.Native.Char.{Char, code}
use Prim.Native.String.{String}
use Prim.Native.String.append
use credimi_runner.Prelude.{
  by_test, Bool, true, false, not, ◌||◌, ◌≡◌, ◌≢◌, ℕ, ◌++◌, ◌∙◌, refl, sym, ap, subst, str_eq,
  str_append, eq_iff, Option, none, some, List, [], ◌∷◌, if◌then◌else◌, ◌==◌, codes, any, All,
  arith,
}
use credimi_runner.GoError.{GoError, message, Result, ok, err}
use credimi_runner.Strings.{has_prefix, split_on, onto_first}
use credimi_runner.Strings.Patterns.{matches}
use credimi_runner.Artifacts.{
  slash, canonical_device_identifier, is_unsafe, check_parts, Paths, run_parts, workspace,
  both_checked, device_artifact_root, RuntimeDevice, Configured, configured, unreadable, refused,
  find_configured,
}

-- The text has no slash.
abbrev pub NoSlash : String → Type 0
NoSlash p = any (λ c. c == slash) (codes p) ≡ false

-- One name of a path, which leads neither up nor to where it stands.
abbrev pub IsName : String → Type 0
IsName p = (p ≢ "") × (p ≢ ".") × (p ≢ "..") × NoSlash p

onto_first-NoSlash :
    (c : Char) (ps : List String)
    → (code c == slash) ≡ false
    → All NoSlash ps
    → All NoSlash (onto_first c ps)
onto_first-NoSlash c [] e h = (ground arith, tt)
onto_first-NoSlash c (p ∷ ps) e h = (ground (arith, h.0), h.1)

split_on-NoSlash : (s : String) → All NoSlash (split_on slash s)
unfolding split_on
split_on-NoSlash String.[] = (refl, tt)
split_on-NoSlash (String.◌∷◌ c s) =
    let ih = split_on-NoSlash s in
    by_test (All NoSlash) (code c == slash) _ _ (λ e. (refl, ih)) (λ e. onto_first-NoSlash c _ e ih)

onto_first-given : (c : Char) (ps : List String) → onto_first c ps ≢ []
onto_first-given c [] e = cc
onto_first-given c (p ∷ ps) e = cc

split_on-given : (s : String) → split_on slash s ≢ []
unfolding split_on
split_on-given String.[] = λ e. cc
split_on-given (String.◌∷◌ c s) =
    by_test (λ (ps : List String). ps ≢ []) (code c == slash) _ _ (λ e q. cc)
      (λ e. onto_first-given c _)

codes-append : (s t : String) → codes (str_append s t) ≡ codes s ++ codes t
codes-append String.[] t = ap codes (λ i. append.nil t i)
codes-append (String.◌∷◌ c s) t =
    let first : str_append (String.◌∷◌ c s) t ≡ String.◌∷◌ c (str_append s t) =
      λ i. append.cons c s t i in
    ap codes first ∙ ap (λ r. code c ∷ r) (codes-append s t)

-- The codes are at most two.
abbrev is_short : List ℕ → Bool
is_short [] = true
is_short (a ∷ []) = true
is_short (a ∷ b ∷ []) = true
is_short (a ∷ b ∷ c ∷ s) = false

true_apart : true ≡ false → ⊥
true_apart e = cc

safe-IsName : (p : String) → is_unsafe p ≡ false → NoSlash p → IsName p
unfolding matches
safe-IsName p h n =
    let at = λ (t : String) (e : p ≡ t). subst (λ u. is_unsafe u ≡ false) e h in
    (λ e. true_apart (at "" e), λ e. true_apart (at "." e), λ e. true_apart (at ".." e), n)

-- The parts that pass the check are names.
check_parts-IsName :
    (text : String) (parts : List String)
    → check_parts text parts ≡ none
    → All NoSlash parts
    → All IsName parts
unfolding check_parts
check_parts-IsName text [] h n = tt
check_parts-IsName text (p ∷ ps) h n =
    let q = both (is_unsafe p) (check_parts text ps) h in
    (safe-IsName p q.0 n.0, check_parts-IsName text ps q.1 n.1)
  where
    both :
        (b : Bool) (rest : Option GoError)
        → (if b then some (message text) else rest) ≡ none
        → (b ≡ false) × (rest ≡ none)
    both true rest e = cc
    both false rest e = (refl, e)

module _ (paths : Paths) where
  ok_inv :
      (a b : Option GoError) (path r : String)
      → both_checked paths a b path ≡ ok r
      → (a ≡ none) × (b ≡ none) × (path ≡ r)
  ok_inv none none path r h = (refl, refl, ap (λ x. elim x [ ok t ↦ t | err e ↦ path ]) h)
  ok_inv none (some e) path r h = cc
  ok_inv (some e) b path r h = cc

  asked :
      (b : Bool) (x : GoError) (y : Result String) (r : String)
      → (if b then err x else y) ≡ ok r
      → (b ≡ false) × (y ≡ ok r)
  asked true x y r h = cc
  asked false x y r h = (refl, h)

  -- The name of a device's workspace.
  workspace-IsName : (id : String) → NoSlash (paths.digest id) → IsName (workspace paths id)
  workspace-IsName id h =
      let all = codes-append "device-" (paths.digest id) in
      let long : is_short (codes (workspace paths id)) ≡ false = ap is_short all in
      let apart =
        λ (t : String) (e : workspace paths id ≡ t). sym (ap (λ u. is_short (codes u)) e) ∙ long in
      (
        λ e. true_apart (apart "" e),
        λ e. true_apart (apart "." e),
        λ e. true_apart (apart ".." e),
        ap (any (λ c. c == slash)) all ∙ h,
      )

  -- If a digest has no slash: the directory that `deviceArtifactRoot` returns is the root, then
  -- one name made of the digest of the device's identifier, then one or more names taken from the
  -- run's identifier; none of these names is empty, `.` or `..`, or has a slash, and the same holds
  -- of the parts of the device's identifier.
  pub device_artifact_root-IsName :
      (root device run path : String)
      → ((text : String) → NoSlash (paths.digest text))
      → device_artifact_root paths root device run ≡ ok path
      → (path
          ≡ paths.join (
              root
              ∷ workspace paths (canonical_device_identifier device)
              ∷ paths.join (run_parts run)
              ∷ []))
        × IsName (workspace paths (canonical_device_identifier device))
        × All IsName (run_parts run)
        × (run_parts run ≢ [])
        × All IsName (split_on slash (canonical_device_identifier device))
  unfolding device_artifact_root
  device_artifact_root-IsName root device run path hex h =
      let id = canonical_device_identifier device in
      let a = asked (str_eq id "" || str_eq run "") _ _ path h in
      let o = ok_inv _ _ _ path a.1 in
      (
        sym o.2,
        workspace-IsName _ (hex _),
        check_parts-IsName _ (run_parts run) o.1 (split_on-NoSlash _),
        split_on-given _,
        check_parts-IsName _ (split_on slash id) o.0 (split_on-NoSlash id),
      )

-- A device that is answered with is enabled, has the identifier that was asked for, and belongs to
-- the runner.
abbrev Found : String → String → Configured → Type 0
Found runner identifier (configured d) =
    (d.enabled ≡ true)
    × (canonical_device_identifier d.id ≡ identifier)
    × (has_prefix identifier (str_append runner "/") ≡ true)
Found runner identifier unreadable = Unit
Found runner identifier (refused e) = Unit

pub find_configured-Found :
    (runner identifier : String) (devices : List RuntimeDevice)
    → Found runner identifier (find_configured runner identifier devices)
unfolding find_configured
find_configured-Found runner identifier [] = tt
find_configured-Found runner identifier (d ∷ ds) =
    let P = Found runner identifier in
    by_test P (str_eq (canonical_device_identifier d.id) identifier) _ _
      (λ same.
        by_test P (not (has_prefix identifier (str_append runner "/"))) _ _ (λ h. tt)
          (λ below.
            by_test P d.enabled _ _
              (λ on.
                (on, (eq_iff (canonical_device_identifier d.id) identifier).0 same, ground arith))
              (λ off. tt)))
      (λ other. find_configured-Found runner identifier ds)
