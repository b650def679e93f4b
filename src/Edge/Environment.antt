-- ===== src/Edge/Environment.antt =====
-- The environment of cloudflared, `cloudflaredEnv` of internal/edge/cloudflared.go, and the edge of
-- a manual exposure, internal/edge/manual.go.
use Prim.Native.Char.{code}
use Prim.Native.String.{String}
use credimi_runner.Prelude.{
  Bool, true, false, not, ◌≡◌, refl, sym, ap, ◌∙◌, List, [], ◌∷◌, ◌++◌, if◌then◌else◌, ◌==◌, str_eq,
  arith, by_test, Bool-cases, inl, inr,
}
use credimi_runner.GoError.{message, Result, ok, err}
use credimi_runner.Strings.{trim_space, is_blank}
use credimi_runner.Edge.QuickUrl.{glue}

-- The text before the first `=`.
unfoldable pub key_of : String → String
key_of String.[] = String.[]
key_of (String.◌∷◌ c s) =
    let rest = key_of s in if code c == 61 then String.[] else String.◌∷◌ c rest

abbrev pub is_token_entry : String → Bool
unfolding key_of
is_token_entry e = str_eq (key_of e) "TUNNEL_TOKEN"

abbrev pub filter : (String → Bool) → List String → List String
filter p [] = []
filter p (x ∷ xs) = if p x then x ∷ filter p xs else filter p xs

abbrev pub token_entry : String → String
token_entry token = glue "TUNNEL_TOKEN=" token

-- `cloudflaredEnv`
unfoldable pub cloudflared_env : Bool → String → List String → List String
unfolding key_of
cloudflared_env named token environ =
    filter (λ e. not (is_token_entry e)) environ ++ (if named then token_entry token ∷ [] else [])

filter-yes :
    (p : String → Bool) (x : String) (xs : List String)
    → p x ≡ true
    → filter p (x ∷ xs) ≡ x ∷ filter p xs
filter-yes p x xs h = ap (λ (b : Bool). if b then x ∷ filter p xs else filter p xs) h

filter-no :
    (p : String → Bool) (x : String) (xs : List String)
    → p x ≡ false
    → filter p (x ∷ xs) ≡ filter p xs
filter-no p x xs h = ap (λ (b : Bool). if b then x ∷ filter p xs else filter p xs) h

filter-append :
    (p : String → Bool) (xs ys : List String) → filter p (xs ++ ys) ≡ filter p xs ++ filter p ys
filter-append p [] ys = refl
filter-append p (x ∷ xs) ys =
    let ih = filter-append p xs ys in
    by_test (λ r. r ≡ filter p (x ∷ xs) ++ filter p ys) (p x) _ _
      (λ h. ap (λ r. x ∷ r) ih ∙ sym (ap (λ r. r ++ filter p ys) (filter-yes p x xs h)))
      (λ h. ih ∙ sym (ap (λ r. r ++ filter p ys) (filter-no p x xs h)))

-- A filter whose items another filter drops, or keeps.
filter-filter :
    (p q : String → Bool) (xs : List String)
    → ((x : String) → q x ≡ true → p x ≡ false)
    → filter p (filter q xs) ≡ []
filter-filter p q [] d = refl
filter-filter p q (x ∷ xs) d =
    let ih = filter-filter p q xs d in
    by_test (λ r. filter p r ≡ []) (q x) _ _ (λ h. filter-no p x (filter q xs) (d x h) ∙ ih)
      (λ h. ih)

filter-again : (p : String → Bool) (xs : List String) → filter p (filter p xs) ≡ filter p xs
filter-again p [] = refl
filter-again p (x ∷ xs) =
    let ih = filter-again p xs in
    elim (Bool-cases (p x)) [
      | inl h ↦
          ap (filter p) (filter-yes p x xs h)
          ∙ filter-yes p x (filter p xs) h
          ∙ ap (λ r. x ∷ r) ih
          ∙ sym (filter-yes p x xs h)
      | inr h ↦ ap (filter p) (filter-no p x xs h) ∙ ih ∙ sym (filter-no p x xs h)
    ]

append-nil : (xs : List String) → xs ++ [] ≡ xs
append-nil [] = refl
append-nil (x ∷ xs) = ap (λ r. x ∷ r) (append-nil xs)

-- The token of the tunnel is in the environment of a named tunnel and of no other, once, whatever
-- the runner's own environment says; everything else of that environment is passed on in its order.
pub cloudflared_env-token :
    (named : Bool) (token : String) (environ : List String)
    → (filter is_token_entry (cloudflared_env named token environ)
        ≡ (if named then token_entry token ∷ [] else []))
      × (filter (λ e. not (is_token_entry e)) (cloudflared_env named token environ)
          ≡ filter (λ e. not (is_token_entry e)) environ)
unfolding cloudflared_env key_of
cloudflared_env-token named token environ =
    let others = filter (λ e. not (is_token_entry e)) environ in
    (
      filter-append is_token_entry others _
          ∙ ap (λ r. r ++ filter is_token_entry (if named then token_entry token ∷ [] else []))
              (filter-filter is_token_entry _ environ (λ x h. ground (arith, h)))
          ∙ tokens named,
      filter-append (λ e. not (is_token_entry e)) others _
          ∙ ap (λ r. filter (λ e. not (is_token_entry e)) others ++ r) (no_tokens named)
          ∙ append-nil _
          ∙ filter-again (λ e. not (is_token_entry e)) environ,
    )
  where
    tokens :
        (b : Bool)
        → filter is_token_entry (if b then token_entry token ∷ [] else [])
          ≡ (if b then token_entry token ∷ [] else [])
    tokens true = refl
    tokens false = refl

    no_tokens :
        (b : Bool)
        → filter (λ e. not (is_token_entry e)) (if b then token_entry token ∷ [] else []) ≡ []
    no_tokens true = refl
    no_tokens false = refl

-- `Manual`
pub record Manual : Type 0 where
  pub public_url : String
  pub running : Bool

-- `Manual.Start`, and `Stop` and `Close`.
unfoldable pub start_manual : Manual → Result String × Manual
unfolding is_blank trim_space
start_manual m =
    if is_blank m.public_url
    then (err (message "manual exposure requires public URL"), m)
    else (ok (trim_space m.public_url), record m { running = true })

unfoldable pub stop_manual : Manual → Manual
stop_manual m = record m { running = false }
