-- ===== src/Edge/QuickUrl/Laws.antt =====
-- What `quickURL.FindString` finds, against a description of the pattern.
use Prim.Native.Char.{Char, code}
use Prim.Native.String.{String}
use credimi_runner.Prelude.{
  true, ◌≡◌, ◌≢◌, refl, sym, ap, ◌∙◌, Option, none, some, arith, if◌then◌else◌, by_test,
}
use text.Mathlib.TextEquality.{Char-path}
use credimi_runner.GoError.{or_else}
use credimi_runner.Strings.{has_prefix}
use credimi_runner.Edge.QuickUrl.{
  glue, is_host_char, suffix, scheme, skip, longer, take_host, after_scheme, match_here, quick_url,
}

-- Every character of a text is one of a host.
abbrev pub HostChars : String → Type 0
HostChars String.[] = Unit
HostChars (String.◌∷◌ c s) = (is_host_char (code c) ≡ true) × HostChars s

-- `[A-Za-z0-9.-]+\.trycloudflare\.com`
abbrev pub IsHost : String → Type 0
IsHost m =
    (c : Char) × (h : String) × (m ≡ String.◌∷◌ c (glue h suffix))
    × (is_host_char (code c) ≡ true)
    × HostChars h

-- `https://[A-Za-z0-9.-]+\.trycloudflare\.com`
abbrev pub IsQuickUrl : String → Type 0
IsQuickUrl u = (m : String) × (u ≡ glue scheme m) × IsHost m

-- A text that stands somewhere in another one.
abbrev pub Occurs : String → String → Type 0
Occurs u s = (a : String) × (b : String) × (s ≡ glue a (glue u b))

cons_path : (c d : Char) (s t : String) → c ≡ d → s ≡ t → String.◌∷◌ c s ≡ String.◌∷◌ d t
cons_path c d s t e f = ap (λ x. String.◌∷◌ x s) e ∙ ap (λ x. String.◌∷◌ d x) f

has_prefix-glue : (p s : String) → has_prefix s p ≡ true → (b : String) × (s ≡ glue p b)
unfolding has_prefix
has_prefix-glue String.[] s h = (s, refl)
has_prefix-glue (String.◌∷◌ d p) String.[] h = cc
has_prefix-glue (String.◌∷◌ d p) (String.◌∷◌ c s) h =
    let rest = has_prefix-glue p s (ground (arith, h)) in
    (rest.0, cons_path c d s (glue p rest.0) (Char-path c d (ground (arith, h))) rest.1)

glue-has_prefix : (p b : String) → has_prefix (glue p b) p ≡ true
unfolding has_prefix
glue-has_prefix String.[] b = has_prefix-nil b
  where
    has_prefix-nil : (s : String) → has_prefix s "" ≡ true
    has_prefix-nil String.[] = refl
    has_prefix-nil (String.◌∷◌ c s) = refl
glue-has_prefix (String.◌∷◌ d p) b = ground (arith, glue-has_prefix p b)

abbrev text_or : String → Option String → String
text_or s none = s
text_or s (some t) = t

-- What `take_host` takes of a text.
abbrev Taken : String → Option String → Type 0
Taken s r = (m : String) → r ≡ some m → IsHost m × ((b : String) × (s ≡ glue m b))

longer-Taken :
    (c : Char) (s : String) (rest : Option String)
    → Taken s rest
    → is_host_char (code c) ≡ true
    → Taken
        (String.◌∷◌ c s)
        (longer c rest (if has_prefix s suffix then some (String.◌∷◌ c suffix) else none))
longer-Taken c s (some n) ih k = λ m h.
    let same : String.◌∷◌ c n ≡ m = ap (text_or "") h in
    let (host, (b, e)) = ih n refl in
    let (d, g, f, l, ls) = host in
    (
      (c, String.◌∷◌ d g, sym same ∙ cons_path c c _ _ refl f, k, (l, ls)),
      (b, cons_path c c _ _ refl e ∙ ap (λ x. glue x b) same),
    )
longer-Taken c s none ih k =
    by_test (Taken (String.◌∷◌ c s)) (has_prefix s suffix) _ _
      (λ p m h.
        let same : String.◌∷◌ c suffix ≡ m = ap (text_or "") h in
        let (b, e) = has_prefix-glue suffix s p in
        ((c, "", sym same, k, tt), (b, cons_path c c _ _ refl e ∙ ap (λ x. glue x b) same)))
      (λ p m h. cc)

take_host-Taken : (s : String) → Taken s (take_host s)
unfolding take_host
take_host-Taken String.[] = λ m h. cc
take_host-Taken (String.◌∷◌ c s) =
    by_test (Taken (String.◌∷◌ c s)) (is_host_char (code c)) _ _
      (λ k. longer-Taken c s (take_host s) (take_host-Taken s) k) (λ k m h. cc)

longer-rest : (c : Char) (r h : Option String) → r ≢ none → longer c r h ≢ none
longer-rest c none h n = λ e. n refl
longer-rest c (some m) h n = λ e. cc

longer-here : (c : Char) (r : Option String) (m : String) → longer c r (some m) ≢ none
longer-here c none m = λ e. cc
longer-here c (some n) m = λ e. cc

-- A host is taken wherever it stands at the beginning of the text.
take_host_complete :
    (c : Char) (h b : String)
    → is_host_char (code c) ≡ true
    → HostChars h
    → take_host (String.◌∷◌ c (glue (glue h suffix) b)) ≢ none
unfolding take_host has_prefix
take_host_complete c String.[] b k l =
    by_test (λ r. r ≢ none) (is_host_char (code c)) _ _ (λ e. longer-here c _ _) (λ e. cc)
take_host_complete c (String.◌∷◌ d h) b k l =
    let ih = take_host_complete d h b l.0 l.1 in
    by_test (λ r. r ≢ none) (is_host_char (code c)) _ _ (λ e. longer-rest c _ _ ih) (λ e. cc)

-- Only the pattern is found, and only where it stands.
abbrev Found : String → Option String → Type 0
Found s r = (u : String) → r ≡ some u → IsQuickUrl u × Occurs u s

skip-glue : (s b : String) → s ≡ glue scheme b → skip 8 s ≡ b
unfolding skip
skip-glue s b e = ap (skip 8) e

after_scheme-Found :
    (s : String) (r : Option String)
    → has_prefix s scheme ≡ true
    → Taken (skip 8 s) r
    → Found s (after_scheme r)
after_scheme-Found s none p t = λ u h. cc
after_scheme-Found s (some m) p t = λ u h.
    let same : glue scheme m ≡ u = ap (text_or "") h in
    let (host, (b, e)) = t m refl in
    let (rest, f) = has_prefix-glue scheme s p in
    let g : rest ≡ glue m b = sym (skip-glue s rest f) ∙ e in
    ((m, sym same, host), ("", b, f ∙ ap (glue scheme) g ∙ ap (λ x. glue x b) same))

match_here-Found : (s : String) → Found s (match_here s)
unfolding match_here
match_here-Found s =
    by_test (Found s) (has_prefix s scheme) _ _
      (λ p. after_scheme-Found s _ p (take_host-Taken (skip 8 s))) (λ p u h. cc)

or_else-Found :
    (c : Char) (s : String) (r q : Option String)
    → Found (String.◌∷◌ c s) r
    → Found s q
    → Found (String.◌∷◌ c s) (or_else r q)
or_else-Found c s (some m) q f g = f
or_else-Found c s none q f g =
    λ u h. let (url, (a, b, e)) = g u h in (url, (String.◌∷◌ c a, b, cons_path c c _ _ refl e))

quick_url-Found : (s : String) → Found s (quick_url s)
unfolding quick_url match_here skip has_prefix
quick_url-Found String.[] = λ u h. cc
quick_url-Found (String.◌∷◌ c s) =
    or_else-Found c s _ _ (match_here-Found (String.◌∷◌ c s)) (quick_url-Found s)

or_else-first : (r q : Option String) → r ≢ none → or_else r q ≢ none
or_else-first none q n = λ e. n refl
or_else-first (some m) q n = λ e. cc

or_else-second : (r q : Option String) → q ≢ none → or_else r q ≢ none
or_else-second none q n = n
or_else-second (some m) q n = λ e. cc

after_scheme-some : (r : Option String) → r ≢ none → after_scheme r ≢ none
after_scheme-some none n = λ e. n refl
after_scheme-some (some m) n = λ e. cc

quick_url_complete :
    (a : String) (c : Char) (h b : String)
    → is_host_char (code c) ≡ true
    → HostChars h
    → quick_url (glue a (glue (glue scheme (String.◌∷◌ c (glue h suffix))) b)) ≢ none
unfolding quick_url match_here skip has_prefix take_host
quick_url_complete String.[] c h b k l =
    or_else-first _ _ (after_scheme-some _ (take_host_complete c h b k l))
quick_url_complete (String.◌∷◌ d a) c h b k l = or_else-second _ _ (quick_url_complete a c h b k l)

-- What `quickURL.FindString` returns matches `https://[A-Za-z0-9.-]+\.trycloudflare\.com` and
-- stands in the line; and it returns something for every line in which such a text stands.
pub quick_url-finds :
    (s : String)
    → ((u : String) → quick_url s ≡ some u → IsQuickUrl u × Occurs u s)
      × ((u : String) → IsQuickUrl u → Occurs u s → quick_url s ≢ none)
quick_url-finds s = (
  quick_url-Found s,
  λ u q o n.
      let (m, e, (c, h, f, k, l)) = q in
      let (a, b, g) = o in
      let whole : s ≡ glue a (glue (glue scheme (String.◌∷◌ c (glue h suffix))) b) =
        g ∙ ap (λ x. glue a (glue x b)) (e ∙ ap (glue scheme) f) in
      quick_url_complete a c h b k l (sym (ap quick_url whole) ∙ n),
)
