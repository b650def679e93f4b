-- ===== src/Edge/QuickUrl.antt =====
-- The URL of a quick tunnel in the output of cloudflared: `quickURL.FindString` of
-- internal/edge/cloudflared.go, and `strings.ReplaceAll`.
pub mod Laws
use Prim.Native.Char.{Char, code}
use Prim.Native.String.{String}
use credimi_runner.Prelude.{
  ℕ, zero, suc, ◌+◌, Bool, true, false, ◌||◌, ◌&&◌, Option, none, some, if◌then◌else◌, leb, ◌==◌,
}
use credimi_runner.GoError.{or_else}
use credimi_runner.Strings.{has_prefix}

-- `[A-Za-z0-9.-]`
abbrev pub is_host_char : ℕ → Bool
is_host_char c =
    (leb 65 c && leb c 90)
    || (leb 97 c && leb c 122)
    || (leb 48 c && leb c 57)
    || c == 45
    || c == 46

abbrev pub suffix : String
suffix = ".trycloudflare.com"

abbrev pub scheme : String
scheme = "https://"

-- `a + b`, by characters.
abbrev pub glue : String → String → String
glue String.[] t = t
glue (String.◌∷◌ c s) t = String.◌∷◌ c (glue s t)

-- `strings.TrimPrefix` of a text of this length.
unfoldable pub skip : ℕ → String → String
skip zero s = s
skip (suc n) String.[] = String.[]
skip (suc n) (String.◌∷◌ c s) = skip n s

abbrev pub longer : Char → Option String → Option String → Option String
longer c (some m) here = some (String.◌∷◌ c m)
longer c none here = here

-- The longest match of `[A-Za-z0-9.-]+\.trycloudflare\.com` at the beginning of a text.
unfoldable pub take_host : String → Option String
unfolding has_prefix
take_host String.[] = none
take_host (String.◌∷◌ c s) =
    let rest = take_host s in
    let here = if has_prefix s suffix then some (String.◌∷◌ c suffix) else none in
    if is_host_char (code c) then longer c rest here else none

abbrev pub after_scheme : Option String → Option String
after_scheme none = none
after_scheme (some m) = some (glue scheme m)

unfoldable pub match_here : String → Option String
unfolding has_prefix take_host skip
match_here s = if has_prefix s scheme then after_scheme (take_host (skip 8 s)) else none

-- `quickURL.FindString`, `none` for the empty text.
unfoldable pub quick_url : String → Option String
unfolding match_here
quick_url String.[] = none
quick_url (String.◌∷◌ c s) = or_else (match_here (String.◌∷◌ c s)) (quick_url s)

abbrev pub text_length : String → ℕ
text_length String.[] = 0
text_length (String.◌∷◌ c s) = suc (text_length s)

-- `strings.ReplaceAll` of a text that is not empty; the number is how much of an occurrence is
-- still to be skipped.
unfoldable pub replace_from : ℕ → String → String → String → String
unfolding has_prefix
replace_from n old new String.[] = String.[]
replace_from (suc n) old new (String.◌∷◌ c s) = replace_from n old new s
replace_from zero old new (String.◌∷◌ c s) =
    let passed = replace_from (text_length (skip 1 old)) old new s in
    let kept = replace_from zero old new s in
    if has_prefix (String.◌∷◌ c s) old then glue new passed else String.◌∷◌ c kept

unfoldable pub replace_all : String → String → String → String
unfolding replace_from
replace_all old new s = replace_from zero old new s
