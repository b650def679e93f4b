-- ===== src/Strings.antt =====
-- Go's `strings`, `strconv` and `net` as the program uses them, on texts and their code points.
pub mod Numbers
pub mod Addresses
pub mod Patterns
use Prim.Native.Char.{Char, code}
use Prim.Native.String.{String}
use credimi_runner.Prelude.{
  ℕ, Bool, true, false, ◌||◌, ◌&&◌, not, str_eq, if◌then◌else◌, leb, ◌==◌, List, [], ◌∷◌,
}

-- `unicode.IsSpace`
abbrev pub is_space : ℕ → Bool
is_space c =
    (leb 9 c && leb c 13)
    || c == 32
    || c == 0x85
    || c == 0xa0
    || c == 0x1680
    || (leb 0x2000 c && leb c 0x200a)
    || c == 0x2028
    || c == 0x2029
    || c == 0x202f
    || c == 0x205f
    || c == 0x3000

unfoldable pub trim_left : String → String
trim_left String.[] = String.[]
trim_left (String.◌∷◌ c s) =
    let rest = trim_left s in if is_space (code c) then rest else String.◌∷◌ c s

unfoldable pub trim_right : String → String
trim_right String.[] = String.[]
trim_right (String.◌∷◌ c s) =
    let rest = trim_right s in
    if str_eq rest "" && is_space (code c) then String.[] else String.◌∷◌ c rest

-- `strings.TrimSpace`
unfoldable pub trim_space : String → String
unfolding trim_left trim_right
trim_space s = trim_right (trim_left s)

-- `strings.TrimSpace(s) == ""`
unfoldable pub is_blank : String → Bool
unfolding trim_space
is_blank s = str_eq (trim_space s) ""

-- `strings.HasPrefix(s, p)`
unfoldable pub has_prefix : String → String → Bool
has_prefix s String.[] = true
has_prefix String.[] (String.◌∷◌ d p) = false
has_prefix (String.◌∷◌ c s) (String.◌∷◌ d p) = code c == code d && has_prefix s p

-- `strings.Contains(s, p)`
unfoldable pub contains : String → String → Bool
unfolding has_prefix
contains String.[] p = has_prefix String.[] p
contains (String.◌∷◌ c s) p = has_prefix (String.◌∷◌ c s) p || contains s p

-- `strings.TrimLeft(s, cutset)` and `strings.TrimRight` of one character.
unfoldable pub trim_left_of : ℕ → String → String
trim_left_of d String.[] = String.[]
trim_left_of d (String.◌∷◌ c s) =
    let rest = trim_left_of d s in if code c == d then rest else String.◌∷◌ c s

-- `strings.TrimPrefix(s, p)` of one character.
unfoldable pub trim_first_of : ℕ → String → String
trim_first_of d String.[] = String.[]
trim_first_of d (String.◌∷◌ c s) = if code c == d then s else String.◌∷◌ c s

abbrev pub onto_first : Char → List String → List String
onto_first c [] = String.◌∷◌ c String.[] ∷ []
onto_first c (p ∷ ps) = String.◌∷◌ c p ∷ ps

-- `strings.Split(s, d)` of one character.
unfoldable pub split_on : ℕ → String → List String
split_on d String.[] = String.[] ∷ []
split_on d (String.◌∷◌ c s) =
    let rest = split_on d s in if code c == d then String.[] ∷ rest else onto_first c rest
