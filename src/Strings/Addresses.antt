-- ===== src/Strings/Addresses.antt =====
-- `net.JoinHostPort` and `net.SplitHostPort`.

use Prim.Native.String.{String}
use credimi_runner.Prelude.{
  ℕ, suc, ◌+◌, ◌-◌, Bool, false, str_append, Option, none, some, List, [], ◌∷◌, if◌then◌else◌, ◌==◌,
  codes, length, take, drop, any,
}

abbrev pub colon : ℕ
colon = b':'

abbrev pub has_code : ℕ → List ℕ → Bool
has_code d cs = any (λ c. c == d) cs

-- `net.JoinHostPort`: a host with a colon stands in brackets.
unfoldable pub join_host_port : String → String → String
join_host_port host port =
    if has_code colon (codes host)
    then str_append "[" (str_append host (str_append "]:" port))
    else str_append host (str_append ":" port)

-- The first index of a character, and the last.
unfoldable pub index_of : ℕ → List ℕ → Option ℕ
index_of d [] = none
index_of d (c ∷ cs) =
    let rest = index_of d cs in
    if c == d then some 0 else elim rest [ none ↦ none | some i ↦ some (suc i) ]

unfoldable pub last_index_of : ℕ → List ℕ → Option ℕ
last_index_of d [] = none
last_index_of d (c ∷ cs) =
    let rest = last_index_of d cs in
    elim rest [ some i ↦ some (suc i) | none ↦ if c == d then some 0 else none ]

pub data SplitError : Type 0 where
  missing_port too_many_colons missing_bracket unexpected_open unexpected_close : SplitError

pub data Split : Type 0 where
  host_and_port : List ℕ → List ℕ → Split
  wrong_address : SplitError → Split

-- The brackets after `j` and `k`, and the answer.
split_at : List ℕ → List ℕ → ℕ → ℕ → ℕ → Split
split_at host cs j k i =
    if has_code b'[' (drop j cs)
    then wrong_address unexpected_open
    else if has_code b']' (drop k cs)
    then wrong_address unexpected_close
    else host_and_port host (drop (i + 1) cs)

after_bracket : List ℕ → SplitError
after_bracket [] = missing_port
after_bracket (c ∷ cs) = if c == colon then too_many_colons else missing_port

split_bracketed : Option ℕ → List ℕ → ℕ → Split
unfolding split_at after_bracket
split_bracketed none cs i = wrong_address missing_bracket
split_bracketed (some e) cs i =
    if e + 1 == length cs
    then wrong_address missing_port
    else if e + 1 == i
    then split_at (take (e - 1) (drop 1 cs)) cs 1 (e + 1) i
    else wrong_address (after_bracket (drop (e + 1) cs))

abbrev starts_bracketed : List ℕ → Bool
starts_bracketed [] = false
starts_bracketed (c ∷ cs) = c == b'['

split_by : Option ℕ → List ℕ → Split
unfolding split_bracketed index_of split_at
split_by none cs = wrong_address missing_port
split_by (some i) cs =
    if starts_bracketed cs
    then split_bracketed (index_of b']' cs) cs i
    else if has_code colon (take i cs)
    then wrong_address too_many_colons
    else split_at (take i cs) cs 0 0 i

-- `net.SplitHostPort`
unfoldable pub split_host_port : List ℕ → Split
unfolding split_by last_index_of
split_host_port cs = split_by (last_index_of colon cs) cs
