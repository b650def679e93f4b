-- ===== src/Strings/Patterns.antt =====
-- Regular expressions: a pattern matches a whole text, as with `^` and `$`. The matcher takes
-- derivatives of the pattern.
use credimi_runner.Prelude.{ℕ, Bool, true, false, ◌||◌, ◌&&◌, List, [], ◌∷◌, if◌then◌else◌}

pub data Pattern : Type 0 where
  nothing empty : Pattern
  one_of : (ℕ → Bool) → Pattern
  then_by either : Pattern → Pattern → Pattern
  star : Pattern → Pattern

unfoldable pub nullable : Pattern → Bool
nullable nothing = false
nullable empty = true
nullable (one_of p) = false
nullable (then_by a b) = nullable a && nullable b
nullable (either a b) = nullable a || nullable b
nullable (star a) = true

unfoldable pub derivative : ℕ → Pattern → Pattern
unfolding nullable
derivative c nothing = nothing
derivative c empty = nothing
derivative c (one_of p) = if p c then empty else nothing
derivative c (then_by a b) =
    let left = then_by (derivative c a) b in
    if nullable a then either left (derivative c b) else left
derivative c (either a b) = either (derivative c a) (derivative c b)
derivative c (star a) = then_by (derivative c a) (star a)

unfoldable pub matches : Pattern → List ℕ → Bool
unfolding nullable derivative
matches p [] = nullable p
matches p (c ∷ cs) = matches (derivative c p) cs

-- `(?:…)?`, `(?:…)+`
abbrev pub optional : Pattern → Pattern
optional p = either p empty

abbrev pub plus : Pattern → Pattern
plus p = then_by p (star p)
