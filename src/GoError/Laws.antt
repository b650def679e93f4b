-- ===== src/GoError/Laws.antt =====
-- `errors.Join`: when it is nil; and a channel of capacity one, which keeps what waits in it.
use credimi_runner.Prelude.{◌≡◌, ◌≢◌, refl, Option, none, some, List, [], ◌∷◌, All}
use credimi_runner.GoError.{GoError, join, or_else}

-- A join is nil exactly when every part is nil.
pub join-eq-none : (es : List (Option GoError)) → All (λ e. e ≡ none) es → join es ≡ none
unfolding join
join-eq-none [] h = refl
join-eq-none (none ∷ es) h = join-eq-none es h.1
join-eq-none (some e ∷ es) h = cc (h.0)

pub join-none-All : (es : List (Option GoError)) → join es ≡ none → All (λ e. e ≡ none) es
unfolding join
join-none-All [] h = tt
join-none-All (none ∷ es) h = (refl, join-none-All es h)
join-none-All (some e ∷ es) h = cc

-- What already waits, or else what comes, is there.
pub or_else-some : (o : Option GoError) (e : GoError) → or_else o (some e) ≢ none
or_else-some none e = λ h. cc
or_else-some (some f) e = λ h. cc
