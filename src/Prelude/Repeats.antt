-- ===== src/Prelude/Repeats.antt =====
-- Lists of texts without repetitions.
use mathlib.Core.Path.{◌≡◌, refl, sym}
use mathlib.Core.Logic.{◌↔◌, ◌⊎◌, inl, inr}
use mathlib.Core.Bool.{false}
use mathlib.Core.List.{List, [], ◌∷◌}
use Prim.Native.String.{String}
use native.Mathlib.Omega.{arith}
use text.Mathlib.TextEquality.{eq_iff}
use credimi_runner.Prelude.Texts.{str_eq}
use credimi_runner.Prelude.Lists.{any, All}

abbrev pub In : String → List String → Type 0
In x [] = ⊥
In x (y ∷ ys) = (x ≡ y) ⊎ In x ys

-- No text of the list stands in it twice.
abbrev pub NoDup : List String → Type 0
NoDup [] = Unit
NoDup (x ∷ xs) = (In x xs → ⊥) × NoDup xs

-- The same as a loop tests it, that keeps what it has seen.
abbrev pub Distinct : List String → List String → Type 0
Distinct seen [] = Unit
Distinct seen (x ∷ xs) = (any (str_eq x) seen ≡ false) × Distinct (x ∷ seen) xs

pub any-In : (x : String) (xs : List String) → (any (str_eq x) xs ≡ false) ↔ (In x xs → ⊥)
any-In x [] = (λ h n. n, λ n. refl)
any-In x (y ∷ ys) = ground (arith, eq_iff x y, any-In x ys)

-- No text of `xs` is `x` or stands in `seen`.
apart_iff :
    (x : String) (seen xs : List String)
    → All (λ y. In y (x ∷ seen) → ⊥) xs ↔ ((In x xs → ⊥) × All (λ y. In y seen → ⊥) xs)
apart_iff x seen [] = (λ h. (λ n. n, tt), λ h. tt)
apart_iff x seen (y ∷ ys) =
    let ih = apart_iff x seen ys in
    (
      λ h.
          let rest = ih.0 h.1 in
          (
            λ i. elim i [ inl e ↦ h.0 (inl (sym e)) | inr j ↦ rest.0 j ],
            (λ i. h.0 (inr i), rest.1),
          ),
      λ h. (
        λ i. elim i [ inl e ↦ h.0 (inl (sym e)) | inr j ↦ h.1.0 j ],
        ih.1 (λ i. h.0 (inr i), h.1.1),
      ),
    )

Distinct-iff : (seen xs : List String) → Distinct seen xs ↔ (NoDup xs × All (λ x. In x seen → ⊥) xs)
Distinct-iff seen [] = (λ h. (tt, tt), λ h. tt)
Distinct-iff seen (x ∷ xs) =
    let ih = Distinct-iff (x ∷ seen) xs in
    let apart = apart_iff x seen xs in
    let fresh = any-In x seen in
    (
      λ h.
          let rest = ih.0 h.1 in
          let clear = apart.0 rest.1 in ((clear.0, rest.0), (fresh.0 h.0, clear.1)),
      λ h. (fresh.1 h.1.0, ih.1 (h.0.1, apart.1 (h.0.0, h.1.1))),
    )

-- A loop that starts with nothing seen.
pub Distinct-nil : (xs : List String) → Distinct [] xs ↔ NoDup xs
Distinct-nil xs = let all = Distinct-iff [] xs in (λ h. (all.0 h).0, λ h. all.1 (h, none_seen xs))
  where
    none_seen : (ys : List String) → All (λ y. In y [] → ⊥) ys
    none_seen [] = tt
    none_seen (y ∷ ys) = (λ i. i, none_seen ys)
