-- ===== src/Supervisor/Act/Rules.antt =====
-- Rules for chains: what every step keeps, the chain keeps; what a step brings about and the later
-- ones keep holds when the chain succeeds.
use credimi_runner.Prelude.{
  String, Option, none, some, Bool, true, false, Bool-cases, ◌≡◌, refl, inl, inr,
}
use credimi_runner.GoError.{GoError}
use credimi_runner.Supervisor.Generation.{Generation, Env, Result, ok, err}
use credimi_runner.Supervisor.Act.{
  Live, Act, return, and_then, ◌>>=◌, ◌>>◌, call, call_if, call_for, change, check_fatal, only_if,
}

-- Whether it fails or not, the chain keeps `P`.
pub record Keeps {W A : Type 0} (P : Generation → Type 0) (m : Act W A) : Type 0 where
  pub keep : (l : Live W) → P l.gen → P (m l).0.gen

-- `P` holds when the chain ends without an error.
pub record Ends {W A : Type 0} (P : Generation → Type 0) (m : Act W A) : Type 0 where
  pub finish : (l : Live W) (a : A) → (m l).1 ≡ ok a → P (m l).0.gen

module _ {W A B : Type 0} {P : Generation → Type 0} where
  and_then_keep :
      (r : Live W × Result A) (f : A → Act W B)
      → P r.0.gen
      → ((a : A) → Keeps P (f a))
      → P (and_then r f).0.gen
  and_then_keep (l, ok a) f h k = (k a).keep l h
  and_then_keep (l, err e) f h k = h

  and_then_finish :
      (r : Live W × Result A) (f : A → Act W B) (b : B)
      → ((a : A) → Ends P (f a))
      → (and_then r f).1 ≡ ok b
      → P (and_then r f).0.gen
  and_then_finish (l, ok a) f b k h = (k a).finish l b h
  and_then_finish (l, err e) f b k h = cc

  and_then_finish_first :
      (r : Live W × Result A) (f : A → Act W B) (b : B)
      → ((a : A) → r.1 ≡ ok a → P r.0.gen)
      → ((a : A) → Keeps P (f a))
      → (and_then r f).1 ≡ ok b
      → P (and_then r f).0.gen
  and_then_finish_first (l, ok a) f b h k e = (k a).keep l (h a refl)
  and_then_finish_first (l, err x) f b h k e = cc

  pub >>=-Keeps :
      {m : Act W A} {f : A → Act W B} → Keeps P m → ((a : A) → Keeps P (f a)) → Keeps P (m >>= f)
  unfolding ◌>>=◌
  >>=-Keeps {m} {f} h k = record { keep = λ l p. and_then_keep (m l) f (h.keep l p) k }

  pub >>=-Ends : (m : Act W A) {f : A → Act W B} → ((a : A) → Ends P (f a)) → Ends P (m >>= f)
  unfolding ◌>>=◌
  >>=-Ends m {f} k = record { finish = λ l b e. and_then_finish (m l) f b k e }

  pub >>=-Ends_first :
      {m : Act W A} {f : A → Act W B} → Ends P m → ((a : A) → Keeps P (f a)) → Ends P (m >>= f)
  unfolding ◌>>=◌
  >>=-Ends_first {m} {f} h k = record {
    finish = λ l b e. and_then_finish_first (m l) f b (h.finish l) k e;
  }

module _ {W B : Type 0} {P : Generation → Type 0} where
  pub >>-Keeps : {m : Act W (Unit {0})} {k : Act W B} → Keeps P m → Keeps P k → Keeps P (m >> k)
  unfolding ◌>>◌
  >>-Keeps h k = >>=-Keeps h (λ _. k)

  pub >>-Ends : (m : Act W (Unit {0})) {k : Act W B} → Ends P k → Ends P (m >> k)
  unfolding ◌>>◌
  >>-Ends m k = >>=-Ends m (λ _. k)

  pub >>-Ends_first : {m : Act W (Unit {0})} {k : Act W B} → Ends P m → Keeps P k → Ends P (m >> k)
  unfolding ◌>>◌
  >>-Ends_first h k = >>=-Ends_first h (λ _. k)

-- The steps that leave the generation alone.
module _ {W : Type 0} {P : Generation → Type 0} where
  pub return-Keeps : {A : Type 0} (a : A) → Keeps P (return {W = W} a)
  unfolding return
  return-Keeps a = record { keep = λ l p. p }

  pub call-Keeps : (text : String) (f : W → W × Option GoError) → Keeps P (call text f)
  unfolding call
  call-Keeps text f = record { keep = λ l p. p }

  pub call_if-Keeps :
      (text : String) (f : Option (W → W × Option GoError)) → Keeps P (call_if text f)
  unfolding call_if return call
  call_if-Keeps text none = record { keep = λ l p. p }
  call_if-Keeps text (some f) = record { keep = λ l p. p }

  pub call_for-Keeps :
      {A : Type 0} (text : String) (f : W → W × Result A) → Keeps P (call_for text f)
  unfolding call_for
  call_for-Keeps text f = record { keep = λ l p. p }

  pub check_fatal-Keeps : (env : Env W) → Keeps P (check_fatal env)
  unfolding check_fatal
  check_fatal-Keeps env = record { keep = λ l p. p }

  pub change-Keeps :
      (f : Generation → Generation)
      → ((g : Generation) → P g → P (f g))
      → Keeps P (change {W = W} f)
  unfolding change
  change-Keeps f h = record { keep = λ l p. h l.gen p }

  pub change-Ends :
      (f : Generation → Generation) → ((g : Generation) → P (f g)) → Ends P (change {W = W} f)
  unfolding change
  change-Ends f h = record { finish = λ l a e. h l.gen }

  pub only_if-Keeps :
      {A : Type 0} (test : Generation → Bool) (a : A) (m : Act W A)
      → Keeps (λ g. P g × (test g ≡ true)) m
      → Keeps P (only_if test a m)
  unfolding only_if
  only_if-Keeps test a m k = record {
    keep =
        λ l p. elim (Bool-cases (test l.gen)) [ inl e ↦ rw e (k.keep l (p, e)).0 | inr e ↦ rw e p ];
  }

  pub only_if-Ends :
      {A : Type 0} (test : Generation → Bool) (a : A) (m : Act W A)
      → Ends P m
      → ((g : Generation) → test g ≡ false → P g)
      → Ends P (only_if test a m)
  unfolding only_if
  only_if-Ends test a m k absent = record {
    finish = λ l b. elim (Bool-cases (test l.gen)) [
      | inl e ↦ rw e (k.finish l b)
      | inr e ↦ rw e (λ _. absent l.gen e)
    ];
  }

pub ruleset chain_rules = (
  >>=-Keeps, >>-Keeps, return-Keeps, call-Keeps, call_if-Keeps, call_for-Keeps, check_fatal-Keeps,
)
