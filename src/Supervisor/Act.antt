-- ===== src/Supervisor/Act.antt =====
-- Chains of calls that may fail, over a generation and the world: the shape of `newGeneration` and
-- `activate` in internal/runtimesupervisor/supervisor.go, where every step is followed by
-- `if err != nil { return err }`.
pub mod Rules
use credimi_runner.Prelude.{Bool, if◌then◌else◌, String, Option, none, some}
use credimi_runner.GoError.{GoError, wrap}
use credimi_runner.Supervisor.Generation.{Generation, Env, Result, ok, err}

pub record Live (W : Type 0) : Type 0 where
  pub gen : Generation
  pub world : W

abbrev pub Act : Type 0 → Type 0 → Type 0
Act W A = Live W → Live W × Result A

unfoldable pub return : {W A : Type 0} → A → Act W A
return a l = (l, ok a)

abbrev pub and_then : {W A B : Type 0} → Live W × Result A → (A → Act W B) → Live W × Result B
and_then (l, ok a) f = f a l
and_then (l, err e) f = (l, err e)

infixl 5 ◌>>=◌ ◌>>◌
unfoldable pub ◌>>=◌ : {W A B : Type 0} → Act W A → (A → Act W B) → Act W B
◌>>=◌ m f l = and_then (m l) f

unfoldable pub ◌>>◌ : {W B : Type 0} → Act W (Unit {0}) → Act W B → Act W B
unfolding ◌>>=◌
m >> k = m >>= λ _. k

-- An error is wrapped with the words of the source.
abbrev pub as_step : Option GoError → String → Result (Unit {0})
as_step none text = ok tt
as_step (some e) text = err (wrap text e)

unfoldable pub call : {W : Type 0} → String → (W → W × Option GoError) → Act W (Unit {0})
call text f l = let (w, e) = f l.world in (record l { world = w }, as_step e text)

-- A dependency that may be nil.
unfoldable pub call_if : {W : Type 0} → String → Option (W → W × Option GoError) → Act W (Unit {0})
unfolding return call
call_if text none = return tt
call_if text (some f) = call text f

unfoldable pub change : {W : Type 0} → (Generation → Generation) → Act W (Unit {0})
change f l = (record l { gen = f l.gen }, ok tt)

abbrev as_fatal : Option GoError → Result (Unit {0})
as_fatal none = ok tt
as_fatal (some e) = err e

-- `if err := g.fatalError(); err != nil { return err }`
unfoldable pub check_fatal : {W : Type 0} → Env W → Act W (Unit {0})
check_fatal env l = let (w, e) = env.poll_fatal l.world in (record l { world = w }, as_fatal e)

abbrev wrap_result : {A : Type 0} → Result A → String → Result A
wrap_result (ok a) text = ok a
wrap_result (err e) text = err (wrap text e)

unfoldable pub call_for : {W A : Type 0} → String → (W → W × Result A) → Act W A
call_for text f l = let (w, r) = f l.world in (record l { world = w }, wrap_result r text)

-- `if g.part != nil { ... }`: without the part the step does nothing and gives `a`.
unfoldable pub only_if : {W A : Type 0} → (Generation → Bool) → A → Act W A → Act W A
only_if test a m l = if test l.gen then m l else (l, ok a)
