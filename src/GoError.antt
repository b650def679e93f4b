-- ===== src/GoError.antt =====
-- Go's error values as this program uses them: `errors.New`, `fmt.Errorf` with `%w`,
-- `errors.Join`, and the error types that `errors.Is` and `errors.As` look for. A nil error is
-- `none`.
pub mod Laws
use credimi_runner.Prelude.{
  ℕ, String, Bool, true, false, ◌||◌, Option, none, some, List, [], ◌∷◌, if◌then◌else◌,
}

-- The sentinel errors of `syscall` that the program tests for, and `os.ErrNotExist`.
pub data Syscall : Type 0 where
  econnrefused econnreset ehostunreach enetunreach etimedout enoent : Syscall

mutual
  pub data GoError : Type 0 where
    -- `errors.New(text)`
    message : String → GoError
    -- `fmt.Errorf("text: %w", err)`
    wrap : String → GoError → GoError
    -- `errors.Join(errs...)`
    joined : Errors → GoError
    -- `context.Canceled` and `context.DeadlineExceeded`
    canceled : GoError
    deadline_exceeded : GoError
    -- `*dashboardruntime.CredimiStatusError`
    status : ℕ → GoError
    -- an error that implements `net.Error`, with its `Timeout()` and `Temporary()`, around another
    network : Bool → Bool → GoError → GoError
    syscall : Syscall → GoError

  pub data Errors : Type 0 where
    nil : Errors
    cons : GoError → Errors → Errors

-- What a function with a value and an error returns.
pub data Result {ℓ} (A : Type ℓ) : Type ℓ where
  ok : A → Result A
  err : GoError → Result A

-- `errors.Join` drops nil errors and is nil when nothing is left.
pub keep : List (Option GoError) → Errors
keep [] = nil
keep (none ∷ es) = keep es
keep (some e ∷ es) = cons e (keep es)

of_errors : Errors → Option GoError
of_errors nil = none
of_errors (cons e es) = some (joined (cons e es))

unfoldable pub join : List (Option GoError) → Option GoError
unfolding keep of_errors
join es = of_errors (keep es)

-- A join whose first error is there.
abbrev pub join_with : GoError → List (Option GoError) → GoError
unfolding keep
join_with e es = joined (cons e (keep es))

abbrev pub or_else {ℓ} : {A : Type ℓ} → Option A → Option A → Option A
or_else none o = o
or_else (some a) o = some a

-- `errors.Is` against the two errors of `context`, and against the connection errors of `syscall`.
-- `context.DeadlineExceeded` also implements `net.Error`.
abbrev is_context_leaf : GoError → Bool
is_context_leaf canceled = true
is_context_leaf deadline_exceeded = true
is_context_leaf _ = false

abbrev is_connection_code : Syscall → Bool
is_connection_code enoent = false
is_connection_code _ = true

unfoldable mutual
  pub is_context : GoError → Bool
  is_context (wrap m e) = is_context e
  is_context (network t u e) = is_context e
  is_context (joined es) = any_context es
  is_context canceled = true
  is_context deadline_exceeded = true
  is_context (message m) = false
  is_context (status n) = false
  is_context (syscall s) = false

  pub any_context : Errors → Bool
  any_context nil = false
  any_context (cons e es) = is_context e || any_context es

-- `errors.Is` against `context.Canceled` alone.
unfoldable mutual
  pub is_canceled : GoError → Bool
  is_canceled (wrap m e) = is_canceled e
  is_canceled (network t u e) = is_canceled e
  is_canceled (joined es) = any_canceled es
  is_canceled canceled = true
  is_canceled deadline_exceeded = false
  is_canceled (message m) = false
  is_canceled (status n) = false
  is_canceled (syscall s) = false

  any_canceled : Errors → Bool
  any_canceled nil = false
  any_canceled (cons e es) = is_canceled e || any_canceled es

unfoldable mutual
  pub is_connection : GoError → Bool
  is_connection (wrap m e) = is_connection e
  is_connection (network t u e) = is_connection e
  is_connection (joined es) = any_connection es
  is_connection (syscall s) = is_connection_code s
  is_connection canceled = false
  is_connection deadline_exceeded = false
  is_connection (message m) = false
  is_connection (status n) = false

  pub any_connection : Errors → Bool
  any_connection nil = false
  any_connection (cons e es) = is_connection e || any_connection es

-- `errors.As` into `*CredimiStatusError`: the first one met from the outside in, left to right.
unfoldable mutual
  pub as_status : GoError → Option ℕ
  as_status (status n) = some n
  as_status (wrap m e) = as_status e
  as_status (network t u e) = as_status e
  as_status (joined es) = first_status es
  as_status canceled = none
  as_status deadline_exceeded = none
  as_status (message m) = none
  as_status (syscall s) = none

  pub first_status : Errors → Option ℕ
  first_status nil = none
  first_status (cons e es) = or_else (as_status e) (first_status es)

-- `errors.As` into `net.Error`, and what `Timeout() || Temporary()` says of the one found.
-- `syscall.Errno` implements `net.Error` too: of the codes here only `ETIMEDOUT` is a timeout.
abbrev syscall_passes : Syscall → Bool
syscall_passes etimedout = true
syscall_passes _ = false

unfoldable mutual
  pub as_network : GoError → Option Bool
  as_network (network t u e) = some (t || u)
  as_network deadline_exceeded = some true
  as_network (syscall s) = some (syscall_passes s)
  as_network (wrap m e) = as_network e
  as_network (joined es) = first_network es
  as_network canceled = none
  as_network (message m) = none
  as_network (status n) = none

  pub first_network : Errors → Option Bool
  first_network nil = none
  first_network (cons e es) = or_else (as_network e) (first_network es)
