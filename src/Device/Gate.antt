-- ===== src/Device/Gate.antt =====
-- The gates of internal/device/gate.go: a channel with one token for each device ID.
use credimi_runner.Prelude.{
  ℕ, ◌+◌, Bool, true, false, String, str_eq, Option, none, some, if◌then◌else◌, ◌==◌,
}
use credimi_runner.GoError.{GoError}

-- What `Acquire` gave to a caller: a function that returns the token, once.
pub record Grant : Type 0 where
  pub device : String
  pub used : Bool

-- `tokens` is the map `gates`: `none` without an entry, and otherwise whether the token lies in the
-- channel. Grants are numbered below `fresh`.
pub record Gates : Type 0 where
  pub tokens : String → Option Bool
  pub grants : ℕ → Grant
  pub fresh : ℕ

abbrev no_grant : Grant
no_grant = record { device = ""; used = true }

unfoldable pub new_gates : Gates
new_gates = record { tokens = λ id. none; grants = λ n. no_grant; fresh = 0 }

abbrev pub set_token : String → Bool → (String → Option Bool) → String → Option Bool
set_token id b tokens x = if str_eq x id then some b else tokens x

abbrev pub set_grant : ℕ → Grant → (ℕ → Grant) → ℕ → Grant
set_grant n grant grants m = if m == n then grant else grants m

pub data Acquired : Type 0 where
  granted : ℕ → Acquired
  refused : GoError → Acquired
  blocked : Acquired

-- A new entry has its token.
abbrev pub with_entry : Option Bool → String → Gates → Gates
with_entry none id g = record g { tokens = set_token id true g.tokens }
with_entry (some b) id g = g

-- A receive from the channel. Without a token the caller waits, and receives later.
abbrev pub receive : Option Bool → String → Gates → Gates × Acquired
receive none id g = (g, blocked)
receive (some false) id g = (g, blocked)
receive (some true) id g = (
  record g {
    tokens = set_token id false g.tokens;
    grants = set_grant g.fresh (record { device = id; used = false }) g.grants;
    fresh = g.fresh + 1;
  },
  granted g.fresh,
)

abbrev pub select : Option GoError → String → Gates → Gates × Acquired
select (some e) id g = (g, refused e)
select none id g = receive (g.tokens id) id g

-- `Acquire`: `early` is the context's error before the entry is looked up, `late` the one of a
-- `select` that took `ctx.Done()`.
unfoldable pub acquire : Option GoError → Option GoError → String → Gates → Gates × Acquired
acquire (some e) late id g = (g, refused e)
acquire none late id g = select late id (with_entry (g.tokens id) id g)

-- The function that `Acquire` returned, which `sync.Once` guards.
abbrev pub give_back : Bool → ℕ → Gates → Gates
give_back true n g = g
give_back false n g = record g {
  tokens = set_token (g.grants n).device true g.tokens;
  grants = set_grant n (record (g.grants n) { used = true }) g.grants;
}

unfoldable pub release : ℕ → Gates → Gates
release n g = give_back (g.grants n).used n g
