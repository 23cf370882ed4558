-- ===== src/Relay/Service.antt =====
-- The state that a handler runs in, and its monad: reads of the clock, random bytes, the database,
-- and an `ApiError` that ends the handler. What was written before an error stays written.
pub mod Keeps
pub mod Returns
use safechat.Prelude.{ℕ, suc, Bool, true, false, Option, none, some, Result, ok, err}
use safechat.Prelude.Bytes.{Bytes}
use safechat.Relay.{Db, ApiError, Invalid, bad_request, internal}

-- The clock and the random source are streams; the counters say how far they have been read.
pub record World : Type 0 where
  pub db : Db
  pub clock : ℕ → ℕ
  pub readings : ℕ
  pub random : ℕ → Bytes
  pub draws : ℕ

abbrev pub Action : Type 0 → Type 0
Action A = World → Result ApiError A × World

module _ {A : Type 0} where
  pub pure : A → Action A
  pure a w = (ok a, w)

  -- `o.ok_or_else(e)?`
  pub or_raise : Option A → ApiError → Action A
  or_raise none e w = (err e, w)
  or_raise (some a) e w = (ok a, w)

  -- A query.
  pub query : (Db → A) → Action A
  query f w = (ok (f w.db), w)

  -- `validated.map_err(bad_request)?`
  pub checked : Result Invalid A → Action A
  checked (ok a) w = (ok a, w)
  checked (err e) w = (err (bad_request e), w)

-- `r.map_err(internal)?`: the reason goes to the log alone.
pub internally : {A : Type 0} → Result Invalid A → Action A
internally (ok a) w = (ok a, w)
internally (err e) w = (err internal, w)

-- `if c { return Err(e) }`
pub raise_if : Bool → ApiError → Action (Unit {0})
raise_if true e w = (err e, w)
raise_if false e w = (ok tt, w)

-- A statement that changes the database.
pub execute : (Db → Db) → Action (Unit {0})
execute f w = (ok tt, record w { db = f w.db })

-- `now()`
pub now : Action ℕ
now w = (ok (w.clock w.readings), record w { readings = suc w.readings })

-- `random_bytes::<32>()`
pub random_bytes : Action Bytes
random_bytes w = (ok (w.random w.draws), record w { draws = suc w.draws })

abbrev pub continue : {A B : Type 0} → Result ApiError A → (A → Action B) → Action B
continue (ok a) f w = f a w
continue (err e) f w = (err e, w)

-- To open `>>=` is to open the actions too.
infixl 5 ◌>>=◌ ◌>>◌
unfoldable pub ◌>>=◌ : {A B : Type 0} → Action A → (A → Action B) → Action B
unfolding pure or_raise query checked internally raise_if execute now random_bytes
◌>>=◌ m f w = let (r, w') = m w in continue r f w'

abbrev pub ◌>>◌ : {B : Type 0} → Action (Unit {0}) → Action B → Action B
m >> k = m >>= λ _. k

abbrev pub settle : {A : Type 0} → Db → Result ApiError A × World → Result ApiError A × World
settle db (ok a, w) = (ok a, w)
settle db (err e, w) = (err e, record w { db = db })

-- A transaction that is dropped on an early return: its writes are rolled back.
unfoldable pub transaction : {A : Type 0} → Action A → Action A
transaction m w = settle w.db (m w)
