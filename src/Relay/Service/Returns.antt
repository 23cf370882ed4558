-- ===== src/Relay/Service/Returns.antt =====
-- What it takes for a handler to return a value: every step of it did.
use safechat.Prelude.{
  ℕ, suc, ◌≡◌, refl, ap, Bool, true, false, Option, none, some, Result, ok, err, arith,
}
use safechat.Prelude.Bytes.{Bytes}
use safechat.Relay.{Db, ApiError, Invalid}
use safechat.Relay.Service.{
  World, Action, pure, or_raise, query, checked, internally, raise_if, now, random_bytes, execute,
  continue, ◌>>=◌,
}

abbrev pub Returns : {B : Type 0} → Action B → World → B → World → Type 0
Returns m w b w' = m w ≡ (ok b, w')

pub returns :
    {B : Type 0} (m : Action B) (w : World) (b : B) → (m w).0 ≡ ok b → Returns m w b (m w).1
returns m w b e = ap (λ r. (r, (m w).1)) e

-- Each takes what is to be shown from the facts that the step gives.
module _ {A B : Type 0} {C : Type 0} (f : A → Action B) {b : B} {w' : World} where
  continue-ok :
      (r : Result ApiError A) (v : World)
      → continue r f v ≡ (ok b, w')
      → ((a : A) → r ≡ ok a → Returns (f a) v b w' → C)
      → C
  continue-ok (ok a) v e then = then a refl e
  continue-ok (err x) v e then = ground arith

  pub bind-ok :
      {w : World} (m : Action A)
      → Returns (m >>= f) w b w'
      → ((a : A) → (m w).0 ≡ ok a → Returns (f a) (m w).1 b w' → C)
      → C
  unfolding ◌>>=◌
  bind-ok {w = w} m e then = continue-ok (m w).0 (m w).1 e then

  pub or_raise-ok :
      {w : World} {o : Option A} (x : ApiError)
      → Returns (or_raise o x >>= f) w b w'
      → ((a : A) → o ≡ some a → Returns (f a) w b w' → C)
      → C
  unfolding ◌>>=◌
  or_raise-ok {o = none} x e then = ground arith
  or_raise-ok {o = some a} x e then = then a refl e

  pub query-ok :
      {w : World} (q : Db → A)
      → Returns (query q >>= f) w b w'
      → (Returns (f (q w.db)) w b w' → C)
      → C
  unfolding ◌>>=◌
  query-ok q e then = then e

  pub checked-ok :
      {w : World} {r : Result Invalid A}
      → Returns (checked r >>= f) w b w'
      → ((a : A) → r ≡ ok a → Returns (f a) w b w' → C)
      → C
  unfolding ◌>>=◌
  checked-ok {r = ok a} e then = then a refl e
  checked-ok {r = err x} e then = ground arith

  pub internally-ok :
      {w : World} {r : Result Invalid A}
      → Returns (internally r >>= f) w b w'
      → ((a : A) → r ≡ ok a → Returns (f a) w b w' → C)
      → C
  unfolding ◌>>=◌
  internally-ok {r = ok a} e then = then a refl e
  internally-ok {r = err x} e then = ground arith

module _ {B : Type 0} {C : Type 0} {w : World} {b : B} {w' : World} where
  pub now-ok :
      (f : ℕ → Action B)
      → Returns (now >>= f) w b w'
      → (Returns (f (w.clock w.readings)) (record w { readings = suc w.readings }) b w' → C)
      → C
  unfolding ◌>>=◌
  now-ok f e then = then e

  pub random_bytes-ok :
      (f : Bytes → Action B)
      → Returns (random_bytes >>= f) w b w'
      → (Returns (f (w.random w.draws)) (record w { draws = suc w.draws }) b w' → C)
      → C
  unfolding ◌>>=◌
  random_bytes-ok f e then = then e

  pub execute-ok :
      (f : Unit {0} → Action B) (g : Db → Db)
      → Returns (execute g >>= f) w b w'
      → (Returns (f tt) (record w { db = g w.db }) b w' → C)
      → C
  unfolding ◌>>=◌
  execute-ok f g e then = then e

  pub last_or_raise-ok :
      (o : Option B) (x : ApiError) → Returns (or_raise o x) w b w' → (o ≡ some b → w ≡ w' → C) → C
  unfolding or_raise
  last_or_raise-ok none x e then = ground arith
  last_or_raise-ok (some a) x e then = then (ground arith) (ground arith)

  pub raise_if-ok :
      (f : Unit {0} → Action B) {c : Bool} (x : ApiError)
      → Returns (raise_if c x >>= f) w b w'
      → (c ≡ false → Returns (f tt) w b w' → C)
      → C
  unfolding ◌>>=◌
  raise_if-ok f {c = true} x e then = ground arith
  raise_if-ok f {c = false} x e then = then refl e

pub last_raise_if-ok :
    (c : Bool) (x : ApiError) (v : World) (u : Unit {0}) (w' : World)
    → Returns (raise_if c x) v u w'
    → c ≡ false
unfolding raise_if
last_raise_if-ok true x v u w' e = ground arith
last_raise_if-ok false x v u w' e = refl

pub last_raise_if-world :
    (c : Bool) (x : ApiError) (v : World) (u : Unit {0}) (w' : World)
    → Returns (raise_if c x) v u w'
    → v ≡ w'
unfolding raise_if
last_raise_if-world true x v u w' e = ground arith
last_raise_if-world false x v u w' e = ap (λ r. r.1) e

pub last_execute-db :
    (g : Db → Db) (v : World) (u : Unit {0}) (w' : World)
    → Returns (execute g) v u w'
    → g v.db ≡ w'.db
unfolding execute
last_execute-db g v u w' e = ap (λ r. r.1.db) e

pub pure-ok : {B : Type 0} (a b : B) (w w' : World) → Returns (pure a) w b w' → (a ≡ b) × (w ≡ w')
unfolding pure
pure-ok a b w w' e = ground arith
