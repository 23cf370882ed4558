-- ===== src/Relay/Service/Keeps.antt =====
-- Invariants of handlers: a statement about the database and the number of clock readings so far,
-- with one rule for each way to build an action.
use safechat.Prelude.{
  ℕ, zero, suc, ◌≤◌, ◌≡◌, Bool, true, false, Option, none, some, Result, ok, err, arith, subst,
}
use safechat.Relay.{Db, ApiError, Invalid}
use native.Mathlib.Decide.{dec_le}
use safechat.Relay.Service.{
  World, Action, pure, or_raise, query, checked, internally, raise_if, execute, now, random_bytes,
  continue, ◌>>=◌, settle, transaction,
}

-- `w'` is reached from `w` by an action that keeps `Q`, on the clock `c`.
pub record After (c : ℕ → ℕ) (Q : ℕ → Db → Type 0) (w w' : World) : Type 0 where
  pub same_clock : w'.clock ≡ c
  pub holds : Q w'.readings w'.db
  pub forward : w.readings ≤ w'.readings

-- `m` keeps `Q`, whether it returns or raises.
pub record Keeps {A : Type 0} (c : ℕ → ℕ) (Q : ℕ → Db → Type 0) (m : Action A) : Type 0 where
  pub at : (w : World) → w.clock ≡ c → Q w.readings w.db → After c Q w (m w).1

-- More readings of the clock do no harm to `Q`.
abbrev pub Stable : (ℕ → Db → Type 0) → Type 0
Stable Q = (k : ℕ) (db : Db) → Q k db → Q (suc k) db

Stable-le : (Q : ℕ → Db → Type 0) (db : Db) (k n : ℕ) → Stable Q → k ≤ n → Q k db → Q n db
Stable-le Q db k zero s h q = let e : k ≡ 0 = omega arith in subst (λ i. Q i db) e q
Stable-le Q db k (suc n) s h q = elim (dec_le k n) [
  | yes le ↦ s n db (Stable-le Q db k n s le q)
  | no gt ↦ let e : k ≡ suc n = omega arith in subst (λ i. Q i db) e q
]

module _ {c : ℕ → ℕ} {Q : ℕ → Db → Type 0} where
  unchanged : (w : World) → w.clock ≡ c → Q w.readings w.db → After c Q w w
  unchanged w e h = record { same_clock = e; holds = h; forward = omega arith }

  pub Keeps-pure : {A : Type 0} (a : A) → Keeps c Q (pure a)
  unfolding pure
  Keeps-pure a = record { at = unchanged }

  pub Keeps-or_raise : {A : Type 0} (o : Option A) (x : ApiError) → Keeps c Q (or_raise o x)
  unfolding or_raise
  Keeps-or_raise none x = record { at = unchanged }
  Keeps-or_raise (some a) x = record { at = unchanged }

  pub Keeps-query : {A : Type 0} (f : Db → A) → Keeps c Q (query f)
  unfolding query
  Keeps-query f = record { at = unchanged }

  pub Keeps-checked : {A : Type 0} (r : Result Invalid A) → Keeps c Q (checked r)
  unfolding checked
  Keeps-checked (ok a) = record { at = unchanged }
  Keeps-checked (err x) = record { at = unchanged }

  pub Keeps-internally : {A : Type 0} (r : Result Invalid A) → Keeps c Q (internally r)
  unfolding internally
  Keeps-internally (ok a) = record { at = unchanged }
  Keeps-internally (err x) = record { at = unchanged }

  pub Keeps-raise_if : (b : Bool) (x : ApiError) → Keeps c Q (raise_if b x)
  unfolding raise_if
  Keeps-raise_if true x = record { at = unchanged }
  Keeps-raise_if false x = record { at = unchanged }

  pub Keeps-random_bytes : Keeps c Q random_bytes
  unfolding random_bytes
  Keeps-random_bytes = record {
    at = λ w e h. record { same_clock = e; holds = h; forward = omega arith };
  }

  pub Keeps-execute :
      (f : Db → Db) → ((k : ℕ) (db : Db) → Q k db → Q k (f db)) → Keeps c Q (execute f)
  unfolding execute
  Keeps-execute f k = record {
    at = λ w e h. record { same_clock = e; holds = k w.readings w.db h; forward = omega arith };
  }

  pub Keeps-now : Stable Q → Keeps c Q now
  unfolding now
  Keeps-now s = record {
    at = λ w e h. record { same_clock = e; holds = s w.readings w.db h; forward = omega arith };
  }

  continue-After :
      {A B : Type 0} (r : Result ApiError A) (f : A → Action B) (w w' : World)
      → ((a : A) → Keeps c Q (f a))
      → After c Q w w'
      → After c Q w (continue r f w').1
  continue-After (ok a) f w w' k h =
      let later = (k a).at w' h.same_clock h.holds in
      record {
        same_clock = later.same_clock;
        holds = later.holds;
        forward = omega (arith, h.forward, later.forward);
      }
  continue-After (err x) f w w' k h = h

  pub Keeps-bind :
      {A B : Type 0} (m : Action A) (f : A → Action B)
      → Keeps c Q m
      → ((a : A) → Keeps c Q (f a))
      → Keeps c Q (m >>= f)
  unfolding ◌>>=◌
  Keeps-bind m f km kf = record {
    at = λ w e h. continue-After (m w).0 f w (m w).1 kf (km.at w e h);
  }

  settle-After :
      {A : Type 0} (w : World) (r : Result ApiError A × World)
      → Stable Q
      → Q w.readings w.db
      → After c Q w r.1
      → After c Q w (settle w.db r).1
  settle-After w (ok a, w') s q h = h
  settle-After w (err x, w') s q h = record {
    same_clock = h.same_clock;
    holds = Stable-le Q w.db w.readings w'.readings s h.forward q;
    forward = h.forward;
  }

  pub Keeps-transaction :
      {A : Type 0} (m : Action A) → Stable Q → Keeps c Q m → Keeps c Q (transaction m)
  unfolding transaction
  Keeps-transaction m s k = record { at = λ w e h. settle-After w (m w) s h (k.at w e h) }

pub ruleset keeps_rules = (
  Keeps-pure, Keeps-or_raise, Keeps-query, Keeps-checked, Keeps-internally, Keeps-raise_if,
  Keeps-random_bytes, Keeps-execute, Keeps-now, Keeps-bind, Keeps-transaction,
)
