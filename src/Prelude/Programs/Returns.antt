-- ===== src/Prelude/Programs/Returns.antt =====
-- What it takes for a program to return a value: every step of it did.
use safechat.Prelude.{◌≡◌, refl, ap, Bool, true, false, Option, none, some, Result, ok, err, arith}
use safechat.Prelude.Bytes.{Bytes}
use safechat.Prelude.Programs.Ensures.{ok-injective}
use safechat.Prelude.Programs.{Program, pure, lift, get, raise_if, modify, context, continue, ◌>>=◌}

abbrev pub Returns : {W B : Type 0} → Program W B → W → B → W → Type 0
Returns m w b w' = m w ≡ (ok b, w')

pub returns :
    {W B : Type 0} (m : Program W B) (w : W) (b : B) → (m w).0 ≡ ok b → Returns m w b (m w).1
returns m w b e = ap (λ r. (r, (m w).1)) e

pub pure-ok : {W B : Type 0} (a b : B) (w w' : W) → Returns (pure a) w b w' → (a ≡ b) × (w ≡ w')
unfolding pure
pure-ok a b w w' e = (ok-injective a b (ap (λ p. p.0) e), ap (λ p. p.1) e)

-- Each takes what is to be shown from the facts that the step gives.
module _ {W A B C : Type 0} (f : A → Program W B) {b : B} {w' : W} where
  continue-ok :
      (r : Result Bytes A) (v : W)
      → continue r f v ≡ (ok b, w')
      → ((a : A) → r ≡ ok a → Returns (f a) v b w' → C)
      → C
  continue-ok (ok a) v e then = then a refl e
  continue-ok (err x) v e then = ground arith

  pub bind-ok :
      {w : W} (m : Program W A)
      → Returns (m >>= f) w b w'
      → ((a : A) → (m w).0 ≡ ok a → Returns (f a) (m w).1 b w' → C)
      → C
  unfolding ◌>>=◌
  bind-ok {w = w} m e then = continue-ok (m w).0 (m w).1 e then

  pub lift-ok :
      {w : W} {r : Result Bytes A}
      → Returns (lift r >>= f) w b w'
      → ((a : A) → r ≡ ok a → Returns (f a) w b w' → C)
      → C
  unfolding ◌>>=◌
  lift-ok {r = ok a} e then = then a refl e
  lift-ok {r = err x} e then = ground arith

  pub get-ok :
      {w : W} (read : W → A)
      → Returns (get read >>= f) w b w'
      → (Returns (f (read w)) w b w' → C)
      → C
  unfolding ◌>>=◌
  get-ok read e then = then e

  pub context-ok :
      {w : W} {o : Option A} (x : Bytes)
      → Returns (context o x >>= f) w b w'
      → ((a : A) → o ≡ some a → Returns (f a) w b w' → C)
      → C
  unfolding ◌>>=◌
  context-ok {o = none} x e then = ground arith
  context-ok {o = some a} x e then = then a refl e

module _ {W B C : Type 0} (f : Unit {0} → Program W B) {b : B} {w' : W} where
  pub raise_if-ok :
      {w : W} {c : Bool} (x : Bytes)
      → Returns (raise_if c x >>= f) w b w'
      → (c ≡ false → Returns (f tt) w b w' → C)
      → C
  unfolding ◌>>=◌
  raise_if-ok {c = true} x e then = ground arith
  raise_if-ok {c = false} x e then = then refl e

  pub modify-ok :
      {w : W} (g : W → W) → Returns (modify g >>= f) w b w' → (Returns (f tt) (g w) b w' → C) → C
  unfolding ◌>>=◌
  modify-ok g e then = then e
