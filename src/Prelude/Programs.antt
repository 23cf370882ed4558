-- ===== src/Prelude/Programs.antt =====
-- Fallible code that changes state: `anyhow::Result` in a method that takes `&mut self`. What was
-- changed before an error stays changed. An error is its text.
pub mod Keeps
pub mod Returns
pub mod Ensures
use safechat.Prelude.{Bool, true, false, Option, none, some, Result, ok, err}
use safechat.Prelude.Bytes.{Bytes}

abbrev pub Program : Type 0 → Type 0 → Type 0
Program W A = W → Result Bytes A × W

module _ {W A : Type 0} where
  pub pure : A → Program W A
  pure a w = (ok a, w)

  -- `result?`
  pub lift : Result Bytes A → Program W A
  lift r w = (r, w)

  -- A read of the state.
  pub get : (W → A) → Program W A
  get f w = (ok (f w), w)

module _ {W : Type 0} where
  -- `if c { bail!(reason) }`
  pub raise_if : Bool → Bytes → Program W (Unit {0})
  raise_if true reason w = (err reason, w)
  raise_if false reason w = (ok tt, w)

  -- An assignment.
  pub modify : (W → W) → Program W (Unit {0})
  modify f w = (ok tt, f w)

  -- `option.context(reason)?`
  pub context : {A : Type 0} → Option A → Bytes → Program W A
  context none reason w = (err reason, w)
  context (some a) reason w = (ok a, w)

-- A call of a part of the state, which `put` writes back.
pub within : {P W A : Type 0} → (W → P) → (P → W → W) → Program P A → Program W A
within part put call w = let (r, p) = call (part w) in (r, put p w)

-- The result of a call as a value, for a `match` on it.
pub attempt : {W A : Type 0} → Program W A → Program W (Result Bytes A)
attempt call w = let (r, w') = call w in (ok r, w')

-- `return Err(reason)`
pub raise : {W A : Type 0} → Bytes → Program W A
raise reason w = (err reason, w)

abbrev pub continue : {W A B : Type 0} → Result Bytes A → (A → Program W B) → Program W B
continue (ok a) f w = f a w
continue (err e) f w = (err e, w)

-- To open `>>=` is to open the steps too.
infixl 5 ◌>>=◌ ◌>>◌
unfoldable pub ◌>>=◌ : {W A B : Type 0} → Program W A → (A → Program W B) → Program W B
unfolding pure lift get raise_if modify context within attempt raise
◌>>=◌ m f w = let (r, w') = m w in continue r f w'

abbrev pub ◌>>◌ : {W B : Type 0} → Program W (Unit {0}) → Program W B → Program W B
m >> k = m >>= λ _. k
