-- ===== src/Prelude/Results.antt =====
-- Fallible code: Rust's `Result`, its `?` as the bind of a `do` block, and `bail!` under a test.
use mathlib.Core.Path.{◌≡◌, refl}
use mathlib.Core.Logic.{◌⊎◌, inl, inr}
use mathlib.Core.Bool.{Bool, true, false}
use mathlib.Core.Option.{Option, none, some}

pub data Result {ℓ} (E : Type 0) (A : Type ℓ) : Type ℓ where
  err : E → Result E A
  ok : A → Result E A

module _ {ℓ κ} {E : Type 0} {A : Type ℓ} {B : Type κ} where
  infixl 5 ◌>>=◌
  -- `let value = step?; next(value)`
  abbrev pub ◌>>=◌ : Result E A → (A → Result E B) → Result E B
  err reason >>= next = err reason
  ok value >>= next = next value

module _ {κ} {E : Type 0} {B : Type κ} where
  infixl 5 ◌>>◌
  -- `step?; rest`
  abbrev pub ◌>>◌ : Result E (Unit {0}) → Result E B → Result E B
  step >> rest = step >>= λ _. rest

-- `if c { bail!(e) }`
abbrev pub bail_if : {E : Type 0} → Bool → E → Result E (Unit {0})
bail_if true e = err e
bail_if false e = ok tt

-- `o.ok_or(e)?` and `o.context(e)?`
abbrev pub ok_or {ℓ} : {E : Type 0} {A : Type ℓ} → Option A → E → Result E A
ok_or none e = err e
ok_or (some a) e = ok a

-- `r.map_err(f)`
abbrev pub map_err {ℓ} : {E F : Type 0} {A : Type ℓ} → (E → F) → Result E A → Result F A
map_err f (ok a) = ok a
map_err f (err e) = err (f e)

pub Result-cases {ℓ} :
    {E : Type 0} {A : Type ℓ} (r : Result E A) → ((a : A) × (r ≡ ok a)) ⊎ ((e : E) × (r ≡ err e))
Result-cases (err reason) = inr (reason, refl)
Result-cases (ok value) = inl (value, refl)

module _ {ℓ κ} {E : Type 0} {A : Type ℓ} {B : Type κ} where
  pub >>=-eq-ok :
      (step : Result E A) (f : A → Result E B) {result : B}
      → (step >>= f) ≡ ok result
      → (value : A) × (step ≡ ok value) × (f value ≡ ok result)
  >>=-eq-ok (err reason) f made = cc
  >>=-eq-ok (ok value) f made = (value, refl, made)

pub >>=_assoc {ℓ κ μ} :
    {E : Type 0} {A : Type ℓ} {B : Type κ} {C : Type μ} (m : Result E A) (f : A → Result E B)
    (g : B → Result E C)
    → ((m >>= f) >>= g) ≡ (m >>= λ a. f a >>= g)
>>=_assoc (ok a) f g = refl
>>=_assoc (err e) f g = refl
