-- ===== src/Prelude/Programs/Keeps.antt =====
-- What every step of a program keeps, the whole program keeps, whether it returns or fails.
use safechat.Prelude.{
  ◌≡◌, refl, inl, inr, Result-cases, Bool, true, false, Option, none, some, Result, ok, err,
}
use safechat.Prelude.Bytes.{Bytes}
use safechat.Prelude.Programs.{
  Program, pure, lift, get, raise_if, modify, context, within, attempt, raise, continue, ◌>>=◌,
}

-- `m` keeps `P`.
pub record Keeps {W A : Type 0} (P : W → Type 0) (m : Program W A) : Type 0 where
  pub at : (w : W) → P w → P (m w).1

module _ {W : Type 0} {P : W → Type 0} where
  pub Keeps-pure : {A : Type 0} (a : A) → Keeps P (pure {W = W} a)
  unfolding pure
  Keeps-pure a = record { at = λ w h. h }

  pub Keeps-lift : {A : Type 0} (r : Result Bytes A) → Keeps P (lift {W = W} r)
  unfolding lift
  Keeps-lift r = record { at = λ w h. h }

  pub Keeps-get : {A : Type 0} (f : W → A) → Keeps P (get f)
  unfolding get
  Keeps-get f = record { at = λ w h. h }

  pub Keeps-raise_if : (b : Bool) (e : Bytes) → Keeps P (raise_if {W = W} b e)
  unfolding raise_if
  Keeps-raise_if true e = record { at = λ w h. h }
  Keeps-raise_if false e = record { at = λ w h. h }

  pub Keeps-context : {A : Type 0} (o : Option A) (e : Bytes) → Keeps P (context {W = W} o e)
  unfolding context
  Keeps-context none e = record { at = λ w h. h }
  Keeps-context (some a) e = record { at = λ w h. h }

  pub Keeps-modify : (f : W → W) → ((w : W) → P w → P (f w)) → Keeps P (modify f)
  unfolding modify
  Keeps-modify f k = record { at = k }

  pub Keeps-within :
      {S A : Type 0} (part : W → S) (put : S → W → W) (call : Program S A)
      → ((w : W) (s : S) → P w → P (put s w))
      → Keeps P (within part put call)
  unfolding within
  Keeps-within part put call k = record { at = λ w h. k w (call (part w)).1 h }

  pub Keeps-attempt : {A : Type 0} (m : Program W A) → Keeps P m → Keeps P (attempt m)
  unfolding attempt
  Keeps-attempt m k = record { at = k.at }

  pub Keeps-raise : {A : Type 0} (e : Bytes) → Keeps P (raise {W = W} {A = A} e)
  unfolding raise
  Keeps-raise e = record { at = λ w h. h }

  continue-P :
      {A B : Type 0} (r : Result Bytes A) (f : A → Program W B) (w : W)
      → ((a : A) → Keeps P (f a))
      → P w
      → P (continue r f w).1
  continue-P (ok a) f w k h = (k a).at w h
  continue-P (err e) f w k h = h

  pub Keeps->>= :
      {A B : Type 0} (m : Program W A) (f : A → Program W B)
      → Keeps P m
      → ((a : A) → Keeps P (f a))
      → Keeps P (m >>= f)
  unfolding ◌>>=◌
  Keeps->>= m f k l = record { at = λ w h. continue-P (m w).0 f (m w).1 l (k.at w h) }

-- A step at one state, with what is known of its value there.
module _ {W A B : Type 0} (P : W → Type 0) (f : A → Program W B) (w : W) where
  pub >>=-at :
      (m : Program W A)
      → P (m w).1
      → ((a : A) → (m w).0 ≡ ok a → P (f a (m w).1).1)
      → P ((m >>= f) w).1
  unfolding ◌>>=◌
  >>=-at m h k = elim (Result-cases (m w).0) [ inl (a, e) ↦ rw e (k a e) | inr (x, e) ↦ rw e h ]

  pub context-at :
      (o : Option A) (e : Bytes)
      → P w
      → ((a : A) → o ≡ some a → P (f a w).1)
      → P ((context o e >>= f) w).1
  unfolding ◌>>=◌
  context-at none e h k = h
  context-at (some a) e h k = k a refl

-- What an invariant asks of a program: a rule for each way to build one.
pub ruleset keeps_rules = (
  Keeps-pure, Keeps-lift, Keeps-get, Keeps-raise_if, Keeps-context, Keeps-attempt, Keeps-raise,
  Keeps->>=,
)
