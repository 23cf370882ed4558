-- ===== src/Prelude/Programs/Ensures.antt =====
-- What holds when a program returns: a condition before it, and one on its value and the state
-- after it, with a rule for each way to build a program.
use safechat.Prelude.{
  ◌≡◌, refl, ap, subst, Bool, true, false, Option, none, some, Result, ok, err, if◌then◌else◌,
}
use safechat.Prelude.Bytes.{Bytes}
use safechat.Prelude.Programs.{
  Program, pure, get, modify, context, within, attempt, raise, context, continue, ◌>>=◌,
}

pub record Ensures {W A : Type 0} (P : W → Type 0) (m : Program W A) (Q : A → W → Type 0)
    : Type 0 where
  pub at : (w : W) → P w → (a : A) → (m w).0 ≡ ok a → Q a (m w).1

abbrev value_or : {A : Type 0} → A → Result Bytes A → A
value_or d (ok a) = a
value_or d (err e) = d

pub ok-injective : {A : Type 0} (a b : A) → ◌≡◌ {A = Result Bytes A} (ok a) (ok b) → a ≡ b
ok-injective a b e = ap (value_or a) e

module _ {W A : Type 0} {P : W → Type 0} {Q : A → W → Type 0} where
  pub Ensures-pure : (a : A) → ((w : W) → P w → Q a w) → Ensures P (pure a) Q
  unfolding pure
  Ensures-pure a h = record { at = λ w p b e. subst (λ x. Q x w) (ok-injective a b e) (h w p) }

  pub Ensures-raise : (e : Bytes) → Ensures P (raise e) Q
  unfolding raise
  Ensures-raise e = record { at = λ w p b f. cc }

  pub Ensures-if :
      {m n : Program W A} (b : Bool)
      → Ensures P m Q
      → Ensures P n Q
      → Ensures P (if b then m else n) Q
  Ensures-if true k l = k
  Ensures-if false k l = l

  pub Ensures-get : (f : W → A) → ((w : W) → P w → Q (f w) w) → Ensures P (get f) Q
  unfolding get
  Ensures-get f h = record { at = λ w p b e. subst (λ x. Q x w) (ok-injective (f w) b e) (h w p) }

  pub Ensures-stronger :
      {P' : W → Type 0} {m : Program W A} → ((w : W) → P' w → P w) → Ensures P m Q → Ensures P' m Q
  Ensures-stronger h k = record { at = λ w p. k.at w (h w p) }

  -- A condition that the value does not enter.
  pub Ensures-any :
      (m : Program W A) → ((w : W) (a : A) → P w → (m w).0 ≡ ok a → Q a (m w).1) → Ensures P m Q
  Ensures-any m h = record { at = λ w p a e. h w a p e }

  pub Ensures-context :
      (o : Option A) (e : Bytes)
      → ((a : A) (w : W) → o ≡ some a → P w → Q a w)
      → Ensures P (context o e) Q
  unfolding context
  Ensures-context none e h = record { at = λ w p b f. cc }
  Ensures-context (some a) e h = record {
    at = λ w p b f. subst (λ x. Q x w) (ok-injective a b f) (h a w refl p);
  }

-- Calls of a part of the state that a condition does not see.
module _ {W S A : Type 0} {P : W → Type 0} (part : W → S) (put : S → W → W) (call : Program S A)
    (blind : (w : W) (s : S) → P w → P (put s w)) where
  pub Ensures-within : Ensures P (within part put call) (λ _. P)
  unfolding within
  Ensures-within = record { at = λ w p a e. blind w (call (part w)).1 p }

  pub Ensures-attempt_within : Ensures P (attempt (within part put call)) (λ _. P)
  unfolding within attempt
  Ensures-attempt_within = record { at = λ w p a e. blind w (call (part w)).1 p }

module _ {W : Type 0} {P : W → Type 0} {Q : Unit {0} → W → Type 0} where
  pub Ensures-modify : (f : W → W) → ((w : W) → P w → Q tt (f w)) → Ensures P (modify f) Q
  unfolding modify
  Ensures-modify f h = record { at = λ w p b e. h w p }

module _ {W A B : Type 0} {P : W → Type 0} {R : A → W → Type 0} {Q : B → W → Type 0} where
  pub Ensures->>= :
      (m : Program W A) (f : A → Program W B)
      → Ensures P m R
      → ((a : A) → Ensures (R a) (f a) Q)
      → Ensures P (m >>= f) Q
  unfolding ◌>>=◌
  Ensures->>= m f h k = record { at = λ w p. after w (m w).0 refl p }
    where
      after :
          (w : W) (r : Result Bytes A)
          → (m w).0 ≡ r
          → P w
          → (b : B) → (continue r f (m w).1).0 ≡ ok b
          → Q b (continue r f (m w).1).1
      after w (ok a) e p b made = (k a).at (m w).1 (h.at w p a e) b made
      after w (err x) e p b made = cc
