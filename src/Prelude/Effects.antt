-- ===== src/Prelude/Effects.antt =====
-- Computations that change a state and may raise, where what was done before an exception stays done.
use mathlib.Core.Path.{◌≡◌, refl}
use arch_linux_threadripper.Prelude.Outcome.{Result, ok, err}

abbrev pub Effect : Type 0 → Type 0 → Type 0 → Type 0
Effect E S A = S → Result E A × S

module _ {E S : Type 0} where
  abbrev pub continue_with : {A B : Type 0} → (A → Effect E S B) → Result E A × S → Result E B × S
  continue_with f (ok a, s) = f a s
  continue_with f (err e, s) = (err e, s)

  infixl 5 ◌>>=◌ ◌>>◌
  abbrev pub ◌>>=◌ : {A B : Type 0} → Effect E S A → (A → Effect E S B) → Effect E S B
  ◌>>=◌ m f s = continue_with f (m s)

  abbrev pub ◌>>◌ : {B : Type 0} → Effect E S (Unit {0}) → Effect E S B → Effect E S B
  m >> k = m >>= λ _. k

  abbrev pub return : {A : Type 0} → A → Effect E S A
  return a s = (ok a, s)

  abbrev pub stop_with : {A : Type 0} → E → Effect E S A
  stop_with e s = (err e, s)

  abbrev pub modify : (S → S) → Effect E S (Unit {0})
  modify f s = (ok tt, f s)

  -- What a value and the state are, unless the computation raises.
  abbrev pub Holds : {A : Type 0} → (A → S → Type 0) → Result E A × S → Type 0
  Holds Q (ok a, t) = Q a t
  Holds Q (err e, t) = Unit {0}

  pub Holds-continue :
      {A B : Type 0} (P : A → S → Type 0) (Q : B → S → Type 0) (k : A → Effect E S B)
      (r : Result E A × S)
      → Holds P r
      → ((a : A) (t : S) → P a t → Holds Q (k a t))
      → Holds Q (continue_with k r)
  Holds-continue P Q k (ok a, t) h g = g a t h
  Holds-continue P Q k (err e, t) h g = tt

  -- Whatever comes first
  pub Holds-after :
      {A B : Type 0} (Q : B → S → Type 0) (m : Effect E S A) (k : A → Effect E S B) (s : S)
      → ((a : A) (t : S) → Holds Q (k a t))
      → Holds Q ((m >>= k) s)
  Holds-after {A} {B} Q m k s g =
      Holds-continue (λ _ _. Unit {0}) Q k (m s) (any_result (m s)) (λ a t _. g a t)
    where
      any_result : (r : Result E A × S) → Holds (λ _ _. Unit {0}) r
      any_result (ok a, t) = tt
      any_result (err e, t) = tt

  -- What a bind that did not raise has come through.
  pub continued :
      {A B : Type 0} (k : A → Effect E S B) (m : Result E A × S) {b : B} {t : S}
      → continue_with k m ≡ (ok b, t)
      → (a : A) × (s : S) × (m ≡ (ok a, s)) × (k a s ≡ (ok b, t))
  continued k (ok a, s) h = (a, s, refl, h)
  continued k (err e, s) h = absurd (cc)

  -- Two continuations that agree on what comes out of the first part.
  pub continue_with-ext :
      {A B : Type 0} (k j : A → Effect E S B) (m : Result E A × S)
      → ((a : A) (s : S) → m ≡ (ok a, s) → k a s ≡ j a s)
      → continue_with k m ≡ continue_with j m
  continue_with-ext k j (ok a, s) h = h a s refl
  continue_with-ext k j (err e, s) h = refl
