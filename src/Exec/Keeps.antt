-- ===== src/Exec/Keeps.antt =====
-- Invariants of actions, with a rule for each way to build an action.
use distributed_systems_chub.Prelude.{
  ◌≡◌, refl, Bool, true, false, Option, none, some, if◌then◌else◌,
}
use distributed_systems_chub.Exec
use distributed_systems_chub.Exec.{
  Exec, Result, ok, fault, Fault, pure, throw, lift, gets, some_or, ◌>>=◌, ◌>>◌,
}

-- A result that is not a fault meets `R`.
abbrev pub OkIs {ℓ} : {A : Type ℓ} → (A → Type ℓ) → Result A → Type ℓ
OkIs R (ok a) = R a
OkIs R (fault e) = Unit

abbrev pub Any {ℓ} : {A : Type ℓ} → A → Type ℓ
Any a = Unit

-- From a state with `P`, the action `m` leaves a state with `P`, also when it faults, and what it
-- returns meets `R`.
pub record Keeps {ℓ} {S A : Type ℓ} (P : S → Type ℓ) (R : A → Type ℓ) (m : Exec S A) : Type ℓ where
  pub state : (s : S) → P s → P (m s).1
  pub result : (s : S) → P s → OkIs R (m s).0

module _ {ℓ} {S A : Type ℓ} {P : S → Type ℓ} {R : A → Type ℓ} where
  pub Keeps-pure : (a : A) → R a → Keeps P R (pure a)
  unfolding pure
  Keeps-pure a r = record { state = λ s h. h; result = λ s h. r }

  pub Keeps-throw : (e : Fault) → Keeps P R (throw e)
  unfolding throw
  Keeps-throw e = record { state = λ s h. h; result = λ s h. tt }

  pub Keeps-if :
      (b : Bool) (m n : Exec S A)
      → (b ≡ true → Keeps P R m)
      → (b ≡ false → Keeps P R n)
      → Keeps P R (if b then m else n)
  Keeps-if true m n km kn = km refl
  Keeps-if false m n km kn = kn refl

  -- A partial read of the state, of which `R` holds.
  pub Keeps-read :
      (e : Fault) (f : S → Option A)
      → ((s : S) (a : A) → P s → f s ≡ some a → R a)
      → Keeps P R (λ s. (some_or e (f s), s))
  Keeps-read e f h = record { state = λ s p. p; result = λ s p. go (f s) (λ a. h s a p) }
    where
      go : (o : Option A) → ((a : A) → o ≡ some a → R a) → OkIs R (some_or e o)
      go none k = tt
      go (some a) k = k a refl

  pub Keeps-write :
      (a : A) (f : S → S) → R a → ((s : S) → P s → P (f s)) → Keeps P R (λ s. (ok a, f s))
  Keeps-write a f r h = record { state = h; result = λ s p. r }

module _ {ℓ} {S A B : Type ℓ} {P : S → Type ℓ} where
  continue-Keeps :
      (R : A → Type ℓ) (T : B → Type ℓ) (r : Result A) (f : A → Exec S B) (s : S)
      → OkIs R r
      → ((a : A) → R a → Keeps P T (f a))
      → P s
      → P (Exec.continue r f s).1 × OkIs T (Exec.continue r f s).0
  continue-Keeps R T (ok a) f s h k p = ((k a h).state s p, (k a h).result s p)
  continue-Keeps R T (fault e) f s h k p = (p, tt)

  pub Keeps-bind :
      (R : A → Type ℓ) {T : B → Type ℓ} (m : Exec S A) (f : A → Exec S B)
      → Keeps P R m
      → ((a : A) → R a → Keeps P T (f a))
      → Keeps P T (m >>= f)
  unfolding ◌>>=◌
  Keeps-bind R {T} m f km kf = record {
    state = λ s p. (continue-Keeps R T (m s).0 f (m s).1 (km.result s p) kf (km.state s p)).0;
    result = λ s p. (continue-Keeps R T (m s).0 f (m s).1 (km.result s p) kf (km.state s p)).1;
  }
