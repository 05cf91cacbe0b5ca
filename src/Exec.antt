-- ===== src/Exec.antt =====
-- Code that mutates a state and may throw. What was written before a fault stays written, so
-- the state comes back beside the fault too.
pub mod Keeps
use distributed_systems_chub.Prelude.{Option, none, some}

-- The ways in which the C++ code stops without a result.
pub data Fault : Type 0 where
  out_of_range bad_optional_access null_pointer : Fault
  -- a failed `assert`, or std::terminate
  aborted : Fault
  -- an exception of a library
  library_error : Fault
  -- the exception that the client library throws for a session that is gone
  runtime_error : Fault
  -- no fault: a thread that still waits when the run that is looked at ends
  waiting : Fault

pub data Result {ℓ} (A : Type ℓ) : Type ℓ where
  ok : A → Result A
  fault : Fault → Result A

abbrev pub Exec {ℓ} : Type ℓ → Type ℓ → Type ℓ
Exec S A = S → Result A × S

abbrev pub some_or {ℓ} : {A : Type ℓ} → Fault → Option A → Result A
some_or e none = fault e
some_or e (some a) = ok a

-- A result, and what follows where it is no fault.
abbrev pub chain {ℓ κ} : {A : Type ℓ} {B : Type κ} → Result A → (A → Result B) → Result B
chain (ok a) f = f a
chain (fault e) f = fault e

module _ {ℓ} {S A : Type ℓ} where
  unfoldable pub pure : A → Exec S A
  pure a s = (ok a, s)

  unfoldable pub throw : Fault → Exec S A
  throw e s = (fault e, s)

  unfoldable pub lift : Result A → Exec S A
  lift r s = (r, s)

  unfoldable pub gets : (S → A) → Exec S A
  gets f s = (ok (f s), s)

module _ {ℓ} {S A B : Type ℓ} where
  abbrev pub continue : Result A → (A → Exec S B) → Exec S B
  continue (ok a) f s = f a s
  continue (fault e) f s = (fault e, s)

  infixl 10 ◌>>=◌ ◌>>◌
  -- opening this opens `pure`, `throw`, `lift` and `gets` too
  unfoldable pub ◌>>=◌ : Exec S A → (A → Exec S B) → Exec S B
  unfolding pure throw lift gets
  ◌>>=◌ m f s = continue (m s).0 f (m s).1

  abbrev pub ◌>>◌ : Exec S A → Exec S B → Exec S B
  m >> n = m >>= λ _. n
