-- ===== src/Demo/Elected.antt =====
-- demo/demo3.cpp: contenders for the same file, whose calls interleave in any order.
pub mod Invariant
pub mod Turns
pub mod OnePrimary
use distributed_systems_chub.Prelude.{
  ℕ, zero, suc, Bool, true, false, Option, none, some, List, [], ◌∷◌, Text, ℤ, get_elem?, set,
  is_empty, if◌then◌else◌,
}
use distributed_systems_chub.Exec.{Exec, Result, ok, fault}
use distributed_systems_chub.StateMachine.State.{State}
use distributed_systems_chub.Skinny.{Server}
use distributed_systems_chub.Client.{Client}
use distributed_systems_chub.Client.Remote
use distributed_systems_chub.Demo.{Outcome, elected, beaten, follows}

-- Which call of main comes next, or the end of the election for the contender.
pub data Phase : Type 0 where
  reading trying writing : Phase
  over : Outcome → Phase

-- A process of demo3.cpp that has opened the file.
pub record Contender : Type 0 where
  pub client : Client
  pub fh : ℤ
  pub hostname : Text
  pub phase : Phase

-- What the contender has become when its call has ended.
unfoldable pub moved :
    {A : Type 0} → Contender → (A → Phase) → Result A × (Client × State) → Result Contender × State
moved k next (ok a, (c, s)) = (ok (record k { client = c; phase = next a }), s)
moved k next (fault e, (c, s)) = (fault e, s)

abbrev pub after_read : Text → Phase
after_read primary = if is_empty primary then trying else over (follows primary)

abbrev pub after_try : Bool → Phase
after_try acq_success = if acq_success then writing else over beaten

abbrev pub after_write : Unit {0} → Phase
after_write done = over elected

module _ (server : Server) where
  -- The next call of the contender.
  unfoldable pub make_call : Contender → Phase → Exec State Contender
  unfolding moved
  make_call k reading s = moved k after_read (Remote.get_content server k.fh (k.client, s))
  make_call k trying s = moved k after_try (Remote.try_acquire server k.fh true (k.client, s))
  make_call k writing s =
      moved k after_write (Remote.set_content server k.fh k.hostname (k.client, s))
  make_call k (over outcome) s = (ok k, s)

  unfoldable pub stored :
      List Contender → ℕ → Result Contender × State → Result (List Contender) × State
  stored ks i (ok k, s) = (ok (set ks i k), s)
  stored ks i (fault e, s) = (fault e, s)

  -- The contender `i` makes its next call, if there is one.
  unfoldable pub turn : ℕ → List Contender → Option Contender → Exec State (List Contender)
  unfolding make_call stored
  turn i ks none s = (ok ks, s)
  turn i ks (some k) s = stored ks i (make_call k k.phase s)

  unfoldable pub go_on :
      (List Contender → Exec State (List Contender))
      → Result (List Contender) × State
      → Result (List Contender) × State
  go_on rest (ok ks, s) = rest ks s
  go_on rest (fault e, s) = (fault e, s)

  -- The contenders take their turns in the given order.
  unfoldable pub run_turns : List ℕ → List Contender → Exec State (List Contender)
  unfolding turn go_on
  run_turns [] ks s = (ok ks, s)
  run_turns (i ∷ turns) ks s = go_on (run_turns turns) (turn i ks (get_elem? ks i) s)
