-- ===== src/Tests/Locks.antt =====
-- The theorems on locks and on closing, at concrete states.
use distributed_systems_chub.StateMachine.State.{State}
use distributed_systems_chub.Prelude.{
  some, ℤ, ◌==◌, if◌then◌else◌, ◌≡◌, refl, [], pos, ℤ_eq, text_eq, ℕ_eq,
}
use distributed_systems_chub.Exec.{fault, bad_optional_access}
use distributed_systems_chub.Action.{AcqAction, CloseAction}
use distributed_systems_chub.StateMachine.Close.{close}
use distributed_systems_chub.StateMachine.Exclusion.{mutual_exclusion}
use distributed_systems_chub.StateMachine.LockReplies.{Handle, AcquireOutcome, acquire_outcome}
use distributed_systems_chub.StateMachine.Closing.{OpenHandle, closed_entry, close_faults}
use distributed_systems_chub.Session
use distributed_systems_chub.StateMachine.State.{State}
use distributed_systems_chub.StateMachine.Ephemeral.{LastOpen, LastClosed, close_last}
use distributed_systems_chub.Tests.Scenario.{test_path, run_log, ephemeral_lock}
use distributed_systems_chub.Tests.Sample.{
  first_entry, test_file, shared_state, ephemeral_file, ephemeral_state, root_with_test,
}

mutual_exclusion_example : ◌≡◌ {A = ℤ} (pos 0) (pos 0)
unfolding run_log
mutual_exclusion_example =
    mutual_exclusion ephemeral_lock test_path ephemeral_file (pos 0) (pos 0) refl refl refl refl

first-Handle : Handle shared_state (pos 0) (pos 0) first_entry test_path test_file
unfolding run_log
first-Handle = record { live = refl; names = refl; holds = refl }

owner-Handle : Handle ephemeral_state (pos 0) (pos 0) first_entry test_path ephemeral_file
unfolding run_log
owner-Handle = record { live = refl; names = refl; holds = refl }

abbrev lock_request : AcqAction
lock_request = record { session_id = pos 0; fh = pos 0; ex = pos 1 }

acquire_outcome_example : AcquireOutcome lock_request shared_state first_entry test_path test_file
unfolding run_log
acquire_outcome_example = acquire_outcome lock_request first-Handle

abbrev close_request : CloseAction
close_request = record { session_id = pos 0; fh = pos 0 }

open_handle : OpenHandle shared_state (pos 0) (pos 0) first_entry test_path test_file
unfolding run_log
open_handle = record { handle = first-Handle; inum = pos 0; opened = refl; not_closed = λ e. cc }

close_faults_example :
    (t : State) × (close close_request shared_state ≡ (fault bad_optional_access, t))
    × ((id : ℤ)
        → Session.find_session t.sdb id ≡ (
            if pos 0 == id
            then some (closed_entry first_entry (pos 0))
            else Session.find_session shared_state.sdb id))
unfolding run_log
close_faults_example = close_faults close_request open_handle refl

open_owner : OpenHandle ephemeral_state (pos 0) (pos 0) first_entry test_path ephemeral_file
unfolding run_log
open_owner = record { handle = owner-Handle; inum = pos 0; opened = refl; not_closed = λ e. cc }

last_open : LastOpen ephemeral_state (pos 0) test_path ephemeral_file root_with_test [] []
unfolding run_log
last_open = record {
  subscribed = refl;
  alone = refl;
  parent_holds = refl;
  below = λ e. cc;
  lists = refl;
  named = refl;
  all_older = tt;
  all_newer = tt;
  none_begins = tt;
}

close_last_example :
    LastClosed close_request ephemeral_state first_entry test_path ephemeral_file root_with_test []
unfolding run_log
close_last_example = close_last close_request open_owner last_open
