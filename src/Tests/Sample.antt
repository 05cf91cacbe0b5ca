-- ===== src/Tests/Sample.antt =====
-- A state that two sessions reach by opening the same file, and the same file as an ephemeral one.
use distributed_systems_chub.Prelude.{
  ◌≡◌, refl, true, none, [], ◌∷◌, codes, pos, ℤ_eq, text_eq, ℕ_eq,
}
use distributed_systems_chub.Store.{File, new_meta}
use distributed_systems_chub.Session.{Entry}
use distributed_systems_chub.Server.{root_file}
use distributed_systems_chub.StateMachine.State.{State}
use distributed_systems_chub.Tests.Scenario.{ephemeral_lock, test_path, run_log, two_sessions}

abbrev pub first_entry : Entry
first_entry = record { id = pos 0; v = test_path ∷ []; inum = pos 0 ∷ []; kathread = none }

abbrev pub second_entry : Entry
second_entry = record { id = pos 1; v = test_path ∷ []; inum = pos 0 ∷ []; kathread = none }

abbrev pub test_file : File
test_file = record {
  meta = record new_meta { file_exists = true; subscribers = (pos 0, pos 0) ∷ (pos 1, pos 0) ∷ [] };
  content = [];
}

abbrev pub root_with_test : File
root_with_test = record root_file { content = 0 ∷ codes "test" }

abbrev pub shared_state : State
shared_state = record {
  ds = (codes "/", root_with_test) ∷ (test_path, test_file) ∷ [];
  sdb = record { session_db = (pos 0, first_entry) ∷ (pos 1, second_entry) ∷ []; next_id = pos 2 };
  last_committed_idx = 0;
}

shared_state_reached : run_log two_sessions ≡ shared_state
unfolding run_log
shared_state_reached = refl

-- One session, with an ephemeral file whose lock it holds.
abbrev pub ephemeral_file : File
ephemeral_file = record {
  meta = record new_meta {
    file_exists = true;
    is_ephemeral = true;
    subscribers = (pos 0, pos 0) ∷ [];
    lock_owners = pos 0 ∷ [];
    is_locked_ex = true;
    lock_gen_num = pos 1;
  };
  content = [];
}

abbrev pub ephemeral_state : State
ephemeral_state = record {
  ds = (codes "/", root_with_test) ∷ (test_path, ephemeral_file) ∷ [];
  sdb = record { session_db = (pos 0, first_entry) ∷ []; next_id = pos 1 };
  last_committed_idx = 0;
}

ephemeral_state_reached : run_log ephemeral_lock ≡ ephemeral_state
unfolding run_log
ephemeral_state_reached = refl
