-- ===== src/Tests/Mutexes.antt =====
-- The theorems on the mutexes of the files, with two sessions that have the same file open.
use distributed_systems_chub.Skinny.Mutexes.{append, here, next, Reach, Threads}
use distributed_systems_chub.Prelude.{[], ◌∷◌, refl, pos, ℤ_eq, text_eq, ℕ_eq}
use distributed_systems_chub.Action.{
  start_session_action, acq_action, AcqAction, DeleteAction, delete_action,
}
use distributed_systems_chub.Skinny.Mutexes.Blocked.{
  idle, crossed, StillCrossed, delete-never_applied,
}
use distributed_systems_chub.Tests.Scenario.{test_path, run_log}
use distributed_systems_chub.Tests.Sample.{shared_state}
use distributed_systems_chub.Tests.Files.{first-Handle, second-Handle}

abbrev deletes_first : DeleteAction
deletes_first = record { session_id = pos 0; fh = pos 0 }

abbrev locks_second : AcqAction
locks_second = record { session_id = pos 1; fh = pos 0; ex = pos 1 }

-- A third call appends its action behind the two.
abbrev with_third : Threads
with_third = record {
  state = shared_state;
  pending =
      (0, delete_action deletes_first)
      ∷ (1, acq_action locks_second)
      ∷ (2, start_session_action)
      ∷ [];
  held = (test_path, 1) ∷ [];
}

delete-never_applied_example :
    Reach
      (idle shared_state)
      (crossed shared_state (delete_action deletes_first) 0 locks_second 1 test_path)
    × StillCrossed shared_state (delete_action deletes_first) 0 locks_second 1 test_path with_third
unfolding run_log
delete-never_applied_example =
    delete-never_applied deletes_first locks_second 0 1 first-Handle refl second-Handle refl refl
      (next here (append _ 2 start_session_action tt))
