-- ===== src/Tests/Opening.antt =====
-- The theorem on opening a file, at a state in which the first session opens a second file.
use distributed_systems_chub.Prelude.{
  inl, ◌≡◌, refl, some, [], ◌∷◌, inr, codes, pos, text_eq, ℤ_eq, ℕ_eq,
}
use distributed_systems_chub.Exec.{ok, fault, aborted}
use distributed_systems_chub.Dict.{get}
use distributed_systems_chub.Session.{Entry}
use distributed_systems_chub.Session
use distributed_systems_chub.Store.{new_file}
use distributed_systems_chub.Action.{OpenAction, open_return}
use distributed_systems_chub.StateMachine.State.{State, ok_text}
use distributed_systems_chub.StateMachine.Open.{open_file}
use distributed_systems_chub.StateMachine.Opening.{touched, opened, entered, open_file_outcome}
use distributed_systems_chub.StateMachine.Undoing.{UndoOutcome, open-delete}
use distributed_systems_chub.StateMachine.Orphans.{open_file-aborts}
use distributed_systems_chub.Tests.Scenario.{test_path, run_log}
use distributed_systems_chub.Tests.Sample.{first_entry, shared_state, root_with_test}

abbrev open_request : OpenAction
open_request = record {
  session_id = pos 0;
  path = codes "/new";
  is_directory = pos 1;
  is_ephemeral = pos 0;
}

open_file_outcome_example :
    (t : State) × (e : Entry) × (open_file open_request shared_state
      ≡ (ok (open_return (pos 0) ok_text (pos 1)), t))
    × (get t.ds (codes "/new") ≡ some (opened open_request new_file (pos 0) (pos 1)))
    × (get t.ds (codes "/") ≡ some (entered open_request new_file root_with_test))
    × (Session.find_session t.sdb (pos 0) ≡ some e)
    × (e.v ≡ test_path ∷ codes "/new" ∷ [])
    × (e.inum ≡ pos 0 ∷ pos 0 ∷ [])
unfolding run_log
open_file_outcome_example =
    open_file_outcome {e = first_entry} {file = new_file} {parent = root_with_test} shared_state
      open_request refl (inr (refl, refl)) refl (λ e. cc) refl refl

open-delete_example : UndoOutcome shared_state open_request first_entry new_file root_with_test
unfolding run_log
open-delete_example =
    open-delete {s = shared_state} {e = first_entry} {file = new_file} {parent = root_with_test}
      {names = codes "test" ∷ []} open_request
      (record {
        live = refl;
        found = inr (refl, refl);
        missing = refl;
        empty = refl;
        no_root = refl;
        below = λ e. cc;
        up = refl;
        directory = refl;
        lists = refl;
        named = refl;
        all_named = (refl, tt);
        none_begins = (refl, tt);
      })

abbrev orphan_request : OpenAction
orphan_request = record {
  session_id = pos 0;
  path = codes "/none/new";
  is_directory = pos 0;
  is_ephemeral = pos 0;
}

open_file-aborts_example :
    open_file orphan_request shared_state
    ≡ (fault aborted, touched shared_state orphan_request new_file)
unfolding run_log
open_file-aborts_example =
    open_file-aborts {e = first_entry} {file = new_file} shared_state orphan_request refl
      (inr (refl, refl)) (λ e. cc) (inl refl)
