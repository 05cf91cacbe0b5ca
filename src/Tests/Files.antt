-- ===== src/Tests/Files.antt =====
-- The theorems on contents, deletions and directories, at concrete states.
use distributed_systems_chub.Prelude.{
  ◌≡◌, refl, some, [], ◌∷◌, ◌++◌, codes, pos, ℤ_eq, text_eq, ℕ_eq,
}
use distributed_systems_chub.Exec.{ok}
use distributed_systems_chub.Directory.{cut_entry, add_entry}
use distributed_systems_chub.Directory.Entries.{
  render, cut_entry-removes, cut_entry-corrupts, add_entry-render,
}
use distributed_systems_chub.Action.{SetContentAction, DeleteAction, response}
use distributed_systems_chub.StateMachine.State.{State}
use distributed_systems_chub.StateMachine.Contents.{set_content, delete_file, inum_mismatch}
use distributed_systems_chub.StateMachine.LockReplies.{Handle}
use distributed_systems_chub.StateMachine.Writing.{WriteOutcome, set_content_outcome}
use distributed_systems_chub.StateMachine.Instances.{
  DeleteOutcome, delete_file_outcome, stale_write,
}
use distributed_systems_chub.Tests.Scenario.{test_path, run_log}
use distributed_systems_chub.Tests.Sample.{
  first_entry, second_entry, test_file, shared_state, root_with_test,
}

pub first-Handle : Handle shared_state (pos 0) (pos 0) first_entry test_path test_file
unfolding run_log
first-Handle = record { live = refl; names = refl; holds = refl }

pub second-Handle : Handle shared_state (pos 1) (pos 0) second_entry test_path test_file
unfolding run_log
second-Handle = record { live = refl; names = refl; holds = refl }

abbrev pub write_request : SetContentAction
write_request = record { session_id = pos 0; fh = pos 0; content = codes "abc" }

set_content_outcome_example : WriteOutcome write_request shared_state test_path test_file (pos 0)
unfolding run_log
set_content_outcome_example = set_content_outcome write_request first-Handle refl

abbrev delete_request : DeleteAction
delete_request = record { session_id = pos 1; fh = pos 0 }

delete_file_outcome_example :
    DeleteOutcome delete_request shared_state test_path test_file root_with_test
unfolding run_log
delete_file_outcome_example = delete_file_outcome delete_request second-Handle refl (λ e. cc)

stale_write_example :
    (t : State) × (delete_file delete_request shared_state ≡ (ok (response (pos 0) []), t))
    × (set_content write_request t ≡ (ok inum_mismatch, t))
unfolding run_log
stale_write_example =
    stale_write {parent = root_with_test} delete_request write_request second-Handle first-Handle
      refl refl (λ e. cc) refl

add_entry-render_example : add_entry (0 ∷ codes "a") (codes "b") ≡ 0 ∷ codes "a" ++ 0 ∷ codes "b"
add_entry-render_example = add_entry-render (codes "a" ∷ []) (codes "b")

cut_entry-removes_example :
    cut_entry (render (codes "a" ∷ codes "b" ∷ codes "ab" ∷ [])) (codes "b")
    ≡ some (render (codes "a" ∷ codes "ab" ∷ []))
unfolding run_log
cut_entry-removes_example =
    cut_entry-removes (codes "a" ∷ []) (codes "ab" ∷ []) (codes "b") refl (refl, tt) (refl, tt)
      (refl, tt)

cut_entry-corrupts_example :
    cut_entry (render (codes "apple" ∷ codes "app" ∷ [])) (codes "app")
    ≡ some (codes "le" ++ 0 ∷ codes "app")
unfolding run_log
cut_entry-corrupts_example =
    cut_entry-corrupts [] (codes "app" ∷ []) (codes "app") (codes "le") refl tt refl (refl, tt) tt
