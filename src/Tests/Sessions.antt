-- ===== src/Tests/Sessions.antt =====
-- The theorems on the sessions' handles, after two sessions have opened a file.
use distributed_systems_chub.Prelude.{refl, pos, arith, ℤ_eq, text_eq, ℕ_eq}
use distributed_systems_chub.Server.{initial}
use distributed_systems_chub.StateMachine.{run}
use distributed_systems_chub.StateMachine.Sessions.Resolved.{
  Resolves, handles_resolve, StartsFresh, start_session-fresh,
}
use distributed_systems_chub.StateMachine.Sessions.Answers.{AllAnswer, handle_requests-answer}
use distributed_systems_chub.Tests.Scenario.{two_sessions, run_log}
use distributed_systems_chub.Tests.Sample.{first_entry}

handles_resolve_example : Resolves (run two_sessions initial) (pos 0) 0 first_entry
unfolding run_log
handles_resolve_example =
    handles_resolve two_sessions (pos 0) 0 first_entry (omega arith) refl (omega arith)

start_session-fresh_example : StartsFresh (run two_sessions initial)
start_session-fresh_example = start_session-fresh two_sessions (omega arith)

handle_requests-answer_example : AllAnswer (run two_sessions initial) (pos 0) 0
unfolding run_log
handle_requests-answer_example =
    handle_requests-answer two_sessions (pos 0) 0 first_entry (omega arith) refl (omega arith)
