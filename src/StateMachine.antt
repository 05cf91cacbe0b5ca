-- ===== src/StateMachine.antt =====
-- StateMachine.cpp: the state machine that every server runs over the replicated log. The handler
-- of each action stands in a child module.
pub mod State
pub mod Locks
pub mod Open
pub mod Close
pub mod Contents
pub mod Files
pub mod Exclusion
pub mod LockReplies
pub mod Closing
pub mod Ephemeral
pub mod Writing
pub mod Opening
pub mod Kept
pub mod Committing
pub mod Instances
pub mod Sessions
pub mod EndReply
pub mod Undoing
pub mod Orphans
use distributed_systems_chub.Prelude.{false, none, Bool, Option, ℕ, List, [], ◌∷◌, Text}
use distributed_systems_chub.Exec.{Exec, Result, ok, fault, lift, ◌>>=◌, ◌>>◌}
use distributed_systems_chub.Action.{
  Action, open_action, close_action, start_session_action, end_session_action, acq_action,
  rel_action, set_content_action, delete_action, Reply, Codec,
}
use Locks.{acquire, release}
use Open.{open_file}
use Close.{close, start_session, end_session}
use Contents.{set_content, delete_file}

-- The overload of apply_ for each action.
unfoldable pub apply : Action → Exec State.State Reply
apply (open_action a) = open_file a
apply (close_action a) = close a
apply start_session_action = start_session
apply (end_session_action a) = end_session a
apply (acq_action a) = acquire a
apply (rel_action a) = release a
apply (set_content_action a) = set_content a
apply (delete_action a) = delete_file a

-- The result is serialised by the handler, before the index of the commit is stored.
unfoldable pub commit : Codec → ℕ → Text → Exec State.State Text
commit codec log_idx buf = do
  action ← lift (codec.create_action_from_buf buf)
  reply ← apply action
  result ← lift (codec.serialize reply)
  (λ s. (ok result, record s { last_committed_idx = log_idx }))

-- The methods for snapshots, of which there are none.
abbrev pub apply_snapshot : Bool
apply_snapshot = false

abbrev pub last_snapshot : Option Text
last_snapshot = none

-- The answer is not the index that `commit` stores.
unfoldable pub last_commit_index : State.State → ℕ
last_commit_index s = 0

-- The state after a log, in which a fault leaves what was written before it.
unfoldable pub run : List Action → State.State → State.State
run [] s = s
run (a ∷ log) s = run log (apply a s).1
