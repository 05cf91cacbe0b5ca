-- ===== src/Skinny.antt =====
-- SkinnyImpl.cpp: the handlers of the remote calls. This file has what they share: the answers, the
-- server that a handler runs on, and the reading of the result of a replicated action.
pub mod Notify
pub mod Files
pub mod Sessions
pub mod Locks
pub mod LockRelated
pub mod AtOnce
pub mod TryLock
pub mod WaitLock
pub mod Handover
pub mod Mutexes
pub mod Notified
pub mod Queued
pub mod Events
pub mod ReadBack
pub mod Opened
pub mod Expired
use distributed_systems_chub.Prelude.{
  Bool, Option, none, some, List, [], Text, ℤ, ℤ_eq, pos, ltb_ℤ, ◌&&◌, ◌==◌, if◌then◌else◌,
}
use distributed_systems_chub.Decimal.{to_string}
use distributed_systems_chub.Exec.{Exec, Result, ok, fault, library_error, pure, ◌>>=◌}
use distributed_systems_chub.Session.{Entry}
use distributed_systems_chub.Store.{session_not_found}
use distributed_systems_chub.Action.{
  Action, Reply, response, open_return, start_session_return, close_return, end_session_return,
}
use distributed_systems_chub.StateMachine.State.{State, ok_text}

-- The codes that the servers answer with and that the client tells apart: gRPC's, and the two of
-- `skinny::ErrorCode`, 100 and 101.
pub data StatusCode : Type 0 where
  cancelled aborted unavailable not_leader lock_related : StatusCode
  other_code : ℤ → StatusCode

-- A grpc::Status that is not OK.
pub record Status : Type 0 where
  pub code : StatusCode
  pub message : Text

abbrev pub session_not_found_status : Status
session_not_found_status = record { code = cancelled; message = session_not_found }

-- What a call comes back with: Status::OK and the message that the handler filled, or a status.
pub data Answer (A : Type 0) : Type 0 where
  done : A → Answer A
  refused : Status → Answer A

-- nuraft::cmd_result, whose buffer stands here as the reply that it codes.
pub record CmdResult : Type 0 where
  pub accepted : Bool
  pub result_code : ℤ
  pub reply : Reply

-- What a handler calls that is no code of this repository, or that is the work of other threads.
-- `append_entries` is all that happens until the replicated log has answered, and `join` all that
-- the other threads do until the listed events, each of a session, are acknowledged.
pub record Server : Type 0 where
  pub ok_code : ℤ
  pub not_leader_code : ℤ
  pub append_entries : Action → Exec State CmdResult
  pub is_leader : Bool
  pub get_leader : ℤ
  pub join : List (ℤ × ℤ) → Exec State (Unit {0})
  -- what the other threads do while a thread sleeps on a condition variable, each time from its
  -- falling asleep until it is next woken, with what has become of the session's entry by then
  pub wake_ups : List (Entry → Exec State Entry)
  -- the value that the number of a new thread's first event happens to have
  pub first_event_id : ℤ

-- action::Response, read from the front of any reply
unfoldable pub reply_res : Reply → ℤ
reply_res (response res msg) = res
reply_res (open_return res msg fh) = res
reply_res (start_session_return res msg id) = res
reply_res (close_return res msg need_notify parent_path) = res
reply_res (end_session_return size paths) = pos 0

unfoldable pub reply_msg : Reply → Text
reply_msg (response res msg) = msg
reply_msg (open_return res msg fh) = msg
reply_msg (start_session_return res msg id) = msg
reply_msg (close_return res msg need_notify parent_path) = msg
reply_msg (end_session_return size paths) = ok_text

abbrev pub refusal : StatusCode → Text → Option Status
refusal code message = some (record { code = code; message = message })

-- `none` is Status::OK.
unfoldable pub parse_raft_result : Server → CmdResult → Option Status
parse_raft_result server r =
    if r.accepted && r.result_code == server.ok_code
    then if ltb_ℤ (reply_res r.reply) (pos 0) then refusal aborted (reply_msg r.reply) else none
    else if r.result_code == server.not_leader_code
    then refusal not_leader (to_string server.get_leader)
    else refusal aborted []

unfoldable pub unless_refused :
    {A : Type 0} → Reply → (Reply → Exec State (Answer A)) → Option Status → Exec State (Answer A)
unless_refused reply after (some status) = pure (refused status)
unless_refused reply after none = after reply

-- The action is appended to the log, and the handler goes on with its reply unless that is bad.
unfoldable pub append :
    {A : Type 0} → Server → Action → (Reply → Exec State (Answer A)) → Exec State (Answer A)
unfolding unless_refused
append server action after = do
  r ← server.append_entries action
  unless_refused r.reply after (parse_raft_result server r)
