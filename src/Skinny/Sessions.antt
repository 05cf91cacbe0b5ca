-- ===== src/Skinny/Sessions.antt =====
-- SkinnyImpl.cpp: the calls that start and end a session and that keep it alive; and from
-- server.cpp the callback for a session that has expired, and the callback of a new leader.
use distributed_systems_chub.Prelude.{
  Option, none, some, List, Text, ℕ, ℤ, ℤ_eq, pos, minus_one, to_int, ◌==◌, if◌then◌else◌,
}
use distributed_systems_chub.Decimal.{to_string}
use distributed_systems_chub.Exec.{
  Exec, Result, ok, fault, library_error, null_pointer, pure, throw, lift, ◌>>=◌, ◌>>◌,
}
use distributed_systems_chub.Session.{Entry, start_kathread, start_kathreads, set_reactor}
use distributed_systems_chub.Action.{
  EndSessionAction, Reply, start_session_action, end_session_action, start_session_return,
  end_session_return,
}
use distributed_systems_chub.StateMachine.State.{State, find_session, write_session}
use distributed_systems_chub.Skinny.{
  Server, Status, Answer, done, append, reply_res, not_leader, session_not_found_status,
}
use distributed_systems_chub.Skinny.Notify.{notify_each}
use distributed_systems_chub.Server.Events.{notify_files}

-- action::StartSessionReturn r(buffer)
unfoldable pub reply_session_id : Reply → Result ℤ
reply_session_id (start_session_return res msg id) = ok id
reply_session_id _ = fault library_error

-- `sdb_->find_session(id)->start_kathread()`, without a check for the null pointer.
unfoldable pub start_found : Server → ℤ → Option Entry → Exec State (Unit {0})
start_found server id none = throw null_pointer
start_found server id (some e) = write_session id (start_kathread server.first_event_id e)

unfoldable pub started : Server → Reply → Exec State (Answer ℤ)
unfolding start_found reply_session_id
started server reply = do
  id ← lift (reply_session_id reply)
  if server.is_leader
      then (do e ← find_session (to_int id); start_found server (to_int id) e)
      else pure tt
  pure (done id)

-- StartSession
unfoldable pub rpc_start_session : Server → Exec State (Answer ℤ)
unfolding started
rpc_start_session server = append server start_session_action (started server)

-- The paths in the buffer that the end of a session fills by hand.
unfoldable pub reply_paths : Reply → Result (List Text)
reply_paths (end_session_return size paths) = ok paths
reply_paths _ = fault library_error

unfoldable pub ended : Server → Reply → Exec State (Answer (Unit {0}))
unfolding reply_paths notify_each
ended server reply = do paths ← lift (reply_paths reply); notify_each server paths; pure (done tt)

-- EndSession
unfoldable pub rpc_end_session : Server → EndSessionAction → Exec State (Answer (Unit {0}))
unfolding ended
rpc_end_session server req = append server (end_session_action req) (ended server)

-- server.cpp, the callback for an expired session on the leader: the session is ended as above,
-- and a failure is passed over.
unfoldable pub expired : Server → ℤ → Exec State (Unit {0})
unfolding reply_paths notify_files
expired server sid =
    if server.is_leader
    then (do
      r ← server.append_entries (end_session_action (record { session_id = sid }))
      if r.result_code == server.ok_code
          then (if reply_res r.reply == pos 0
              then (do paths ← lift (reply_paths r.reply); notify_files server paths)
              else pure tt)
          else pure tt)
    else pure tt

-- server.cpp, the callback of a server that becomes the leader.
unfoldable pub become_leader : Server → State → State
become_leader server s = record s { sdb = start_kathreads server.first_event_id s.sdb }

abbrev pub acked_or_minus_one : Option ℤ → ℤ
acked_or_minus_one none = minus_one
acked_or_minus_one (some eid) = eid

unfoldable pub keep_found : ℤ → Option ℤ → ℕ → Option Entry → Exec State (Option Status)
keep_found id acked reactor none = pure (some session_not_found_status)
keep_found id acked reactor (some e) = do
  write_session id (set_reactor e reactor reactor (acked_or_minus_one acked))
  pure none

-- KeepAlive: `none` where the reactor is left for the thread to finish, and otherwise the status
-- that it is finished with at once.
unfoldable pub rpc_keep_alive : Server → ℤ → Option ℤ → ℕ → Exec State (Option Status)
unfolding keep_found
rpc_keep_alive server session_id acked reactor =
    if server.is_leader
    then (do e ← find_session (to_int session_id); keep_found (to_int session_id) acked reactor e)
    else pure (some (record { code = not_leader; message = to_string server.get_leader }))

-- server.cpp, class DiagnosticImpl: GetLeader
unfoldable pub rpc_get_leader : Server → Answer ℤ
rpc_get_leader server = done server.get_leader
