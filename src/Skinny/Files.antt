-- ===== src/Skinny/Files.antt =====
-- SkinnyImpl.cpp: the calls that open, close, read, write and delete a file.
use distributed_systems_chub.Prelude.{
  Bool, true, false, Option, none, some, Text, ℤ, pos, to_int, to_bool, if◌then◌else◌,
}
use distributed_systems_chub.Decimal.{to_string}
use distributed_systems_chub.Exec.{Exec, Result, ok, fault, library_error, pure, lift, ◌>>=◌, ◌>>◌}
use distributed_systems_chub.FilePath.{parent_path}
use distributed_systems_chub.Session.{Entry, fh_to_key}
use distributed_systems_chub.Action.{
  OpenAction, CloseAction, SetContentAction, DeleteAction, Reply, open_action, close_action,
  set_content_action, delete_action, open_return, close_return,
}
use distributed_systems_chub.StateMachine.State.{State, find_session, at, file_at}
use distributed_systems_chub.Skinny.{
  Server, Answer, done, refused, append, reply_res, not_leader, session_not_found_status,
}
use distributed_systems_chub.Skinny.Notify.{notify_events}

-- skinny::OpenReq
pub record OpenReq : Type 0 where
  pub session_id : ℤ
  pub path : Text
  pub is_directory : Bool
  pub is_ephemeral : Bool

abbrev pub of_bool : Bool → ℤ
of_bool true = pos 1
of_bool false = pos 0

-- action::OpenAction{req}
abbrev pub to_action : OpenReq → OpenAction
to_action req = record {
  session_id = req.session_id;
  path = req.path;
  is_directory = of_bool req.is_directory;
  is_ephemeral = of_bool req.is_ephemeral;
}

-- action::OpenReturn r(buffer): a reply of another kind has no such field.
unfoldable pub reply_fh : Reply → Result ℤ
reply_fh (open_return res msg fh) = ok fh
reply_fh _ = fault library_error

unfoldable pub opened : Server → OpenReq → Reply → Exec State (Answer ℤ)
unfolding notify_events reply_fh
opened server req reply = do
  fh ← lift (reply_fh reply)
  notify_events server (parent_path req.path)
  pure (done fh)

-- Open
unfoldable pub rpc_open : Server → OpenReq → Exec State (Answer ℤ)
unfolding opened
rpc_open server req = append server (open_action (to_action req)) (opened server req)

-- action::CloseReturn r(buffer): `need_notify` and `parent_path`
unfoldable pub reply_parent : Reply → Result (ℤ × Text)
reply_parent (close_return res msg need_notify parent) = ok (need_notify, parent)
reply_parent _ = fault library_error

unfoldable pub closed : Server → Reply → Exec State (Answer (Unit {0}))
unfolding reply_parent
closed server reply = do
  (need_notify, parent) ← lift (reply_parent reply)
  if to_bool need_notify then notify_events server parent else pure tt
  pure (done tt)

-- Close
unfoldable pub rpc_close : Server → CloseAction → Exec State (Answer (Unit {0}))
unfolding closed
rpc_close server req = append server (close_action req) (closed server)

unfoldable pub get_session_content : ℤ → Option Entry → Exec State (Answer Text)
get_session_content fh none = pure (refused session_not_found_status)
get_session_content fh (some e) = do
  key ← at (fh_to_key e fh)
  file ← file_at key
  pure (done file.content)

-- GetContent
unfoldable pub rpc_get_content : Server → ℤ → ℤ → Exec State (Answer Text)
unfolding get_session_content
rpc_get_content server session_id fh =
    if server.is_leader
    then (do e ← find_session (to_int session_id); get_session_content fh e)
    else pure (refused (record { code = not_leader; message = to_string server.get_leader }))

unfoldable pub written : Server → ℤ → Option Entry → Exec State (Answer (Unit {0}))
unfolding notify_events
written server fh none = pure (refused session_not_found_status)
written server fh (some e) = do key ← at (fh_to_key e fh); notify_events server key; pure (done tt)

-- SetContent
unfoldable pub rpc_set_content : Server → SetContentAction → Exec State (Answer (Unit {0}))
unfolding written
rpc_set_content server req =
    append server (set_content_action req)
      (λ _. do e ← find_session (to_int req.session_id); written server req.fh e)

unfoldable pub deleted : Server → ℤ → ℤ → Option Entry → Exec State (Answer ℤ)
unfolding notify_events
deleted server fh res none = pure (refused session_not_found_status)
deleted server fh res (some e) = do
  key ← at (fh_to_key e fh)
  notify_events server (parent_path key)
  pure (done res)

-- Delete
unfoldable pub rpc_delete : Server → DeleteAction → Exec State (Answer ℤ)
unfolding deleted
rpc_delete server req = append server (delete_action req) (λ reply. do
  e ← find_session (to_int req.session_id)
  deleted server req.fh (reply_res reply) e)
