-- ===== src/StateMachine/Open.antt =====
-- StateMachine.cpp: the handler that opens a file, and creates it where it does not exist.
use distributed_systems_chub.Prelude.{
  Bool, true, not, ◌&&◌, Option, none, some, Text, ℤ, ℤ_eq, pos, minus_one, to_bool, to_int,
  if◌then◌else◌,
}
use distributed_systems_chub.Exec.{Exec, pure, throw, aborted, ◌>>=◌, ◌>>◌}
use distributed_systems_chub.Dict.{put}
use distributed_systems_chub.FilePath.{filename, parent_path, is_root}
use distributed_systems_chub.Directory.{add_entry}
use distributed_systems_chub.Store.{File, session_not_found}
use distributed_systems_chub.Session.{Entry, add_new_handle}
use distributed_systems_chub.Action.{OpenAction, Reply, open_return}
use distributed_systems_chub.StateMachine.State.{
  State, ok_text, find_session, write_session, file_at, write_file, touch_file, find_file, assert,
}

-- A file that does not exist takes the kind that is asked for; every open sets `is_ephemeral`.
unfoldable pub mark_opened : OpenAction → File → File
mark_opened a file = record file {
  meta = record file.meta {
    is_directory = if file.file_exists then file.is_directory else to_bool a.is_directory;
    is_ephemeral = to_bool a.is_ephemeral;
  };
}

-- The two assertions about the parent.
unfoldable pub check_parent : Option File → Exec State (Unit {0})
check_parent none = throw aborted
check_parent (some parent) = assert parent.is_directory

-- A file that did not exist is entered into its parent.
unfoldable pub enter_parent : Text → Bool → Exec State (Unit {0})
enter_parent path exists =
    if not (is_root path) && not exists
    then (do
      parent ← file_at (parent_path path)
      write_file (parent_path path)
          (record parent { content = add_entry parent.content (filename path) }))
    else pure tt

-- The file exists from now on, and the session is subscribed under its newest handle.
unfoldable pub subscribe : ℤ → ℤ → File → File
subscribe id fh file = record file {
  meta = record file.meta { file_exists = true; subscribers = put file.subscribers id fh };
}

unfoldable pub open_session : OpenAction → Option Entry → Exec State Reply
unfolding mark_opened check_parent enter_parent subscribe
open_session a none = pure (open_return minus_one session_not_found minus_one)
open_session a (some e) = do
  touch_file a.path
  found ← file_at a.path
  write_file a.path (mark_opened a found)
  parent ← find_file (parent_path a.path)
  check_parent parent
  enter_parent a.path found.file_exists
  file ← file_at a.path
  let opened = add_new_handle e a.path file.instance_num
  write_session (to_int a.session_id) opened.0
  write_file a.path (subscribe e.id opened.1 file)
  pure (open_return (pos 0) ok_text opened.1)

-- apply_(OpenAction&)
unfoldable pub open_file : OpenAction → Exec State Reply
unfolding open_session
open_file a = do e ← find_session (to_int a.session_id); open_session a e
