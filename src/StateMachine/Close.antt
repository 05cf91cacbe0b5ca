-- ===== src/StateMachine/Close.antt =====
-- StateMachine.cpp: the handlers that close a handle, and that start and end a session.
use distributed_systems_chub.Prelude.{
  ◌-◌, ltb, negsuc, ℕ, zero, suc, ◌+◌, Bool, true, false, ◌&&◌, Option, none, some, List, [], ◌∷◌,
  ◌++◌, Text, ℤ, ℤ_eq, ◌==◌, pos, minus_one, to_int, length, is_empty, if◌then◌else◌,
}
use distributed_systems_chub.Exec.{
  fault, Result, Exec, ok, pure, aborted, null_pointer, bad_optional_access, lift, some_or, ◌>>=◌,
  ◌>>◌,
}
use distributed_systems_chub.Dict.{get, remove}
use distributed_systems_chub.FilePath.{filename, parent_path}
use distributed_systems_chub.Directory.{cut_entry}
use distributed_systems_chub.Store.{File, session_not_found}
use distributed_systems_chub.Session.{
  Db, Entry, close_handle, handle_inum, handle_count, fh_to_key, create_session,
}
use distributed_systems_chub.Session
use distributed_systems_chub.Action.{
  CloseAction, EndSessionAction, Reply, close_return, response, start_session_return,
  end_session_return,
}
use distributed_systems_chub.StateMachine.State.{
  State, ok_text, find_session, write_session, at, file_at, write_file,
}
use distributed_systems_chub.StateMachine.Locks.{release_lock}

-- The entry of the deleted file is cut out of its parent, whose path is the answer if the entry
-- was there.
unfoldable pub cut_from_parent : Text → File → Option Text → Exec State (Option Text)
cut_from_parent parent_name parent none = pure none
cut_from_parent parent_name parent (some content) = do
  write_file parent_name (record parent { content = content })
  pure (some parent_name)

-- The last subscriber of an ephemeral file has left.
unfoldable pub delete_ephemeral : Text → File → Exec State (Option Text)
unfolding cut_from_parent
delete_ephemeral key file = do
  write_file key (record file { meta = record file.meta { file_exists = false } })
  parent ← file_at (parent_path key)
  cut_from_parent (parent_path key) parent (cut_entry parent.content (filename key))

abbrev pub has_key : Option ℤ → Bool
has_key none = false
has_key (some _) = true

unfoldable pub unsubscribe : ℤ → Text → File → Exec State (Option Text)
unfolding delete_ephemeral
unsubscribe id key file =
    let left = record file {
      meta = record file.meta { subscribers = remove file.subscribers id };
    } in
    if has_key (get file.subscribers id)
    then (do
      write_file key left
      if is_empty left.subscribers && left.is_ephemeral
          then delete_ephemeral key left
          else pure none)
    else pure none

unfoldable pub close_open_handle : ℤ → Entry → ℤ → Exec State (Option Text)
unfolding unsubscribe
close_open_handle sid e fh = do
  closed ← at (close_handle e fh)
  write_session sid closed
  key ← at (fh_to_key closed fh)
  file ← file_at key
  unsubscribe closed.id key file

-- The session `e` stands under `sid` in the database.
unfoldable pub close_file_delete_ephermeral : ℤ → Entry → ℤ → Exec State (Option Text)
unfolding close_open_handle
close_file_delete_ephermeral sid e fh = do
  inum ← at (handle_inum e fh)
  if inum == minus_one then pure none else close_open_handle sid e fh

unfoldable pub close_session : CloseAction → Option Entry → Exec State Reply
unfolding close_file_delete_ephermeral
close_session a none = pure (close_return minus_one session_not_found (pos 0) [])
close_session a (some e) = do
  ret ← close_file_delete_ephermeral (to_int a.session_id) e a.fh
  release_lock (to_int a.session_id) a.fh
  -- ret.value()
  path ← lift (some_or bad_optional_access ret)
  pure (close_return (pos 0) ok_text (pos 1) path)

-- apply_(CloseAction&)
unfoldable pub close : CloseAction → Exec State Reply
unfolding close_session
close a = do e ← find_session (to_int a.session_id); close_session a e

-- apply_(StartSessionAction&)
unfoldable pub start_session : Exec State Reply
start_session s =
    let (db, e) = create_session s.sdb in
    (ok (start_session_return (pos 0) ok_text e.id), record s { sdb = db })

-- What the loop over the handles gathers: the directories that changed, and the buffer's size.
pub record Changed : Type 0 where
  pub paths : List Text
  pub size : ℤ

-- `size += n` on an `int`, for a size_t `n`, with the wrap-around of the conversion to `int`.
unfoldable pub add_size : ℤ → ℕ → ℤ
add_size (pos size) n = to_int (pos (size + n))
add_size (negsuc k) n = if ltb k n then to_int (pos (n - suc k)) else to_int (negsuc (k - n))

-- The size grows by the number of the paths and not by the length of the new path.
unfoldable pub add_changed : Changed → Option Text → Changed
unfolding add_size
add_changed c none = c
add_changed c (some p) =
    let paths = c.paths ++ p ∷ [] in
    record { paths = paths; size = add_size c.size (length paths + 8) }

-- `session` points to the entry in the database.
unfoldable pub deref : Option Entry → Exec State Entry
deref e = lift (some_or null_pointer e)

-- The rounds that are left, and the number of the next handle.
unfoldable pub close_all : ℤ → ℕ → ℕ → Changed → Exec State Changed
close_all session_id zero i c = pure c
close_all session_id (suc n) i c = do
  found ← find_session (to_int session_id)
  e ← deref found
  ret ← close_file_delete_ephermeral (to_int session_id) e (pos i)
  release_lock (to_int session_id) (pos i)
  close_all session_id n (i + 1) (add_changed c ret)

-- The database without the session, or the failed assertion.
unfoldable pub dropped : State → Option Db → Result (Unit {0}) × State
dropped s none = (fault aborted, s)
dropped s (some db) = (ok tt, record s { sdb = db })

-- sdb_->delete_session(id)
unfoldable pub drop_session : ℤ → Exec State (Unit {0})
unfolding dropped
drop_session id s = dropped s (Session.delete_session s.sdb id)

unfoldable pub end_found : EndSessionAction → Option Entry → Exec State Reply
unfolding close_all deref drop_session
end_found a none = pure (response minus_one session_not_found)
end_found a (some e) = do
  -- sizeof(int32_t) + sizeof(ok.size()) + ok.size() + sizeof(int32_t)
  c ←
      close_all a.session_id (handle_count e) 0
        (record { paths = []; size = pos (4 + 8 + length ok_text + 4) })
  drop_session (to_int a.session_id)
  pure (end_session_return c.size c.paths)

-- apply_(EndSessionAction&)
unfoldable pub end_session : EndSessionAction → Exec State Reply
unfolding end_found
end_session a = do e ← find_session (to_int a.session_id); end_found a e
