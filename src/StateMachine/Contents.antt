-- ===== src/StateMachine/Contents.antt =====
-- StateMachine.cpp: the handlers that write a file's content and that delete a file.
use distributed_systems_chub.Prelude.{
  true, to_int, false, not, ◌&&◌, Option, none, some, List, [], ◌∷◌, Text, ℤ, ℤ_eq, ◌==◌, pos,
  minus_one, int_succ, codes, is_empty, if◌then◌else◌,
}
use distributed_systems_chub.Exec.{Exec, pure, ◌>>=◌, ◌>>◌}
use distributed_systems_chub.FilePath.{filename, parent_path}
use distributed_systems_chub.Directory.{cut_entry}
use distributed_systems_chub.Store.{notified, File, session_not_found}
use distributed_systems_chub.Session.{Entry, handle_inum, fh_to_key, enqueue_event}
use distributed_systems_chub.Action.{SetContentAction, DeleteAction, Reply, response}
use distributed_systems_chub.StateMachine.State.{
  State, find_session, write_session, at, file_at, write_file, assert,
}

abbrev pub inum_mismatch : Reply
inum_mismatch = response minus_one (codes "Instance num mismatch")

abbrev pub no_such_file : Reply
no_such_file = response minus_one (codes "File does not exist")

unfoldable pub set_file_content : SetContentAction → Text → File → ℤ → Exec State Reply
set_file_content a key file inum =
    if not (inum == file.instance_num)
    then pure inum_mismatch
    else if not file.file_exists
    then pure no_such_file
    else (do
      write_file key (record file { content = a.content })
      pure (response (pos 0) (codes "OK")))

unfoldable pub set_content_session : SetContentAction → Option Entry → Exec State Reply
unfolding set_file_content
set_content_session a none = pure (response minus_one session_not_found)
set_content_session a (some e) = do
  key ← at (fh_to_key e a.fh)
  file ← file_at key
  inum ← at (handle_inum e a.fh)
  set_file_content a key file inum

-- apply_(SetContentAction&)
unfoldable pub set_content : SetContentAction → Exec State Reply
unfolding set_content_session
set_content a = do e ← find_session (to_int a.session_id); set_content_session a e

-- A new instance of the file, which does not exist and is empty.
unfoldable pub delete_instance : File → File
delete_instance file = record file {
  content = [];
  meta = record file.meta {
    file_exists = false;
    instance_num = int_succ file.instance_num;
    content_gen_num = pos 0;
    lock_gen_num = pos 0;
  };
}

unfoldable pub notify_owner : ℤ → ℤ → Option Entry → Exec State (Unit {0})
notify_owner owner fh none = pure tt
notify_owner owner fh (some e) = write_session owner (enqueue_event e fh).0

-- Each owner of the lock that still has a session gets an event, under the deleter's handle.
unfoldable pub notify_owners : ℤ → List ℤ → Exec State (Unit {0})
unfolding notify_owner
notify_owners fh [] = pure tt
notify_owners fh (owner ∷ owners) = do
  e ← find_session owner
  notify_owner owner fh e
  notify_owners fh owners

unfoldable pub forget_entry : Text → File → Option Text → Exec State (Unit {0})
forget_entry path parent none = pure tt
forget_entry path parent (some content) = write_file path (record parent { content = content })

-- The file that the handle names is deleted, its lock's owners hear of it, and its entry goes.
unfoldable pub delete_steps : DeleteAction → Text → File → Exec State Reply
unfolding delete_instance notify_owners forget_entry notified
delete_steps a key file = do
  assert (not (file.is_directory && not (is_empty file.content)))
  write_file key (delete_instance file)
  notify_owners a.fh file.lock_owners
  write_file key (record (delete_instance file) {
    meta = record (delete_instance file).meta {
      lock_owners = [];
      cv = notified true (delete_instance file).cv;
    };
  })
  parent ← file_at (parent_path key)
  forget_entry (parent_path key) parent (cut_entry parent.content (filename key))
  pure (response (pos 0) [])

unfoldable pub delete_session_file : DeleteAction → Option Entry → Exec State Reply
unfolding delete_steps
delete_session_file a none = pure (response minus_one session_not_found)
delete_session_file a (some e) = do
  key ← at (fh_to_key e a.fh)
  file ← file_at key
  delete_steps a key file

-- apply_(DeleteAction&)
unfoldable pub delete_file : DeleteAction → Exec State Reply
unfolding delete_session_file
delete_file a = do e ← find_session (to_int a.session_id); delete_session_file a e
