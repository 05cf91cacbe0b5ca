-- ===== src/Tests/Scenario.antt =====
-- Two sessions that open the same files, on a store that holds only the root.
use distributed_systems_chub.Prelude.{
  ◌≡◌, refl, Option, some, List, [], ◌∷◌, ◌++◌, Text, codes, ℤ, pos, ℤ_eq, ℕ_eq, text_eq, contains,
  insert, erase, int_succ, to_int,
}
use distributed_systems_chub.Exec.{Result, ok, fault, bad_optional_access, aborted}
use mathlib.Core.Option
use distributed_systems_chub.Dict.{get, put, remove}
use distributed_systems_chub.FilePath.{parent_path, filename, is_root}
use distributed_systems_chub.Directory.{add_entry, cut_entry, find, erase_range, is_prefix}
use distributed_systems_chub.Store.{File, touch}
use distributed_systems_chub.Session
use distributed_systems_chub.Action.{
  Action, open_action, close_action, start_session_action, end_session_action, acq_action, Reply,
  close_return, rel_action, set_content_action, delete_action, open_return,
}
use distributed_systems_chub.StateMachine.State.{State, find_session}
use distributed_systems_chub.StateMachine.{apply, run}
use distributed_systems_chub.StateMachine.Locks.{acquire, release, not_acquired}
use distributed_systems_chub.StateMachine.Open.{open_file}
use distributed_systems_chub.StateMachine.Close.{close, start_session, end_session}
use distributed_systems_chub.StateMachine.Contents.{set_content, delete_file}
use distributed_systems_chub.Server.{initial}

abbrev pub opens : ℤ → Text → Action
opens id path =
    open_action
      (record { session_id = id; path = path; is_directory = pos 0; is_ephemeral = pos 0 })

abbrev pub opens_ephemeral : ℤ → Text → Action
opens_ephemeral id path =
    open_action
      (record { session_id = id; path = path; is_directory = pos 0; is_ephemeral = pos 1 })

abbrev pub locks : ℤ → ℤ → Action
locks id fh = acq_action (record { session_id = id; fh = fh; ex = pos 1 })

abbrev pub shares : ℤ → ℤ → Action
shares id fh = acq_action (record { session_id = id; fh = fh; ex = pos 0 })

abbrev pub releases : ℤ → ℤ → Action
releases id fh = rel_action (record { session_id = id; fh = fh })

abbrev pub closes : ℤ → ℤ → Action
closes id fh = close_action (record { session_id = id; fh = fh })

abbrev pub writes : ℤ → ℤ → Text → Action
writes id fh content = set_content_action (record { session_id = id; fh = fh; content = content })

abbrev pub deletes : ℤ → ℤ → Action
deletes id fh = delete_action (record { session_id = id; fh = fh })

abbrev pub test_path : Text
test_path = codes "/test"

abbrev pub two_sessions : List Action
two_sessions =
    start_session_action
    ∷ start_session_action
    ∷ opens (pos 0) test_path
    ∷ opens (pos 1) test_path
    ∷ []

-- What a test has to see through: the handlers and the containers.
unfoldable pub run_log : List Action → State
unfolding find_session run apply open_file start_session acquire release close set_content
    delete_file end_session get put remove ℤ_eq text_eq ℕ_eq to_int touch initial
    Session.find_session Session.create_session Session.update_session Session.delete_session
    parent_path filename is_root add_entry cut_entry find erase_range is_prefix
    Session.add_new_handle Session.close_handle Session.handle_count Session.handle_inum
    Session.fh_to_key Session.enqueue_event Session.KaThread.enqueue_event contains insert erase
    int_succ
run_log log = run log initial

pub reply_after : List Action → Action → Result Reply
unfolding run_log
reply_after log a = (apply a (run_log log)).0

content_of : List Action → Text → Option Text
unfolding run_log
content_of log path = Option.map (λ (f : File). f.content) (get (run_log log).ds path)

owners_of : List Action → Text → Option (List ℤ)
unfolding run_log
owners_of log path = Option.map (λ (f : File). f.lock_owners) (get (run_log log).ds path)

second_handle :
    reply_after two_sessions (opens (pos 1) test_path)
    ≡ ok (open_return (pos 0) (codes "OK") (pos 1))
unfolding reply_after
second_handle = refl

lock_taken :
    reply_after (two_sessions ++ locks (pos 0) (pos 0) ∷ []) (shares (pos 1) (pos 0))
    ≡ ok not_acquired
unfolding reply_after
lock_taken = refl

root_lists :
    content_of (two_sessions ++ opens (pos 0) (codes "/b") ∷ []) (codes "/")
    ≡ some (0 ∷ codes "test" ++ 0 ∷ codes "b")
unfolding content_of
root_lists = refl

plain_close : reply_after two_sessions (closes (pos 0) (pos 0)) ≡ fault bad_optional_access
unfolding reply_after
plain_close = refl

abbrev pub ephemeral_lock : List Action
ephemeral_lock =
    start_session_action ∷ opens_ephemeral (pos 0) test_path ∷ locks (pos 0) (pos 0) ∷ []

ephemeral_close :
    reply_after ephemeral_lock (closes (pos 0) (pos 0))
    ≡ ok (close_return (pos 0) (codes "OK") (pos 1) (codes "/"))
unfolding reply_after
ephemeral_close = refl

lock_survives :
    owners_of (ephemeral_lock ++ end_session_action (record { session_id = pos 0 }) ∷ []) test_path
    ≡ some (pos 0 ∷ [])
unfolding owners_of
lock_survives = refl

deleted : content_of (two_sessions ++ deletes (pos 0) (pos 0) ∷ []) (codes "/") ≡ some []
unfolding content_of
deleted = refl

-- The root is deleted and opened again as a plain file.
abbrev root_lost : List Action
root_lost =
    start_session_action
    ∷ opens (pos 0) (codes "/")
    ∷ deletes (pos 0) (pos 0)
    ∷ opens (pos 0) (codes "/")
    ∷ []

nothing_opens : reply_after root_lost (opens (pos 0) test_path) ≡ fault aborted
unfolding reply_after
nothing_opens = refl
