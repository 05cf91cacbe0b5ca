-- ===== src/StateMachine/Locks.antt =====
-- StateMachine.cpp: the handlers for acquiring and for releasing a lock.
use distributed_systems_chub.Prelude.{
  [], zero, suc, Bool, true, false, not, ◌||◌, Option, none, some, Text, ℤ, ℤ_eq, pos, negsuc,
  minus_one, int_succ, to_bool, codes, contains, insert, erase, is_empty, if◌then◌else◌, to_int,
}
use distributed_systems_chub.Exec.{Exec, pure, throw, aborted, ◌>>=◌, ◌>>◌}
use distributed_systems_chub.Store.{File, FileMetaData, notified, session_not_found}
use distributed_systems_chub.Session.{Entry, fh_to_key}
use distributed_systems_chub.Action.{AcqAction, RelAction, Reply, response}
use distributed_systems_chub.StateMachine.State.{State, find_session, at, file_at, write_file}

abbrev pub acquired : Reply
acquired = response (pos 0) []

abbrev pub not_acquired : Reply
not_acquired = response (pos 1) (codes "fail to acquire")

-- The exclusive mode: the first owner counts a new generation of the lock.
unfoldable pub take_exclusive : ℤ → FileMetaData → FileMetaData
take_exclusive id m = record m {
  lock_owners = insert id m.lock_owners;
  is_locked_ex = true;
  lock_gen_num = int_succ m.lock_gen_num;
}

-- The shared mode: the first reader resets the flag and counts a new generation.
unfoldable pub take_shared : ℤ → FileMetaData → FileMetaData
take_shared id m =
    let first = is_empty m.lock_owners in
    record m {
      lock_owners = insert id m.lock_owners;
      is_locked_ex = if first then false else m.is_locked_ex;
      lock_gen_num = if first then int_succ m.lock_gen_num else m.lock_gen_num;
    }

unfoldable pub acquire_file : Bool → Text → ℤ → File → Exec State Reply
unfolding take_exclusive take_shared
acquire_file true key id file =
    if is_empty file.lock_owners
    then (do write_file key (record file { meta = take_exclusive id file.meta }); pure acquired)
    else pure not_acquired
acquire_file false key id file =
    if is_empty file.lock_owners || not file.is_locked_ex
    then (do write_file key (record file { meta = take_shared id file.meta }); pure acquired)
    else pure not_acquired

unfoldable pub acquire_session : AcqAction → Option Entry → Exec State Reply
unfolding acquire_file
acquire_session a none = pure (response minus_one session_not_found)
acquire_session a (some e) = do
  key ← at (fh_to_key e a.fh)
  file ← file_at key
  acquire_file (to_bool a.ex) key e.id file

-- apply_(AcqAction&)
unfoldable pub acquire : AcqAction → Exec State Reply
unfolding acquire_session
acquire a = do e ← find_session (to_int a.session_id); acquire_session a e

unfoldable pub release_file : ℤ → Text → File → Exec State ℤ
unfolding notified
release_file session_id key file = if not file.file_exists then pure (negsuc 1) else (do
  write_file key (record file {
    meta = record file.meta {
      lock_owners = erase session_id file.lock_owners;
      cv = notified (is_empty (erase session_id file.lock_owners)) file.cv;
    };
  })
  pure (if contains file.lock_owners session_id then pos 0 else minus_one))

unfoldable pub release_session : ℤ → ℤ → Option Entry → Exec State ℤ
unfolding release_file
release_session session_id fh none = pure minus_one
release_session session_id fh (some e) = do
  key ← at (fh_to_key e fh)
  file ← file_at key
  release_file session_id key file

-- release_lock, whose parameter is an `int`
unfoldable pub release_lock : ℤ → ℤ → Exec State ℤ
unfolding release_session
release_lock session_id fh = do e ← find_session session_id; release_session session_id fh e

unfoldable pub released : ℤ → Exec State Reply
released (negsuc (suc zero)) = pure (response (negsuc 1) (codes "file not found"))
released (negsuc zero) = pure (response minus_one (codes "the session does not hold this lock"))
released (pos zero) = pure (response (pos 0) [])
released _ = throw aborted

-- apply_(RelAction&)
unfoldable pub release : RelAction → Exec State Reply
unfolding release_lock released
release a = do rc ← release_lock (to_int a.session_id) a.fh; released rc
