-- ===== src/Skinny/Locks.antt =====
-- SkinnyImpl.cpp: the calls that take and release a lock. The mutex that they hold meanwhile is in
-- Skinny/Mutexes, and who notifies the condition variable in StateMachine/Locks and Contents.
use distributed_systems_chub.Prelude.{
  Bool, true, false, not, ◌||◌, Option, none, some, List, [], ◌∷◌, Text, ℤ, ℤ_eq, pos, negsuc,
  minus_one, to_int, ltb_ℤ, codes, is_empty, ◌==◌, if◌then◌else◌,
}
use distributed_systems_chub.Exec.{Exec, waiting, throw, pure, ◌>>=◌, ◌>>◌}
use distributed_systems_chub.Store.{File, FileMetaData}
use distributed_systems_chub.Session.{Entry, fh_to_key, handle_inum}
use distributed_systems_chub.Action.{AcqAction, RelAction, Reply, acq_action, rel_action}
use distributed_systems_chub.StateMachine.State.{State, find_session, at, file_at, assert}
use distributed_systems_chub.Skinny.{
  Server, Answer, done, refused, append, reply_res, reply_msg, lock_related,
  session_not_found_status,
}
use distributed_systems_chub.Skinny.Files.{of_bool}

-- skinny::LockAcqReq
pub record LockAcqReq : Type 0 where
  pub session_id : ℤ
  pub fh : ℤ
  pub ex : Bool

-- skinny::Response
pub record Response : Type 0 where
  pub res : ℤ
  pub msg : Text

-- action::AcqAction(session_id, fh, ex)
abbrev pub to_acq_action : LockAcqReq → AcqAction
to_acq_action req = record { session_id = req.session_id; fh = req.fh; ex = of_bool req.ex }

abbrev pub mismatch : Response
mismatch = record { res = minus_one; msg = codes "Instance num mismatch" }

abbrev pub missing : Response
missing = record { res = negsuc 1; msg = codes "File does not exist" }

-- The tests before the action is appended, on what the handle and the file are now.
unfoldable pub guarded : ℤ → File → Exec State (Answer Response) → Exec State (Answer Response)
guarded inum file act =
    if not (inum == file.instance_num)
    then pure (done mismatch)
    else if not file.file_exists
    then pure (done missing)
    else act

unfoldable pub tried : Reply → Exec State (Answer Response)
tried reply =
    if reply_res reply == minus_one
    then pure (refused (record { code = lock_related; message = reply_msg reply }))
    else pure (done (record { res = reply_res reply; msg = reply_msg reply }))

unfoldable pub try_session : Server → LockAcqReq → Option Entry → Exec State (Answer Response)
unfolding guarded tried
try_session server req none = pure (refused session_not_found_status)
try_session server req (some e) = do
  key ← at (fh_to_key e req.fh)
  file ← file_at key
  inum ← at (handle_inum e req.fh)
  guarded inum file (append server (acq_action (to_acq_action req)) tried)

-- TryAcquire
unfoldable pub rpc_try_acquire : Server → LockAcqReq → Exec State (Answer Response)
unfolding try_session
rpc_try_acquire server req = do e ← find_session (to_int req.session_id); try_session server req e

-- The assertion says that the lock, once waited for, is had.
unfoldable pub had : Reply → Exec State (Answer Response)
had reply = do
  assert (reply_res reply == pos 0)
  pure (done (record { res = reply_res reply; msg = reply_msg reply }))

-- The test of the wait, for the mode that is asked for.
unfoldable pub may_take : Bool → FileMetaData → Bool
may_take true m = is_empty m.lock_owners
may_take false m = is_empty m.lock_owners || not m.is_locked_ex

-- meta.cv.wait: the test, and a sleep before each further test.
unfoldable pub cv_wait : List (Entry → Exec State Entry) → Text → Bool → Entry → Exec State Entry
unfolding may_take
cv_wait [] key ex e = do file ← file_at key; if may_take ex file.meta then pure e else throw waiting
cv_wait (sleep ∷ sleeps) key ex e = do
  file ← file_at key
  if may_take ex file.meta then pure e else (do e' ← sleep e; cv_wait sleeps key ex e')

unfoldable pub acquire_found : Server → LockAcqReq → Option Entry → Exec State (Answer Response)
unfolding guarded had cv_wait
acquire_found server req none = pure (refused session_not_found_status)
acquire_found server req (some e) = do
  key ← at (fh_to_key e req.fh)
  file_at key
  e' ← cv_wait server.wake_ups key req.ex e
  file ← file_at key
  inum ← at (handle_inum e' req.fh)
  guarded inum file (append server (acq_action (to_acq_action req)) had)

-- Acquire
unfoldable pub rpc_acquire : Server → LockAcqReq → Exec State (Answer Response)
unfolding acquire_found
rpc_acquire server req = do e ← find_session (to_int req.session_id); acquire_found server req e

unfoldable pub let_go : Reply → Exec State (Answer (Unit {0}))
let_go reply =
    if ltb_ℤ (reply_res reply) (pos 0)
    then pure (refused (record { code = lock_related; message = reply_msg reply }))
    else pure (done tt)

unfoldable pub release_found : Server → RelAction → Option Entry → Exec State (Answer (Unit {0}))
unfolding let_go
release_found server req none = pure (refused session_not_found_status)
release_found server req (some e) = do
  key ← at (fh_to_key e req.fh)
  file_at key
  append server (rel_action req) let_go

-- Release
unfoldable pub rpc_release : Server → RelAction → Exec State (Answer (Unit {0}))
unfolding release_found
rpc_release server req = do e ← find_session (to_int req.session_id); release_found server req e
