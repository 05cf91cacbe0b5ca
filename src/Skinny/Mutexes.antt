-- ===== src/Skinny/Mutexes.antt =====
-- The mutexes of the files: SkinnyImpl.cpp holds the mutex of a file while TryAcquire, Acquire and
-- Release wait for the log, and StateMachine.cpp locks mutexes while it applies an entry of the log.
pub mod Held
pub mod Blocked
pub mod Answered
use distributed_systems_chub.Prelude.{
  ◌⊎◌, ℕ, zero, suc, ◌+◌, ◌≡◌, ◌≢◌, Bool, true, false, not, ◌&&◌, Option, none, some, List, [], ◌∷◌,
  ◌++◌, Text, ℤ, pos, ℤ_eq, ℕ_eq, text_eq, minus_one, to_int, is_empty, ◌==◌, if◌then◌else◌,
}
use distributed_systems_chub.Exec.{Exec, Result, ok, fault, pure, ◌>>=◌, ◌>>◌}
use distributed_systems_chub.Dict.{Dict, get, put, remove}
use distributed_systems_chub.FilePath.{parent_path, is_root}
use distributed_systems_chub.Session.{Entry, fh_to_key, handle_inum, handle_count}
use distributed_systems_chub.Session
use distributed_systems_chub.Store.{File}
use distributed_systems_chub.Action.{
  Action, OpenAction, DeleteAction, CloseAction, EndSessionAction, open_action, close_action,
  start_session_action, end_session_action, acq_action, rel_action, set_content_action,
  delete_action,
}
use distributed_systems_chub.StateMachine.{apply}
use distributed_systems_chub.StateMachine.Close.{close_file_delete_ephermeral, has_key, deref}
use distributed_systems_chub.StateMachine.State.{State, find_session, at, file_at, find_file}
use distributed_systems_chub.StateMachine.LockReplies.{Handle}

-- What a reading gives, and nothing where the handler stops before it locks anything.
abbrev pub or_none : Result (List Text) → List Text
or_none (ok keys) = keys
or_none (fault e) = []

-- Deleting locks the file's mutex, and then its parent's.
unfoldable pub delete_found : DeleteAction → Option Entry → Exec State (List Text)
delete_found a none = pure []
delete_found a (some e) = do
  key ← at (fh_to_key e a.fh)
  file ← file_at key
  if file.is_directory && not (is_empty file.content)
      then pure []
      else pure (key ∷ parent_path key ∷ [])

unfoldable pub delete_locks : DeleteAction → Exec State (List Text)
unfolding delete_found
delete_locks a = do e ← find_session (to_int a.session_id); delete_found a e

abbrev pub exists : Option File → Bool
exists none = false
exists (some file) = file.file_exists

abbrev pub is_dir : Option File → Bool
is_dir none = false
is_dir (some file) = file.is_directory

-- Opening a file that does not exist locks the mutex of its parent.
unfoldable pub open_found : OpenAction → Option Entry → Exec State (List Text)
open_found a none = pure []
open_found a (some e) = do
  found ← find_file a.path
  parent ← find_file (parent_path a.path)
  if is_dir parent && not (is_root a.path) && not (exists found)
      then pure (parent_path a.path ∷ [])
      else pure []

unfoldable pub open_locks : OpenAction → Exec State (List Text)
unfolding open_found
open_locks a = do e ← find_session (to_int a.session_id); open_found a e

-- Closing the last subscriber's handle of an ephemeral file locks the mutex of its parent.
unfoldable pub handle_locks : ℤ → Option Entry → Exec State (List Text)
handle_locks fh none = pure []
handle_locks fh (some e) = do
  inum ← at (handle_inum e fh)
  key ← at (fh_to_key e fh)
  file ← file_at key
  if not (inum == minus_one)
        && has_key (get file.subscribers e.id)
        && is_empty (remove file.subscribers e.id)
        && file.is_ephemeral
      then pure (parent_path key ∷ [])
      else pure []

unfoldable pub close_locks : ℤ → ℤ → Exec State (List Text)
unfolding handle_locks
close_locks sid fh = do e ← find_session sid; handle_locks fh e

-- The state in which the handle is closed, or the stop of the handler.
unfoldable pub close_handle_of : ℤ → ℤ → Exec State (Option Text)
unfolding close_file_delete_ephermeral deref
close_handle_of sid fh = do
  found ← find_session sid
  e ← deref found
  close_file_delete_ephermeral sid e fh

abbrev pub go_on : Result (Option Text) → List Text → List Text
go_on (ok _) keys = keys
go_on (fault e) keys = []

-- The end of a session closes its handles one after the other.
unfoldable pub close_all_locks : ℤ → ℕ → ℕ → State → List Text
unfolding close_locks close_handle_of
close_all_locks sid zero i s = []
close_all_locks sid (suc n) i s =
    or_none (close_locks sid (pos i) s).0
    ++ go_on (close_handle_of sid (pos i) s).0
        (close_all_locks sid n (i + 1) (close_handle_of sid (pos i) s).1)

unfoldable pub end_locks : ℤ → Option Entry → State → List Text
unfolding close_all_locks
end_locks sid none s = []
end_locks sid (some e) s = close_all_locks sid (handle_count e) 0 s

-- The files whose mutexes the state machine locks while it applies the action.
unfoldable pub locks : Action → State → List Text
unfolding delete_locks open_locks close_locks end_locks
locks (open_action a) s = or_none (open_locks a s).0
locks (close_action a) s = or_none (close_locks (to_int a.session_id) a.fh s).0
locks start_session_action s = []
locks (end_session_action a) s =
    end_locks (to_int a.session_id) (Session.find_session s.sdb (to_int a.session_id)) s
locks (acq_action a) s = []
locks (rel_action a) s = []
locks (set_content_action a) s = []
locks (delete_action a) s = or_none (delete_locks a s).0

-- The threads of a server that stays the leader, so that the log answers a call by applying its
-- entry and in no other way: `pending` is the log from the first entry on that is not yet applied,
-- each with the number of the call that waits for it, and `held` the files whose mutex a call holds.
-- `state` is what the entries made that are applied to their end: a handler that waits for a mutex
-- has made no step.
pub record Threads : Type 0 where
  pub state : State
  pub pending : List (ℕ × Action)
  pub held : Dict Text ℕ

-- What a call asks of the log while it holds the mutex of the handle's file, which it keeps until the
-- log has answered.
abbrev pub AsksUnder : Action → Text → State → Type 0
AsksUnder (acq_action a) key s =
    (e : Entry) × (file : File) × Handle s (to_int a.session_id) a.fh e key file
    × (handle_inum e a.fh ≡ some file.instance_num)
    × (file.file_exists ≡ true)
AsksUnder (rel_action a) key s =
    (e : Entry) × (file : File) × Handle s (to_int a.session_id) a.fh e key file
AsksUnder _ key s = ⊥

abbrev pub AsksFreely : Action → Type 0
AsksFreely (acq_action a) = ⊥
AsksFreely (rel_action a) = ⊥
AsksFreely _ = Unit

abbrev pub Waits : ℕ → List (ℕ × Action) → Type 0
Waits call [] = ⊥
Waits call ((c, a) ∷ pending) = (c ≡ call) ⊎ Waits call pending

abbrev pub AllFree : Dict Text ℕ → List Text → Type 0
AllFree held [] = Unit
AllFree held (key ∷ keys) = (get held key ≡ none) × AllFree held keys

-- What one of the threads does next.
pub data Step : Threads → Threads → Type 0 where
  -- a call without a mutex appends its action
  append :
      (w : Threads) (call : ℕ) (a : Action)
      → AsksFreely a
      → Step w (record w { pending = w.pending ++ (call, a) ∷ [] })
  -- TryAcquire, Acquire or Release locks the mutex of its handle's file; so does Acquire again when
  -- it wakes up
  lock :
      (w : Threads) (call : ℕ) (sid fh : ℤ) (e : Entry) (key : Text) (file : File)
      → Handle w.state sid fh e key file
      → get w.held key ≡ none
      → Step w (record w { held = put w.held key call })
  -- the call that has the mutex appends its action
  append_under :
      (w : Threads) (call : ℕ) (a : Action) (key : Text)
      → AsksUnder a key w.state
      → get w.held key ≡ some call
      → Step w (record w { pending = w.pending ++ (call, a) ∷ [] })
  -- the first entry is applied, which needs the mutexes that its handler locks
  applied :
      (w : Threads) (call : ℕ) (a : Action) (rest : List (ℕ × Action))
      → w.pending ≡ (call, a) ∷ rest
      → AllFree w.held (locks a w.state)
      → Step w (record w { state = (apply a w.state).1; pending = rest })
  -- a call that does not wait for the log unlocks the mutex: its action is applied and it returns,
  -- or it returns before it asks, or Acquire goes to sleep
  unlock :
      (w : Threads) (call : ℕ) (key : Text)
      → get w.held key ≡ some call
      → ¬ Waits call w.pending
      → Step w (record w { held = remove w.held key })

pub data Reach (w : Threads) : Threads → Type 0 where
  here : Reach w w
  next : {u v : Threads} → Reach w u → Step u v → Reach w v
