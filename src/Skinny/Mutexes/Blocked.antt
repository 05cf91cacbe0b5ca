-- ===== src/Skinny/Mutexes/Blocked.antt =====
-- Calls that wait for each other for ever: a mutex that one of them holds until the log answers, and
-- an entry of the log, before its own, that cannot be applied without that mutex.
use distributed_systems_chub.Prelude.{
  ℕ, ℕ_eq, ◌≡◌, inl, inr, refl, true, false, not, ◌&&◌, some, List, [], ◌∷◌, Text, text_eq, ℤ_eq,
  to_int, is_empty, contains, eq_true,
}
use distributed_systems_chub.Dict.{get, put}
use distributed_systems_chub.Session.{Entry, handle_inum}
use distributed_systems_chub.Store.{File}
use distributed_systems_chub.Action.{
  Action, DeleteAction, AcqAction, OpenAction, acq_action, delete_action, open_action,
}
use distributed_systems_chub.FilePath.{parent_path, is_root}
use distributed_systems_chub.Session
use distributed_systems_chub.StateMachine.Opening.{Found}
use distributed_systems_chub.StateMachine.State.{State, find_session}
use distributed_systems_chub.StateMachine.LockReplies.{Handle}
use distributed_systems_chub.Skinny.Mutexes.{
  Threads, append, lock, append_under, Reach, here, next, locks, delete_found, open_found,
  AsksFreely,
}
use distributed_systems_chub.Skinny.Mutexes.Held.{IsBlocked, Reach-IsBlocked}

-- Before the calls: nothing is pending and no mutex is held.
abbrev pub idle : State → Threads
idle s = record { state = s; pending = []; held = [] }

-- Both calls wait: the first one's action is first in the log, and the other call has the mutex.
abbrev pub crossed : State → Action → ℕ → AcqAction → ℕ → Text → Threads
crossed s action first acq taker key = record {
  state = s;
  pending = (first, action) ∷ (taker, acq_action acq) ∷ [];
  held = (key, taker) ∷ [];
}

-- What the threads do after that leaves both entries where they are, and the mutex held.
abbrev pub StillCrossed : State → Action → ℕ → AcqAction → ℕ → Text → Threads → Type 0
StillCrossed s action first acq taker key v =
    (v.state ≡ s)
    × (get v.held key ≡ some taker)
    × (more : List (ℕ × Action)) × (v.pending ≡ (first, action) ∷ (taker, acq_action acq) ∷ more)

-- A call whose action is applied under the mutex, before a call that has the mutex meanwhile.
crossed-StillCrossed :
    {s : State} {e : Entry} {key : Text} {file : File} {v : Threads} (action : Action)
    (acq : AcqAction) (first taker : ℕ)
    → AsksFreely action
    → contains (locks action s) key ≡ true
    → Handle s (to_int acq.session_id) acq.fh e key file
    → handle_inum e acq.fh ≡ some file.instance_num
    → file.file_exists ≡ true
    → Reach (crossed s action first acq taker key) v
    → Reach (idle s) (crossed s action first acq taker key)
      × StillCrossed s action first acq taker key v
unfolding get put ℕ_eq
crossed-StillCrossed {s} {e} {key} {file} action acq first taker free needs k at_inum there r = (
  next
      (next (next here (append (idle s) first action free))
        (lock _ taker (to_int acq.session_id) acq.fh e key file k refl))
      (append_under _ taker (acq_action acq) key (e, file, k, at_inum, there)
        (rw (eq_true {a = key} refl))),
  let b : IsBlocked (crossed s action first acq taker key) taker key = record {
    first = first;
    action = action;
    rest = (taker, acq_action acq) ∷ [];
    pending = refl;
    needs = needs;
    waits = inl refl;
    holds = rw (eq_true {a = key} refl);
  } in
      let (b', (same, more, p)) = Reach-IsBlocked b r in (same, b'.holds, more, p),
)

delete-locks :
    {s : State} {e : Entry} {key : Text} {file : File} (del : DeleteAction)
    → Handle s (to_int del.session_id) del.fh e key file
    → (file.is_directory && not (is_empty file.content)) ≡ false
    → contains (locks (delete_action del) s) key ≡ true
unfolding locks find_session contains
delete-locks {key} del h plain =
    rw (h.live, delete_found, h.names, h.holds, plain, eq_true {a = key} refl)

-- Delete and TryAcquire, or Delete and Acquire, on the same file can stop the server for ever. The
-- file is no directory with content, and both calls come through handles of live sessions, the one
-- for the lock open at the file's instance. If the deletion is appended to the log first, and the
-- other call locks the file's mutex before the deletion is applied, then whatever the threads do
-- while the server stays the leader: no entry of the log is ever applied again, and neither call ever returns.
pub delete-never_applied :
    {s : State} {e d : Entry} {key : Text} {file : File} {v : Threads} (del : DeleteAction)
    (acq : AcqAction) (deleter taker : ℕ)
    → Handle s (to_int del.session_id) del.fh d key file
    → (file.is_directory && not (is_empty file.content)) ≡ false
    → Handle s (to_int acq.session_id) acq.fh e key file
    → handle_inum e acq.fh ≡ some file.instance_num
    → file.file_exists ≡ true
    → Reach (crossed s (delete_action del) deleter acq taker key) v
    → Reach (idle s) (crossed s (delete_action del) deleter acq taker key)
      × StillCrossed s (delete_action del) deleter acq taker key v
delete-never_applied del acq deleter taker h plain k at_inum there r =
    crossed-StillCrossed (delete_action del) acq deleter taker tt (delete-locks del h plain) k
      at_inum there r

open-locks :
    {e : Entry} {file parent : File} (s : State) (a : OpenAction)
    → Session.find_session s.sdb (to_int a.session_id) ≡ some e
    → Found s.ds a.path file
    → file.file_exists ≡ false
    → is_root a.path ≡ false
    → get s.ds (parent_path a.path) ≡ some parent
    → parent.is_directory ≡ true
    → contains (locks (open_action a) s) (parent_path a.path) ≡ true
unfolding locks find_session contains
open-locks s a live (inl h) new root up dir =
    rw (live, open_found, h, up, new, root, dir, eq_true {a = parent_path a.path} refl)
open-locks s a live (inr (h, p)) new root up dir =
    rw (live, open_found, h, up, root, dir, eq_true {a = parent_path a.path} refl)

-- So can an Open of a file that does not exist and a call for the lock of the directory in which
-- the file is to stand.
open-never_applied :
    {s : State} {e opener : Entry} {file parent : File} {v : Threads} (a : OpenAction)
    (acq : AcqAction) (first taker : ℕ)
    → Session.find_session s.sdb (to_int a.session_id) ≡ some opener
    → Found s.ds a.path file
    → file.file_exists ≡ false
    → is_root a.path ≡ false
    → parent.is_directory ≡ true
    → Handle s (to_int acq.session_id) acq.fh e (parent_path a.path) parent
    → handle_inum e acq.fh ≡ some parent.instance_num
    → parent.file_exists ≡ true
    → Reach (crossed s (open_action a) first acq taker (parent_path a.path)) v
    → Reach (idle s) (crossed s (open_action a) first acq taker (parent_path a.path))
      × StillCrossed s (open_action a) first acq taker (parent_path a.path) v
open-never_applied {s} a acq first taker live found new root dir k at_inum there r =
    crossed-StillCrossed (open_action a) acq first taker tt
      (open-locks s a live found new root k.holds dir) k at_inum there r
