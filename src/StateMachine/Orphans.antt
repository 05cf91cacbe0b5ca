-- ===== src/StateMachine/Orphans.antt =====
-- The open handler of StateMachine.cpp on a path that has no directory for its parent.
use distributed_systems_chub.Prelude.{
  ◌≡◌, ◌≢◌, ◌∙◌, ◌⊎◌, inl, inr, sym, false, none, some, Text, text_eq, ℤ_eq, to_int,
}
use distributed_systems_chub.Exec.{fault, aborted}
use distributed_systems_chub.Dict.{get, put, get-put_other}
use distributed_systems_chub.FilePath.{parent_path}
use distributed_systems_chub.Store.{DataStore, File, touch}
use distributed_systems_chub.Session.{Entry}
use distributed_systems_chub.Session
use distributed_systems_chub.Action.{OpenAction}
use distributed_systems_chub.StateMachine.State.{State, find_session}
use distributed_systems_chub.StateMachine.Open.{open_file, open_session, mark_opened}
use distributed_systems_chub.StateMachine.Opening.{Found, get-touch, get-touch_other, touched}

-- No directory stands at the path.
abbrev pub NoDirectory : DataStore → Text → Type 0
NoDirectory ds p =
    (get ds p ≡ none) ⊎ ((parent : File) × (get ds p ≡ some parent) × (parent.is_directory ≡ false))

after_touch :
    {file : File} (s : State) (a : OpenAction)
    → Found s.ds a.path file
    → parent_path a.path ≢ a.path
    → get (put (touch s.ds a.path) a.path (mark_opened a file)) (parent_path a.path)
      ≡ get s.ds (parent_path a.path)
after_touch {file} s a found below =
    get-put_other (touch s.ds a.path) a.path (parent_path a.path) _ (λ p. below (sym p))
    ∙ get-touch_other s.ds a.path (parent_path a.path) file found (λ p. below (sym p))

-- An open by a live session below a path that is missing, or that is no directory, aborts the server
-- that applies it, and leaves the path in the store, marked as it was asked for, but with no handle
-- and no entry.
pub open_file-aborts :
    {e : Entry} {file : File} (s : State) (a : OpenAction)
    → Session.find_session s.sdb (to_int a.session_id) ≡ some e
    → Found s.ds a.path file
    → parent_path a.path ≢ a.path
    → NoDirectory s.ds (parent_path a.path)
    → open_file a s ≡ (fault aborted, touched s a file)
unfolding open_file find_session
open_file-aborts {e} {file} s a live found below (inl missing) =
    rw (live, open_session, get-touch s.ds a.path file found)
      (rw (after_touch {file = file} s a found below, missing))
open_file-aborts {e} {file} s a live found below (inr (parent, there, plain)) =
    rw (live, open_session, get-touch s.ds a.path file found)
      (rw (after_touch {file = file} s a found below, there, plain))
