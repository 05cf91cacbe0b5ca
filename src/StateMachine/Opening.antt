-- ===== src/StateMachine/Opening.antt =====
-- What the handler that opens a file answers and changes.
use distributed_systems_chub.Prelude.{
  ◌≡◌, ◌≢◌, ◌∙◌, ◌⊎◌, inl, inr, refl, sym, ap, true, false, Bool, none, some, [], ◌∷◌, ◌++◌, Text,
  text_eq, ℤ, ℤ_eq, pos, to_int, to_bool, length, if◌then◌else◌,
}
use distributed_systems_chub.Exec.{ok}
use distributed_systems_chub.Dict.{get, put, get-put_self, get-put_other}
use distributed_systems_chub.FilePath.{filename, parent_path, is_root}
use distributed_systems_chub.Directory.{add_entry}
use distributed_systems_chub.Store.{DataStore, File, new_file, touch}
use distributed_systems_chub.Session.{Entry, fh_to_key, handle_inum, add_new_handle}
use distributed_systems_chub.Session
use distributed_systems_chub.Action.{OpenAction, open_return}
use distributed_systems_chub.StateMachine.State.{State, ok_text, find_session}
use distributed_systems_chub.StateMachine.Open.{open_file, open_session, mark_opened, enter_parent}

-- The file that an open starts from: the one in the store, or a new one that does not exist.
abbrev pub Found : DataStore → Text → File → Type 0
Found ds path file = (get ds path ≡ some file) ⊎ ((get ds path ≡ none) × (file ≡ new_file))

pub get-touch :
    (ds : DataStore) (path : Text) (file : File)
    → Found ds path file
    → get (touch ds path) path ≡ some file
unfolding touch
get-touch ds path file (inl h) = rw (touch, h) h
get-touch ds path file (inr (h, p)) =
    rw (touch, h) (get-put_self ds path new_file ∙ ap some (sym p))

pub get-touch_other :
    (ds : DataStore) (path other : Text) (file : File)
    → Found ds path file
    → path ≢ other
    → get (touch ds path) other ≡ get ds other
unfolding touch
get-touch_other ds path other file (inl h) n = rw (touch, h)
get-touch_other ds path other file (inr (h, p)) n =
    rw (touch, h) (get-put_other ds path other new_file n)

-- The file after the open, which exists and tells the session under its new handle of events.
abbrev pub opened : OpenAction → File → ℤ → ℤ → File
opened a file id fh = record {
  content = file.content;
  meta = record file.meta {
    file_exists = true;
    is_directory = if file.file_exists then file.is_directory else to_bool a.is_directory;
    is_ephemeral = to_bool a.is_ephemeral;
    subscribers = put file.subscribers id fh;
  };
}

-- The parent after the open: it has a new entry if the file did not exist.
abbrev pub entered : OpenAction → File → File → File
entered a file parent = record parent {
  content = if file.file_exists then parent.content else add_entry parent.content (filename a.path);
}

-- The state before the file is marked as opened and its parent looked up.
abbrev pub touched : State → OpenAction → File → State
touched s a file = record s { ds = put (touch s.ds a.path) a.path (mark_opened a file) }

-- The parent gets its entry, and the file stays as it is.
enter_parent-runs :
    (s : State) (path : Text) (exists : Bool) (file parent : File)
    → is_root path ≡ false
    → parent_path path ≢ path
    → get s.ds path ≡ some file
    → get s.ds (parent_path path) ≡ some parent
    → (t : State) × (enter_parent path exists s ≡ (ok tt, t))
      × (get t.ds path ≡ some file)
      × (get t.ds (parent_path path)
          ≡ some (record parent {
            content = if exists then parent.content else add_entry parent.content (filename path);
          }))
      × (t.sdb ≡ s.sdb)
unfolding enter_parent find_session
enter_parent-runs s path true file parent root below here up = (s, rw root, here, up, refl)
enter_parent-runs s path false file parent root below here up = (
  record s {
    ds =
        put s.ds (parent_path path)
          (record parent { content = add_entry parent.content (filename path) });
  },
  rw (root, up),
  get-put_other s.ds (parent_path path) path _ below ∙ here,
  get-put_self s.ds (parent_path path) _,
  refl,
)

-- What the handler answers, and what it leaves of the file, its parent and the sessions.
pub open_file-runs :
    {e : Entry} {file parent : File} (s : State) (a : OpenAction)
    → Session.find_session s.sdb (to_int a.session_id) ≡ some e
    → Found s.ds a.path file
    → is_root a.path ≡ false
    → parent_path a.path ≢ a.path
    → get s.ds (parent_path a.path) ≡ some parent
    → parent.is_directory ≡ true
    → let fh = pos (length e.v) in
      (t : State) × (e' : Entry) × (open_file a s ≡ (ok (open_return (pos 0) ok_text fh), t))
      × (get t.ds a.path ≡ some (opened a file e.id fh))
      × (get t.ds (parent_path a.path) ≡ some (entered a file parent))
      × (Session.find_session t.sdb (to_int a.session_id) ≡ some e')
      × (e'.v ≡ e.v ++ a.path ∷ [])
      × (e'.inum ≡ e.inum ++ file.instance_num ∷ [])
      × (t.sdb ≡ Session.update_session s.sdb (to_int a.session_id) e')
      × (e'.id ≡ e.id)
unfolding open_file find_session mark_opened add_new_handle Session.find_session
    Session.update_session
open_file-runs {e} {file} {parent} s a live found root below up dir =
    let up1 : get (put (touch s.ds a.path) a.path (mark_opened a file)) (parent_path a.path)
        ≡ some parent =
      get-put_other (touch s.ds a.path) a.path (parent_path a.path) _ (λ p. below (sym p))
      ∙ get-touch_other s.ds a.path (parent_path a.path) file found (λ p. below (sym p))
      ∙ up in
    let (s2, entered_run, here, above, same) =
      enter_parent-runs (touched s a file) a.path file.file_exists (mark_opened a file) parent root
        below (get-put_self (touch s.ds a.path) a.path _) up1 in
    let e' = (add_new_handle e a.path file.instance_num).0 in
    let t : State = record s2 {
      sdb = Session.update_session s2.sdb (to_int a.session_id) e';
      ds = put s2.ds a.path (opened a file e.id (pos (length e.v)));
    } in
    (
      t,
      e',
      rw (live, open_session, get-touch s.ds a.path file found)
          (rw (up1, dir, entered_run, here) refl),
      get-put_self s2.ds a.path _,
      get-put_other s2.ds a.path (parent_path a.path) _ (λ p. below (sym p)) ∙ above,
      get-put_self s2.sdb.session_db (to_int a.session_id) e',
      refl,
      refl,
      rw same refl,
      refl,
    )

-- Opening a path of a live session, which is not the root, under a directory that the store holds:
-- the file exists from then on with the instance it had, a file that did not exist takes the kind
-- that is asked for and its parent an entry, the session is subscribed under its new handle, and
-- that handle names the path at the file's instance; the session's other handles stay.
pub open_file_outcome :
    {e : Entry} {file parent : File} (s : State) (a : OpenAction)
    → Session.find_session s.sdb (to_int a.session_id) ≡ some e
    → Found s.ds a.path file
    → is_root a.path ≡ false
    → parent_path a.path ≢ a.path
    → get s.ds (parent_path a.path) ≡ some parent
    → parent.is_directory ≡ true
    → let fh = pos (length e.v) in
      (t : State) × (e' : Entry) × (open_file a s ≡ (ok (open_return (pos 0) ok_text fh), t))
      × (get t.ds a.path ≡ some (opened a file e.id fh))
      × (get t.ds (parent_path a.path) ≡ some (entered a file parent))
      × (Session.find_session t.sdb (to_int a.session_id) ≡ some e')
      × (e'.v ≡ e.v ++ a.path ∷ [])
      × (e'.inum ≡ e.inum ++ file.instance_num ∷ [])
open_file_outcome s a live found root below up dir =
    let (t, e', ran, here, above, live', v, inum, _, _) =
      open_file-runs s a live found root below up dir in
    (t, e', ran, here, above, live', v, inum)
