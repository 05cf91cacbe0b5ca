-- ===== src/Skinny/Opened.antt =====
-- SkinnyImpl.cpp, Open of a new file, over a log that answers at once.
use distributed_systems_chub.Prelude.{
  ap, ◌≡◌, ◌≢◌, ◌∙◌, refl, sym, true, false, some, [], ◌∷◌, ◌++◌, Text, text_eq, ℤ, ℤ_eq, pos,
  to_int, length, at_int, at_int-append,
}
use distributed_systems_chub.Exec.{ok}
use distributed_systems_chub.Dict.{Dict, get, put, get-put_self, get-put_other}
use distributed_systems_chub.FilePath.{filename, parent_path, is_root}
use distributed_systems_chub.Directory.{add_entry}
use distributed_systems_chub.Store.{File}
use distributed_systems_chub.Session.{Db, Entry, handle_inum, fh_to_key}
use distributed_systems_chub.Session
use distributed_systems_chub.Action.{open_action, open_return}
use distributed_systems_chub.StateMachine.{apply}
use distributed_systems_chub.StateMachine.State.{State, find_session, ok_text}
use distributed_systems_chub.StateMachine.LockReplies.{Handle}
use distributed_systems_chub.StateMachine.Opening.{Found, open_file-runs}
use distributed_systems_chub.Skinny.{Server, done, reply_res}
use distributed_systems_chub.Skinny.Files.{OpenReq, rpc_open, to_action, opened}
use distributed_systems_chub.Skinny.AtOnce.{AtOnce, append-AtOnce}
use distributed_systems_chub.Skinny.Notified.{Known}
use distributed_systems_chub.Skinny.ReadBack.{notify_events-runs, Handle-Notified}

-- `e'` is `e` with one handle more.
record Extended (e e' : Entry) (path : Text) (inum : ℤ) : Type 0 where
  paths : e'.v ≡ e.v ++ path ∷ []
  inums : e'.inum ≡ e.inum ++ inum ∷ []

handle-kept :
    {e e' : Entry} {path : Text} {n : ℤ} (fh i : ℤ)
    → Extended e e' path n
    → handle_inum e fh ≡ some i
    → handle_inum e' fh ≡ some i
unfolding handle_inum
handle-kept {e} fh i x h = ap (λ l. at_int l fh) x.inums ∙ at_int-append e.inum _ fh i h

name-kept :
    {e e' : Entry} {path : Text} {n : ℤ} (fh : ℤ) (key : Text)
    → Extended e e' path n
    → fh_to_key e fh ≡ some key
    → fh_to_key e' fh ≡ some key
unfolding fh_to_key
name-kept {e} fh key x h = ap (λ l. at_int l fh) x.paths ∙ at_int-append e.v _ fh key h

-- The session `id` has got the handle.
module _ {e e' : Entry} {path : Text} {n : ℤ} (db : Db) (id : ℤ)
    (live : Session.find_session db id ≡ some e) (x : Extended e e' path n) where
  still_names :
      (sid fh : ℤ) (f : Entry) (key : Text)
      → Session.find_session db sid ≡ some f
      → fh_to_key f fh ≡ some key
      → (f' : Entry) × (Session.find_session (Session.update_session db id e') sid ≡ some f')
        × (fh_to_key f' fh ≡ some key)
  unfolding Session.find_session Session.update_session
  still_names sid fh f key there names = elim (ℤ_eq.dec id sid) [
    | yes p ↦
        let same : some e ≡ some f = sym live ∙ rw p there in
        let q : f ≡ e = cc in
        (e', rw p (get-put_self db.session_db sid e'), name-kept fh key x (rw (← q) names))
    | no m ↦ (f, get-put_other db.session_db id sid e' m ∙ there, names)
  ]

  still_known :
      (sid fh : ℤ)
      → ((f : Entry) → Session.find_session db sid ≡ some f → (i : ℤ) × (handle_inum f fh ≡ some i))
      → (g : Entry) → Session.find_session (Session.update_session db id e') sid ≡ some g
      → (i : ℤ) × (handle_inum g fh ≡ some i)
  unfolding Session.find_session Session.update_session
  still_known sid fh known g there = elim (ℤ_eq.dec id sid) [
    | yes p ↦
        let same : some e' ≡ some g =
          sym (get-put_self db.session_db id e') ∙ ap (get (put db.session_db id e')) p ∙ there in
        let q : g ≡ e' = cc in
        let (i, h) = known e (ap (get db.session_db) (sym p) ∙ live) in
        (i, rw q (handle-kept fh i x h))
    | no m ↦ known g (sym (get-put_other db.session_db id sid e' m) ∙ there)
  ]

Known-kept :
    {e e' : Entry} {path : Text} {n : ℤ} (id : ℤ) (subscribers : Dict ℤ ℤ) (s u : State)
    → Session.find_session s.sdb id ≡ some e
    → Extended e e' path n
    → u.sdb ≡ Session.update_session s.sdb id e'
    → Known s subscribers
    → Known u subscribers
Known-kept id [] s u live x p known = tt
Known-kept id ((sid, fh) ∷ subscribers) s u live x p (here, rest) = (
  (λ g there.
      still_known s.sdb id live x sid fh here g
        (ap (λ db. Session.find_session db sid) (sym p) ∙ there)),
  Known-kept id subscribers s u live x p rest,
)

-- A new file below a directory that the session `reader` has open: the call succeeds if the
-- directory's subscribers have handles that their sessions know, and the reader's handle then
-- stands for a directory with the new entry.
pub rpc_open-add_entry :
    {s : State} {e f : Entry} {file parent : File} (server : Server) (req : OpenReq) (reader fh : ℤ)
    → AtOnce server
    → Session.find_session s.sdb (to_int req.session_id) ≡ some e
    → Found s.ds req.path file
    → file.file_exists ≡ false
    → is_root req.path ≡ false
    → parent_path req.path ≢ req.path
    → Handle s reader fh f (parent_path req.path) parent
    → parent.is_directory ≡ true
    → Known s parent.subscribers
    → (t : State) × (g : Entry) × (after : File) × (rpc_open server req s
        ≡ (ok (done (pos (length e.v))), t))
      × Handle t reader fh g (parent_path req.path) after
      × (after.content ≡ add_entry parent.content (filename req.path))
unfolding apply rpc_open reply_res find_session
rpc_open-add_entry {s} {e} {f} {file} {parent} server req reader fh once live found new root below h
      dir known =
    let a = to_action req in
    let (u, e', ran, here, above, live', paths, inums, sdb, _) =
      open_file-runs {file = file} {parent = parent} s a live found root below h.holds dir in
    let x : Extended e e' req.path file.instance_num = record { paths = paths; inums = inums } in
    let (t, told, n) =
      notify_events-runs {s = u} server (parent_path req.path) once above
        (Known-kept (to_int req.session_id) parent.subscribers s u live x sdb known) in
    let (f', live_f, names_f) =
      still_names s.sdb (to_int req.session_id) live x reader fh f (parent_path req.path) h.live
        h.names in
    let (g, after, k, same) = Handle-Notified {s = u} reader fh n (record {
      live = ap (λ db. Session.find_session db reader) sdb ∙ live_f;
      names = names_f;
      holds = above;
    }) in
    (
      t,
      g,
      after,
      append-AtOnce server (open_action a) (opened server req) s u
            (open_return (pos 0) ok_text (pos (length e.v))) once ran refl
          ∙ rw (opened, told) refl,
      k,
      same ∙ rw new refl,
    )
