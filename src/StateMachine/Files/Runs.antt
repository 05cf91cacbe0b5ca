-- ===== src/StateMachine/Files/Runs.antt =====
-- Every handler keeps what all changes to a file keep: the handlers that end a session and that
-- work on contents, and all of them over a log.
use distributed_systems_chub.Dict.{get, get-remove_found}
use distributed_systems_chub.Server.{root_file, initial}
use mathlib.Core.Logic.{ite}
use distributed_systems_chub.Prelude.{
  ℤ_eq, refl, Option-cases, inl, inr, codes, text_eq, subst, if◌then◌else◌, true, false, ◌≡◌,
  Option, none, some, List, [], ◌∷◌, Text, ℤ,
}
use distributed_systems_chub.Exec.Keeps.{OkIs, Keeps, Any}
use distributed_systems_chub.Store.{File}
use distributed_systems_chub.Session.{Db, Entry}
use distributed_systems_chub.Session
use distributed_systems_chub.Exec.{Exec}
use distributed_systems_chub.Action.{
  Action, open_action, close_action, start_session_action, end_session_action, acq_action,
  rel_action, set_content_action, delete_action, EndSessionAction, SetContentAction, DeleteAction,
}
use distributed_systems_chub.StateMachine.{apply, run}
use distributed_systems_chub.StateMachine.State.{State}
use distributed_systems_chub.StateMachine.Close.{
  start_session, dropped, drop_session, end_found, end_session,
}
use distributed_systems_chub.StateMachine.Contents.{
  delete_steps, set_file_content, set_content_session, set_content, delete_instance, notify_owner,
  notify_owners, forget_entry, delete_session_file, delete_file,
}
use distributed_systems_chub.StateMachine.Files.{FileInv, EntryInv, Files, Kept}
use distributed_systems_chub.StateMachine.Files.Handlers.{
  open_file-Keeps, close-Keeps, acquire-Keeps, release-Keeps, close_all-Keeps,
}
use distributed_systems_chub.StateMachine.Files.Rules.{
  Keeps-find_session, Looked, Keeps-with_session, Keeps-then, file_rules,
}

dropped-Any : (s : State) (db : Option Db) → OkIs Any (dropped s db).0
unfolding dropped
dropped-Any s none = tt
dropped-Any s (some db) = tt

module _ {Good : Text → Option File → Type 0} {Fine : ℤ → Entry → Type 0} {next : ℤ}
    (inv : FileInv Good) (entry_inv : EntryInv Fine) where
  delete_db-Keeps :
      (s : State) (id : ℤ)
      → Kept Good Fine next s
      → Kept Good Fine next (dropped s (Session.delete_session s.sdb id)).1
  unfolding dropped Session.delete_session Session.find_session
  delete_db-Keeps s id h = elim (Option-cases (get s.sdb.session_db id)) [
    | inl e ↦ rw (e, dropped) h
    | inr (x, e) ↦
        rw (e, dropped)
          (record {
            files = record { at = h.files.at };
            entries = λ j f found. h.entries j f (get-remove_found s.sdb.session_db id j f found);
            counter = h.counter;
          })
  ]

  drop_session-Keeps : (id : ℤ) → Keeps (Kept Good Fine next) Any (drop_session id)
  unfolding drop_session dropped
  drop_session-Keeps id = record {
    state = λ s h. delete_db-Keeps s id h;
    result = λ s h. dropped-Any s _;
  }

  end_found-Keeps :
      (a : EndSessionAction) (e : Option Entry) → Keeps (Kept Good Fine next) Any (end_found a e)
  unfolding end_found
  end_found-Keeps a none = search file_rules
  end_found-Keeps a (some e) =
      search (file_rules, Keeps-find_session, close_all-Keeps inv entry_inv, drop_session-Keeps)

  pub end_session-Keeps : (a : EndSessionAction) → Keeps (Kept Good Fine next) Any (end_session a)
  unfolding end_session
  end_session-Keeps a = search (file_rules, end_found-Keeps)

  set_file_content-Keeps :
      (a : SetContentAction) (key : Text) (file : File) (inum : ℤ)
      → Good key (some file)
      → Keeps (Kept Good Fine next) Any (set_file_content a key file inum)
  unfolding set_file_content
  set_file_content-Keeps a key file inum g = search (file_rules, inv.written) depth 7

  set_content_session-Keeps :
      (a : SetContentAction) (e : Option Entry)
      → Keeps (Kept Good Fine next) Any (set_content_session a e)
  unfolding set_content_session
  set_content_session-Keeps a none = search file_rules
  set_content_session-Keeps a (some e) = search (file_rules, set_file_content-Keeps) depth 7

  pub set_content-Keeps : (a : SetContentAction) → Keeps (Kept Good Fine next) Any (set_content a)
  unfolding set_content
  set_content-Keeps a = search (file_rules, set_content_session-Keeps)

  notify_owner-Keeps :
      (owner fh : ℤ) (e : Option Entry)
      → Looked Fine owner e
      → Keeps (Kept Good Fine next) Any (notify_owner owner fh e)
  unfolding notify_owner
  notify_owner-Keeps owner fh none fine = search file_rules
  notify_owner-Keeps owner fh (some e) fine = search (file_rules, entry_inv.enqueued)

  notify_owners-Keeps :
      (fh : ℤ) (owners : List ℤ) → Keeps (Kept Good Fine next) Any (notify_owners fh owners)
  unfolding notify_owners
  notify_owners-Keeps fh [] = search file_rules
  notify_owners-Keeps fh (owner ∷ owners) = Keeps-with_session owner _ λ e fine.
      Keeps-then _ _ (notify_owner-Keeps owner fh e fine) λ _. notify_owners-Keeps fh owners

  forget_entry-Keeps :
      (p : Text) (parent : File) (content : Option Text)
      → Good p (some parent)
      → Keeps (Kept Good Fine next) Any (forget_entry p parent content)
  unfolding forget_entry
  forget_entry-Keeps p parent none g = search file_rules
  forget_entry-Keeps p parent (some content) g = search (file_rules, inv.written)

  -- The file, as it is deleted, and with its lock cleared.
  delete_steps-Keeps :
      (a : DeleteAction) (key : Text) (file : File)
      → Good key (some file)
      → Keeps (Kept Good Fine next) Any (delete_steps a key file)
  unfolding delete_steps
  delete_steps-Keeps a key file g =
      let gone = inv.deleted key file g in
      let unlocked = inv.unlocked key (delete_instance file) gone in
      search (file_rules, notify_owners-Keeps, forget_entry-Keeps, gone, unlocked) depth 11

  delete_session_file-Keeps :
      (a : DeleteAction) (e : Option Entry)
      → Keeps (Kept Good Fine next) Any (delete_session_file a e)
  unfolding delete_session_file
  delete_session_file-Keeps a none = search file_rules
  delete_session_file-Keeps a (some e) = search (file_rules, delete_steps-Keeps) depth 7

  pub delete_file-Keeps : (a : DeleteAction) → Keeps (Kept Good Fine next) Any (delete_file a)
  unfolding delete_file
  delete_file-Keeps a = search (file_rules, delete_session_file-Keeps)

-- Where nothing is asked of the entries.
abbrev AnyEntry : ℤ → Entry → Type 0
AnyEntry id e = Unit {0}

AnyEntry-inv : EntryInv AnyEntry
AnyEntry-inv = record { closed = λ id fh e f h g. tt; enqueued = λ id fh e g. tt }

module _ {Good : Text → Option File → Type 0} (inv : FileInv Good) where
  by_Keeps :
      {A : Type 0} (s : State) (m : Exec State A)
      → Keeps (Kept Good AnyEntry s.sdb.next_id) Any m
      → Files Good s
      → Files Good (m s).1
  by_Keeps s m k h =
      (k.state s (record { files = h; entries = λ id e found. tt; counter = refl })).files

  apply-Files : (a : Action) (s : State) → Files Good s → Files Good (apply a s).1
  unfolding apply start_session
  apply-Files (open_action a) s h =
      by_Keeps s _ (open_file-Keeps inv AnyEntry-inv a λ id fh e g. tt) h
  apply-Files (close_action a) s h = by_Keeps s _ (close-Keeps inv AnyEntry-inv a) h
  apply-Files start_session_action s h = record { at = h.at }
  apply-Files (end_session_action a) s h = by_Keeps s _ (end_session-Keeps inv AnyEntry-inv a) h
  apply-Files (acq_action a) s h = by_Keeps s _ (acquire-Keeps inv AnyEntry-inv a) h
  apply-Files (rel_action a) s h = by_Keeps s _ (release-Keeps inv AnyEntry-inv a) h
  apply-Files (set_content_action a) s h = by_Keeps s _ (set_content-Keeps inv AnyEntry-inv a) h
  apply-Files (delete_action a) s h = by_Keeps s _ (delete_file-Keeps inv AnyEntry-inv a) h

  -- What all changes to a file keep holds after every log.
  pub run-Files : (log : List Action) (s : State) → Files Good s → Files Good (run log s)
  unfolding run
  run-Files [] s h = h
  run-Files (a ∷ log) s h = run-Files log (apply a s).1 (apply-Files a s h)

-- What holds of the root and of a missing file holds of all files at the start.
pub initial-Files :
    {Good : Text → Option File → Type 0}
    → Good (codes "/") (some root_file)
    → ((p : Text) → Good p none)
    → Files Good initial
unfolding initial get
initial-Files {Good} root missing = record { at = λ p. split p (text_eq.dec (codes "/") p) }
  where
    split :
        (p : Text) (d : Dec (codes "/" ≡ p))
        → Good p (if ite d true false then some root_file else none)
    split p (yes e) = subst (λ q. Good q (some root_file)) e root
    split p (no n) = missing p
