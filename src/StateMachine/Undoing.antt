-- ===== src/StateMachine/Undoing.antt =====
-- A new file that is opened and then deleted: the two handlers of StateMachine.cpp together.
use mathlib.Core.List.{append-nil}
use distributed_systems_chub.Prelude.{
  ◌≡◌, ◌≢◌, ◌∙◌, inl, inr, refl, sym, ap, true, false, Bool, not, ◌&&◌, some, List, [], ◌∷◌, Text,
  text_eq, ℕ_eq, ℤ_eq, pos, to_int, length, contains, get_elem?-length, int_succ, is_empty,
}
use distributed_systems_chub.Exec.{ok}
use distributed_systems_chub.Dict.{get}
use distributed_systems_chub.FilePath.{filename, parent_path, is_root}
use distributed_systems_chub.Directory.{cut_entry, add_entry}
use distributed_systems_chub.Directory.Entries.{
  render, AllNamed, NoneBegins, add_entry-render, cut_entry-removes,
}
use distributed_systems_chub.Store.{File}
use distributed_systems_chub.Session.{Entry, fh_to_key}
use distributed_systems_chub.Session
use distributed_systems_chub.Action.{OpenAction, DeleteAction, open_return, response}
use distributed_systems_chub.StateMachine.State.{State, ok_text}
use distributed_systems_chub.StateMachine.Open.{open_file}
use distributed_systems_chub.StateMachine.Contents.{delete_file}
use distributed_systems_chub.StateMachine.LockReplies.{Handle}
use distributed_systems_chub.StateMachine.Opening.{Found, open_file_outcome, opened, entered}
use distributed_systems_chub.StateMachine.Instances.{delete_file_outcome, deleted, without_entry}

-- A path that can be created: the session that asks is live, the path is not the root, what stands
-- there does not exist and is empty, and its parent is a directory whose names do not begin with the
-- new one.
pub record Creates (s : State) (a : OpenAction) (e : Entry) (file parent : File) (names : List Text)
    : Type 0 where
  pub live : Session.find_session s.sdb (to_int a.session_id) ≡ some e
  pub found : Found s.ds a.path file
  pub missing : file.file_exists ≡ false
  pub empty : file.content ≡ []
  pub no_root : is_root a.path ≡ false
  pub below : parent_path a.path ≢ a.path
  pub up : get s.ds (parent_path a.path) ≡ some parent
  pub directory : parent.is_directory ≡ true
  pub lists : parent.content ≡ render names
  pub named : contains (filename a.path) 0 ≡ false
  pub all_named : AllNamed names
  pub none_begins : NoneBegins (filename a.path) names

-- The deletion through the handle that the open returned.
abbrev pub undo : OpenAction → Entry → DeleteAction
undo a e = record { session_id = a.session_id; fh = pos (length e.v) }

abbrev pub UndoOutcome : State → OpenAction → Entry → File → File → Type 0
UndoOutcome s a e file parent =
    (t : State) × (u : State) × (open_file a s
      ≡ (ok (open_return (pos 0) ok_text (pos (length e.v))), t))
    × (delete_file (undo a e) t ≡ (ok (response (pos 0) []), u))
    × (get u.ds (parent_path a.path) ≡ some parent)
    × (gone : File) × (get u.ds a.path ≡ some gone)
    × (gone.file_exists ≡ false)
    × (gone.content ≡ [])
    × (gone.instance_num ≡ int_succ file.instance_num)

cut-added :
    (names : List Text) (name : Text)
    → contains name 0 ≡ false
    → AllNamed names
    → NoneBegins name names
    → cut_entry (add_entry (render names) name) name ≡ some (render names)
cut-added names name named all_named none_begins =
    ap (λ c. cut_entry c name) (add_entry-render names name)
    ∙ cut_entry-removes names [] name named all_named tt none_begins
    ∙ ap (λ l. some (render l)) (append-nil names)

-- The parent after both handlers.
restored :
    {s : State} {e : Entry} {file parent : File} {names : List Text} (a : OpenAction)
    → Creates s a e file parent names
    → without_entry (entered a file parent) (filename a.path) ≡ parent
restored {parent} {names} a c =
    rw (c.missing, c.lists, cut-added names (filename a.path) c.named c.all_named c.none_begins)
      refl

not_full : (b : Bool) (content : Text) → content ≡ [] → ¬ ((b && not (is_empty content)) ≡ true)
not_full true [] e full = cc
not_full false [] e full = cc
not_full b (x ∷ content) e full = cc

-- Deleting a new file through the handle that its opening returned restores the content of its
-- directory; the path stays in the store without content, as a file that does not exist, at the next
-- instance.
pub open-delete :
    {s : State} {e : Entry} {file parent : File} {names : List Text} (a : OpenAction)
    → Creates s a e file parent names
    → UndoOutcome s a e file parent
unfolding fh_to_key
open-delete {s} {e} {file} {parent} a c =
    let (t, e', ran, here, above, live, paths, _) =
      open_file_outcome {e = e} {file = file} {parent = parent} s a c.live c.found c.no_root c.below
        c.up c.directory in
    let h : Handle t (to_int a.session_id) (pos (length e.v)) e' a.path
        (opened a file e.id (pos (length e.v))) =
      record { live = live; names = rw paths (get_elem?-length e.v [] a.path); holds = here } in
    elim (delete_file_outcome (undo a e) h above (λ q. c.below (sym q))) [
      | inl (_, u, r, gone, there, _) ↦ (
        t,
        u,
        ran,
        r,
        there ∙ ap some (restored a c),
        deleted (opened a file e.id (pos (length e.v))),
        gone,
        refl,
        refl,
        refl,
      )
      | inr (full, _) ↦ absurd (not_full _ file.content c.empty full)
    ]
