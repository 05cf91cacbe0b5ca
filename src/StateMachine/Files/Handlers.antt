-- ===== src/StateMachine/Files/Handlers.antt =====
-- Every handler keeps what all changes to a file keep.
use distributed_systems_chub.StateMachine.Close.{
  add_changed, Changed, deref, close_session, cut_from_parent, close_file_delete_ephermeral, close,
  unsubscribe, delete_ephemeral, close_all, close_open_handle,
}
use distributed_systems_chub.Prelude.{
  to_int, zero, ◌+◌, ℕ, pos, suc, negsuc, Bool, true, false, Option, none, some, Text, ℤ,
}
use distributed_systems_chub.Exec.{Exec, null_pointer, throw, lift, ◌>>=◌}
use distributed_systems_chub.Exec.Keeps.{Keeps-throw, Keeps, Any}
use distributed_systems_chub.StateMachine.State.{State}
use distributed_systems_chub.Store.{File}
use distributed_systems_chub.Session.{Entry, add_new_handle}
use distributed_systems_chub.Action.{CloseAction, RelAction, OpenAction, AcqAction}
use distributed_systems_chub.StateMachine.Locks.{
  release_file, release, release_lock, release_session, released, acquire_file, acquire_session,
  acquire,
}
use distributed_systems_chub.StateMachine.Open.{open_file, check_parent, enter_parent, open_session}
use distributed_systems_chub.StateMachine.Files.{FileInv, EntryInv, Kept}
use distributed_systems_chub.StateMachine.Files.Rules.{Looked, file_rules, Keeps-touch_file}

module _ {Good : Text → Option File → Type 0} {Fine : ℤ → Entry → Type 0} {next : ℤ}
    (inv : FileInv Good) (entry_inv : EntryInv Fine) where
  acquire_file-Keeps :
      (ex : Bool) (key : Text) (id : ℤ) (file : File)
      → Good key (some file)
      → Keeps (Kept Good Fine next) Any (acquire_file ex key id file)
  unfolding acquire_file
  acquire_file-Keeps true key id file g = search (file_rules, inv.taken_exclusive)
  acquire_file-Keeps false key id file g = search (file_rules, inv.taken_shared)

  acquire_session-Keeps :
      (a : AcqAction) (e : Option Entry) → Keeps (Kept Good Fine next) Any (acquire_session a e)
  unfolding acquire_session
  acquire_session-Keeps a none = search file_rules
  acquire_session-Keeps a (some e) = search (file_rules, acquire_file-Keeps)

  pub acquire-Keeps : (a : AcqAction) → Keeps (Kept Good Fine next) Any (acquire a)
  unfolding acquire
  acquire-Keeps a = search (file_rules, acquire_session-Keeps)

  check_parent-Keeps : (f : Option File) → Keeps (Kept Good Fine next) Any (check_parent f)
  unfolding check_parent
  check_parent-Keeps none = search file_rules
  check_parent-Keeps (some f) = search file_rules

  enter_parent-Keeps :
      (p : Text) (exists : Bool) → Keeps (Kept Good Fine next) Any (enter_parent p exists)
  unfolding enter_parent
  enter_parent-Keeps p exists = search (file_rules, inv.written)

  -- The new handle is a change of its own: that it keeps what is known of an entry is assumed.
  pub open_session-Keeps :
      (a : OpenAction) (e : Option Entry)
      → ((id fh : ℤ) (f : Entry) → Fine id f → Fine id (add_new_handle f a.path fh).0)
      → Looked Fine (to_int a.session_id) e
      → Keeps (Kept Good Fine next) Any (open_session a e)
  unfolding open_session
  open_session-Keeps a none added fine = search file_rules
  open_session-Keeps a (some e) added fine =
      search
        (
          file_rules,
          Keeps-touch_file inv,
          inv.opened,
          inv.subscribed,
          check_parent-Keeps,
          enter_parent-Keeps,
        )
        depth 14

  pub open_file-Keeps :
      (a : OpenAction)
      → ((id fh : ℤ) (f : Entry) → Fine id f → Fine id (add_new_handle f a.path fh).0)
      → Keeps (Kept Good Fine next) Any (open_file a)
  unfolding open_file
  open_file-Keeps a added = search (file_rules, open_session-Keeps)

  release_file-Keeps :
      (id : ℤ) (key : Text) (file : File)
      → Good key (some file)
      → Keeps (Kept Good Fine next) Any (release_file id key file)
  unfolding release_file
  release_file-Keeps id key file g = search (file_rules, inv.released)

  release_session-Keeps :
      (id fh : ℤ) (e : Option Entry) → Keeps (Kept Good Fine next) Any (release_session id fh e)
  unfolding release_session
  release_session-Keeps id fh none = search file_rules
  release_session-Keeps id fh (some e) = search (file_rules, release_file-Keeps)

  release_lock-Keeps : (id fh : ℤ) → Keeps (Kept Good Fine next) Any (release_lock id fh)
  unfolding release_lock
  release_lock-Keeps id fh = search (file_rules, release_session-Keeps)

  released-Keeps : (rc : ℤ) → Keeps (Kept Good Fine next) Any (released rc)
  unfolding released
  released-Keeps (negsuc (suc zero)) = search file_rules
  released-Keeps (negsuc zero) = search file_rules
  released-Keeps (pos zero) = search file_rules
  released-Keeps _ = search file_rules

  pub release-Keeps : (a : RelAction) → Keeps (Kept Good Fine next) Any (release a)
  unfolding release
  release-Keeps a = search (file_rules, release_lock-Keeps, released-Keeps)

  cut_from_parent-Keeps :
      (p : Text) (parent : File) (content : Option Text)
      → Good p (some parent)
      → Keeps (Kept Good Fine next) Any (cut_from_parent p parent content)
  unfolding cut_from_parent
  cut_from_parent-Keeps p parent none g = search file_rules
  cut_from_parent-Keeps p parent (some content) g = search (file_rules, inv.written)

  delete_ephemeral-Keeps :
      (key : Text) (file : File)
      → Good key (some file)
      → Keeps (Kept Good Fine next) Any (delete_ephemeral key file)
  unfolding delete_ephemeral
  delete_ephemeral-Keeps key file g = search (file_rules, inv.vanished, cut_from_parent-Keeps)

  unsubscribe-Keeps :
      (id : ℤ) (key : Text) (file : File)
      → Good key (some file)
      → Keeps (Kept Good Fine next) Any (unsubscribe id key file)
  unfolding unsubscribe
  unsubscribe-Keeps id key file g =
      search (file_rules, delete_ephemeral-Keeps, inv.unsubscribed) depth 8

  close_open_handle-Keeps :
      (sid : ℤ) (e : Entry) (fh : ℤ)
      → Fine sid e
      → Keeps (Kept Good Fine next) Any (close_open_handle sid e fh)
  unfolding close_open_handle
  close_open_handle-Keeps sid e fh fine =
      search (file_rules, unsubscribe-Keeps, entry_inv.closed) depth 8

  close_handle-Keeps :
      (sid : ℤ) (e : Entry) (fh : ℤ)
      → Fine sid e
      → Keeps (Kept Good Fine next) Any (close_file_delete_ephermeral sid e fh)
  unfolding close_file_delete_ephermeral
  close_handle-Keeps sid e fh fine = search (file_rules, close_open_handle-Keeps)

  close_session-Keeps :
      (a : CloseAction) (e : Option Entry)
      → Looked Fine (to_int a.session_id) e
      → Keeps (Kept Good Fine next) Any (close_session a e)
  unfolding close_session
  close_session-Keeps a none fine = search file_rules
  close_session-Keeps a (some e) fine =
      search (file_rules, close_handle-Keeps, release_lock-Keeps) depth 7

  pub close-Keeps : (a : CloseAction) → Keeps (Kept Good Fine next) Any (close a)
  unfolding close
  close-Keeps a = search (file_rules, close_session-Keeps)

  deref_with-Keeps :
      {B : Type 0} (id : ℤ) (o : Option Entry) (f : Entry → Exec State B)
      → Looked Fine id o
      → ((e : Entry) → Fine id e → Keeps (Kept Good Fine next) Any (f e))
      → Keeps (Kept Good Fine next) Any (deref o >>= f)
  unfolding deref lift throw ◌>>=◌
  deref_with-Keeps id none f fine kf = Keeps-throw null_pointer
  deref_with-Keeps id (some e) f fine kf = record {
    state = λ s h. (kf e fine).state s h;
    result = λ s h. (kf e fine).result s h;
  }

  pub close_all-Keeps :
      (sid : ℤ) (n i : ℕ) (c : Changed) → Keeps (Kept Good Fine next) Any (close_all sid n i c)
  unfolding close_all
  close_all-Keeps sid zero i c = search file_rules
  close_all-Keeps sid (suc n) i c =
      let rest = λ (ret : Option Text). close_all-Keeps sid n (i + 1) (add_changed c ret) in
      search (file_rules, deref_with-Keeps, close_handle-Keeps, release_lock-Keeps, rest) depth 9
