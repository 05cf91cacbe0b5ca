-- ===== src/StateMachine/Closing.antt =====
-- What closing a handle does: to a file that stays, and to an ephemeral file that goes.
use distributed_systems_chub.Prelude.{
  ◌&&◌, set_int, ◌≡◌, ◌≢◌, refl, ◌∙◌, Bool, false, inl, inr, none, some, Text, ℤ, ℤ_eq, text_eq,
  minus_one, arith, Bool-cases, to_int, ◌==◌, if◌then◌else◌, is_empty,
}
use distributed_systems_chub.Exec.{ok, fault, bad_optional_access}
use distributed_systems_chub.Dict.{get, put, remove, get-put_self, get-put}
use distributed_systems_chub.Store.{File}
use distributed_systems_chub.Session.{Entry, handle_inum, close_handle, fh_to_key}
use distributed_systems_chub.Session
use distributed_systems_chub.Action.{CloseAction}
use distributed_systems_chub.StateMachine.State.{State, find_session}
use distributed_systems_chub.StateMachine.Locks.{release_lock}
use distributed_systems_chub.StateMachine.Close.{
  close, close_session, unsubscribe, close_file_delete_ephermeral, has_key,
}
use distributed_systems_chub.StateMachine.LockReplies.{Handle, release_lock_outcome}

-- A handle that is still open.
pub record OpenHandle (s : State) (id fh : ℤ) (e : Entry) (key : Text) (file : File) : Type 0 where
  pub handle : Handle s id fh e key file
  pub inum : ℤ
  pub opened : handle_inum e fh ≡ some inum
  pub not_closed : inum ≢ minus_one

-- A release through a handle that names a file never faults, whatever it answers.
release_lock-ok :
    {s : State} {e : Entry} {key : Text} {file : File} (id fh : ℤ)
    → Handle s id fh e key file
    → (rc : ℤ) × (t : State) × (release_lock id fh s ≡ (ok rc, t)) × (t.sdb ≡ s.sdb)
release_lock-ok {s} id fh h = elim (release_lock_outcome id fh h) [
  | inl (_, r) ↦ (_, s, r, refl)
  | inr (_, _, _, r) ↦ (_, _, r, refl)
]

-- The file without the subscription of the session `id`.
abbrev pub left : ℤ → File → File
left id file = record file { meta = record file.meta { subscribers = remove file.subscribers id } }

and_false : (a b : Bool) → b ≡ false → (a && b) ≡ false
and_false a b h = ground arith

-- Where the file is not ephemeral, or others are subscribed, it stays, and no path is returned.
unsubscribe_stays :
    (id : ℤ) (key : Text) (file : File) (s : State)
    → (is_empty (left id file).subscribers && file.is_ephemeral) ≡ false
    → get s.ds key ≡ some file
    → (s' : State) × (file' : File) × (unsubscribe id key file s ≡ (ok none, s'))
      × (s'.sdb ≡ s.sdb)
      × (get s'.ds key ≡ some file')
unfolding unsubscribe find_session
unsubscribe_stays id key file s stays found =
    elim (Bool-cases (has_key (get file.subscribers id))) [
      | inl has ↦ (
        record s { ds = put s.ds key (left id file) },
        left id file,
        rw (has, stays),
        refl,
        get-put_self s.ds key (left id file),
      )
      | inr lacks ↦ (s, file, rw lacks, refl, found)
    ]

-- The session with the handle closed.
abbrev pub closed_entry : Entry → ℤ → Entry
closed_entry e fh = record e { inum = set_int e.inum fh minus_one }

close_handle-open :
    (e : Entry) (fh inum : ℤ)
    → handle_inum e fh ≡ some inum
    → close_handle e fh ≡ some (closed_entry e fh)
unfolding close_handle handle_inum
close_handle-open e fh inum h = rw (h, close_handle)

fh_to_key-closed : (e : Entry) (fh : ℤ) → fh_to_key (closed_entry e fh) fh ≡ fh_to_key e fh
unfolding fh_to_key
fh_to_key-closed e fh = refl

-- The state in which the handle is closed and nothing else has changed.
abbrev pub handle_closed : State → ℤ → Entry → ℤ → State
handle_closed s id e fh = record s { sdb = Session.update_session s.sdb id (closed_entry e fh) }

pub close-unsubscribes :
    {s : State} {e : Entry} {key : Text} {file : File} (id fh : ℤ)
    → OpenHandle s id fh e key file
    → close_file_delete_ephermeral id e fh s ≡ unsubscribe e.id key file (handle_closed s id e fh)
unfolding close_file_delete_ephermeral find_session
close-unsubscribes {e} id fh h =
    let shut : (h.inum == minus_one) ≡ false = ground (arith, h.not_closed) in
    rw (
      h.opened,
      shut,
      close_handle-open e fh h.inum h.opened,
      fh_to_key-closed e fh,
      h.handle.names,
      h.handle.holds,
    )

-- After the handle is closed the session is still live, and the handle still names the file.
pub closed-Handle :
    {s s' : State} {e : Entry} {key : Text} {file : File} (id fh : ℤ) (file' : File)
    → OpenHandle s id fh e key file
    → s'.sdb ≡ (handle_closed s id e fh).sdb
    → get s'.ds key ≡ some file'
    → Handle s' id fh (closed_entry e fh) key file'
unfolding Session.find_session Session.update_session
closed-Handle {s} {s'} {e} id fh file' h same found = record {
  live = rw same (get-put_self s.sdb.session_db id (closed_entry e fh));
  names = fh_to_key-closed e fh ∙ h.handle.names;
  holds = found;
}

-- Closing an open handle of a live session whose file stays, because it is not ephemeral or has other subscribers, ends in
-- std::bad_optional_access: the reply is built from the path of a directory that did not change. The
-- state that is left has the handle closed all the same, and no other handle and no other session
-- has changed.
pub close_faults :
    {s : State} {e : Entry} {key : Text} {file : File} (a : CloseAction)
    → OpenHandle s (to_int a.session_id) a.fh e key file
    → (is_empty (left e.id file).subscribers && file.is_ephemeral) ≡ false
    → (t : State) × (close a s ≡ (fault bad_optional_access, t))
      × ((id : ℤ)
          → Session.find_session t.sdb id ≡ (
              if to_int a.session_id == id
              then some (closed_entry e a.fh)
              else Session.find_session s.sdb id))
unfolding close find_session Session.find_session Session.update_session
close_faults {s} {e} {key} {file} a h stays =
    let id : ℤ = to_int a.session_id in
    let (s', file', r, same, found) =
      unsubscribe_stays e.id key file (handle_closed s id e a.fh) stays h.handle.holds in
    let (rc, t, released, kept) =
      release_lock-ok id a.fh (closed-Handle {s' = s'} id a.fh file' h same found) in
    let db : t.sdb ≡ (handle_closed s id e a.fh).sdb = kept ∙ same in
    (
      t,
      rw (h.handle.live, close_session, close-unsubscribes id a.fh h, r, released),
      λ other. rw db (get-put s.sdb.session_db id other (closed_entry e a.fh)),
    )
