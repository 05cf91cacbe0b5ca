-- ===== src/StateMachine/Files.antt =====
-- Invariants of each file apart. `FileInv` lists every way in which the state machine changes a
-- file; what all of these keep, each handler keeps for all files.
pub mod Rules
pub mod Handlers
pub mod Runs
use distributed_systems_chub.Prelude.{
  ◌≡◌, Bool, true, false, not, ◌||◌, Option, none, some, [], Text, ℤ, is_empty, erase, ℤ_eq,
  text_eq,
}
use distributed_systems_chub.Dict.{get, remove}
use distributed_systems_chub.Store.{notified, File, new_file}
use distributed_systems_chub.Session.{Entry, close_handle, enqueue_event}
use distributed_systems_chub.Session
use distributed_systems_chub.Action.{OpenAction}
use distributed_systems_chub.StateMachine.State.{State}
use distributed_systems_chub.StateMachine.Locks.{take_exclusive, take_shared}
use distributed_systems_chub.StateMachine.Open.{mark_opened, subscribe}
use distributed_systems_chub.StateMachine.Contents.{delete_instance}

-- `Good p o` is about what stands at the path `p`: no file, or a file.
pub record FileInv (Good : Text → Option File → Type 0) : Type 0 where
  pub fresh : (p : Text) → Good p none → Good p (some new_file)
  pub opened :
      (a : OpenAction) (p : Text) (f : File) → Good p (some f) → Good p (some (mark_opened a f))
  pub subscribed :
      (id fh : ℤ) (p : Text) (f : File) → Good p (some f) → Good p (some (subscribe id fh f))
  pub written :
      (content : Text) (p : Text) (f : File)
      → Good p (some f)
      → Good p (some (record f { content = content }))
  pub taken_exclusive :
      (id : ℤ) (p : Text) (f : File)
      → is_empty f.lock_owners ≡ true
      → Good p (some f)
      → Good p (some (record f { meta = take_exclusive id f.meta }))
  pub taken_shared :
      (id : ℤ) (p : Text) (f : File)
      → (is_empty f.lock_owners || not f.is_locked_ex) ≡ true
      → Good p (some f)
      → Good p (some (record f { meta = take_shared id f.meta }))
  pub released :
      (id : ℤ) (p : Text) (f : File)
      → Good p (some f)
      → Good p (
          some (record f {
            meta = record f.meta {
              lock_owners = erase id f.lock_owners;
              cv = notified (is_empty (erase id f.lock_owners)) f.cv;
            };
          }))
  pub unsubscribed :
      (id : ℤ) (p : Text) (f : File)
      → Good p (some f)
      → Good p (some (record f { meta = record f.meta { subscribers = remove f.subscribers id } }))
  pub vanished :
      (p : Text) (f : File)
      → Good p (some f)
      → Good p (some (record f { meta = record f.meta { file_exists = false } }))
  pub deleted : (p : Text) (f : File) → Good p (some f) → Good p (some (delete_instance f))
  pub unlocked :
      (p : Text) (f : File)
      → Good p (some f)
      → Good p
          (some (record f { meta = record f.meta { lock_owners = []; cv = notified true f.cv } }))

pub record Files (Good : Text → Option File → Type 0) (s : State) : Type 0 where
  pub at : (p : Text) → Good p (get s.ds p)

-- What every change to a session's entry keeps: the closing of a handle and an event. `Fine id e` is
-- about the entry `e` that stands under `id`.
pub record EntryInv (Fine : ℤ → Entry → Type 0) : Type 0 where
  pub closed :
      (id fh : ℤ) (e after : Entry) → close_handle e fh ≡ some after → Fine id e → Fine id after
  pub enqueued : (id fh : ℤ) (e : Entry) → Fine id e → Fine id (enqueue_event e fh).0

-- What the handlers keep but for new handles and new sessions, whose number is `next`.
pub record Kept (Good : Text → Option File → Type 0) (Fine : ℤ → Entry → Type 0) (next : ℤ)
    (s : State) : Type 0 where
  pub files : Files Good s
  pub entries : (id : ℤ) (e : Entry) → Session.find_session s.sdb id ≡ some e → Fine id e
  pub counter : s.sdb.next_id ≡ next
