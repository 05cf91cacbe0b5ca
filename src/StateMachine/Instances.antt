-- ===== src/StateMachine/Instances.antt =====
-- Deleting a file, and the handles that were opened before.
use distributed_systems_chub.StateMachine.Kept.{SameHandles, notify_owners-keeps}
use distributed_systems_chub.StateMachine.Writing.{set_content-refused}
use distributed_systems_chub.FilePath.{filename, parent_path}
use distributed_systems_chub.StateMachine.LockReplies.{Handle}
use distributed_systems_chub.Directory.{cut_entry}
use distributed_systems_chub.Action.{response, SetContentAction, DeleteAction}
use distributed_systems_chub.Store.{notified, File}
use distributed_systems_chub.Prelude.{
  ◌+◌, Bool-cases, true, ◌⊎◌, ap, false, is_empty, not, sym, ◌&&◌, zero, suc, none, some, at_int,
  to_int, negsuc, Option, pos, ◌≢◌, Text, int_succ, ◌≡◌, ◌∙◌, inl, inr, ℤ, ℤ_eq, text_eq, [], arith,
  Option-cases,
}
use distributed_systems_chub.Exec.{aborted, fault, ok}
use distributed_systems_chub.Dict.{get-put_self, get, put, get-put_other}
use distributed_systems_chub.Session.{Entry, handle_inum, fh_to_key}
use distributed_systems_chub.StateMachine.State.{State, find_session}
use distributed_systems_chub.StateMachine.Contents.{
  delete_session_file, inum_mismatch, set_content, delete_steps, forget_entry, delete_instance,
  delete_file,
}

-- The file when it is deleted: the next instance, which does not exist and is empty, with no owners
-- and its generations counted anew; who waits for its lock is notified. Who is subscribed and what kind of file it was stays.
abbrev pub deleted : File → File
deleted file = record {
  content = [];
  meta = record file.meta {
    file_exists = false;
    instance_num = int_succ file.instance_num;
    content_gen_num = pos 0;
    lock_gen_num = pos 0;
    lock_owners = [];
    cv = file.cv + 1;
  };
}

abbrev or_same : File → Option Text → File
or_same f none = f
or_same f (some content) = record f { content = content }

-- The parent after the search for the entry.
abbrev pub without_entry : File → Text → File
without_entry parent name = or_same parent (cut_entry parent.content name)

int_succ-ne : (i : ℤ) → i ≢ int_succ i
unfolding int_succ
int_succ-ne (pos n) = ground arith
int_succ-ne (negsuc zero) = ground arith
int_succ-ne (negsuc (suc n)) = ground arith

abbrev instance_state : State → Text → File → State
instance_state s key file = record s { ds = put s.ds key (delete_instance file) }

-- What the deletion leaves behind.
abbrev Deleted : State → State → Text → File → File → Type 0
Deleted s s' key file parent =
    (get s'.ds key ≡ some (deleted file))
    × (get s'.ds (parent_path key) ≡ some (without_entry parent (filename key)))
    × SameHandles s s'

forget_entry-Deleted :
    {s s' : State} {key : Text} {parent : File} (file : File)
    → key ≢ parent_path key
    → SameHandles s s'
    → get s'.ds key ≡ some (deleted file)
    → get s'.ds (parent_path key) ≡ some parent
    → (t : State) × (forget_entry
          (parent_path key)
          parent
          (cut_entry parent.content (filename key))
          s'
        ≡ (ok tt, t))
      × Deleted s t key file parent
unfolding forget_entry find_session
forget_entry-Deleted {s} {s'} {key} {parent} file below same here up =
    elim (Option-cases (cut_entry parent.content (filename key))) [
      | inl e ↦ (s', rw e, (here, rw e up, same))
      | inr (c, e) ↦ (
        record s' { ds = put s'.ds (parent_path key) (record parent { content = c }) },
        rw e,
        (
          get-put_other s'.ds (parent_path key) key _ (λ q. below (sym q)) ∙ here,
          rw e (get-put_self s'.ds (parent_path key) (record parent { content = c })),
          record { at = same.at },
        ),
      )
    ]

delete_steps-Deleted :
    {s : State} {key : Text} {parent : File} (file : File) (a : DeleteAction)
    → get s.ds (parent_path key) ≡ some parent
    → key ≢ parent_path key
    → (file.is_directory && not (is_empty file.content)) ≡ false
    → (t : State) × (delete_steps a key file s ≡ (ok (response (pos 0) []), t))
      × Deleted s t key file parent
unfolding delete_steps delete_instance find_session notified
delete_steps-Deleted {s} {key} {parent} file a up below fits =
    let (s2, told, same_ds, same) =
      notify_owners-keeps a.fh file.lock_owners (instance_state s key file) in
    let s3 : State = record s2 { ds = put s2.ds key (deleted file) } in
    let up2 : get s2.ds (parent_path key) ≡ some parent =
      ap (λ ds. get ds (parent_path key)) same_ds
      ∙ get-put_other s.ds key (parent_path key) (delete_instance file) below
      ∙ up in
    let up3 : get s3.ds (parent_path key) ≡ some parent =
      get-put_other s2.ds key (parent_path key) (deleted file) below ∙ up2 in
    let (t, forgot, done) =
      forget_entry-Deleted {s = s} {s' = s3} {key = key} {parent = parent} file below
        (record { at = same.at }) (get-put_self s2.ds key (deleted file)) up3 in
    (t, rw (fits, told, up3, forgot), done)

-- The outcomes of a deletion.
abbrev pub DeleteOutcome : DeleteAction → State → Text → File → File → Type 0
DeleteOutcome a s key file parent =
    (((file.is_directory && not (is_empty file.content)) ≡ false)
      × (t : State) × (delete_file a s ≡ (ok (response (pos 0) []), t))
      × (get t.ds key ≡ some (deleted file))
      × (get t.ds (parent_path key) ≡ some (without_entry parent (filename key)))
      × SameHandles s t)
    ⊎ (((file.is_directory && not (is_empty file.content)) ≡ true)
        × (delete_file a s ≡ (fault aborted, s)))

-- Deleting a file through a handle of a live session, where the file's parent is another path that
-- the store holds: unless the file is a directory that is not empty, it becomes a new instance that
-- does not exist, without content and owners, its entry is cut out of the parent if it is found
-- there, those who wait for its lock are notified, and every live session keeps its handles. Deleting a directory that is not empty aborts,
-- with nothing changed.
pub delete_file_outcome :
    {s : State} {e : Entry} {key : Text} {file parent : File} (a : DeleteAction)
    → Handle s (to_int a.session_id) a.fh e key file
    → get s.ds (parent_path key) ≡ some parent
    → key ≢ parent_path key
    → DeleteOutcome a s key file parent
unfolding delete_file find_session
delete_file_outcome {s} {e} {key} {file} {parent} a h up below =
    elim (Bool-cases (file.is_directory && not (is_empty file.content))) [
      | inl full ↦
          inr (full, rw (h.live, delete_session_file, h.names, h.holds, delete_steps, full))
      | inr fits ↦
          let (t, r, (here, there, same)) =
            delete_steps-Deleted {s = s} {key = key} {parent = parent} file a up below fits in
          inl (fits, t, rw (h.live, delete_session_file, h.names, h.holds, r), here, there, same)
    ]

pub same_key : (e e' : Entry) (fh : ℤ) → e'.v ≡ e.v → fh_to_key e' fh ≡ fh_to_key e fh
unfolding fh_to_key
same_key e e' fh h = ap (λ l. at_int l fh) h

same_inum : (e e' : Entry) (fh : ℤ) → e'.inum ≡ e.inum → handle_inum e' fh ≡ handle_inum e fh
unfolding handle_inum
same_inum e e' fh h = ap (λ l. at_int l fh) h

-- A handle that was opened before its file was deleted is refused: after the deletion of a file that
-- is no directory with content, whose parent is another path that the store holds, a write through
-- any live session's handle of the old instance is answered by the mismatch and changes nothing.
pub stale_write :
    {s : State} {e f : Entry} {key : Text} {file parent : File} (d : DeleteAction)
    (a : SetContentAction)
    → Handle s (to_int d.session_id) d.fh e key file
    → Handle s (to_int a.session_id) a.fh f key file
    → handle_inum f a.fh ≡ some file.instance_num
    → get s.ds (parent_path key) ≡ some parent
    → key ≢ parent_path key
    → (file.is_directory && not (is_empty file.content)) ≡ false
    → (t : State) × (delete_file d s ≡ (ok (response (pos 0) []), t))
      × (set_content a t ≡ (ok inum_mismatch, t))
unfolding delete_file find_session delete_instance
stale_write {s} {e} {f} {key} {file} {parent} d a h k opened up below fits =
    let (t, r, (here, _, same)) =
      delete_steps-Deleted {s = s} {key = key} {parent = parent} file d up below fits in
    let (f', live, v, inum, _) = same.at (to_int a.session_id) f k.live in
    let k' : Handle t (to_int a.session_id) a.fh f' key (deleted file) = record {
      live = live;
      names = same_key f f' a.fh v ∙ k.names;
      holds = here;
    } in
    (
      t,
      rw (h.live, delete_session_file, h.names, h.holds, r),
      set_content-refused a k' (same_inum f f' a.fh inum ∙ opened) (int_succ-ne file.instance_num),
    )
