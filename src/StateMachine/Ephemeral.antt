-- ===== src/StateMachine/Ephemeral.antt =====
-- The end of an ephemeral file: its last subscriber closes the handle.
use distributed_systems_chub.Directory.{cut_entry}
use distributed_systems_chub.Directory.Entries.{render, AllNamed, NoneBegins, cut_entry-removes}
use distributed_systems_chub.StateMachine.Locks.{release_lock}
use distributed_systems_chub.FilePath.{filename, parent_path}
use distributed_systems_chub.Action.{close_return, CloseAction}
use distributed_systems_chub.Session.{Entry}
use distributed_systems_chub.StateMachine.State.{ok_text, find_session, State}
use distributed_systems_chub.StateMachine.Close.{close_session, has_key, unsubscribe, close}
use distributed_systems_chub.Store.{File}
use distributed_systems_chub.Prelude.{
  ℕ_eq, List, ◌∷◌, ◌++◌, contains, refl, ◌&&◌, ℤ_eq, text_eq, sym, ◌≢◌, pos, inr, ◌∙◌, is_empty,
  inl, some, true, to_int, negsuc, ◌≡◌, Text, false, ℤ,
}
use distributed_systems_chub.Exec.{ok}
use distributed_systems_chub.Dict.{get, put, get-put_self, get-put_other}
use distributed_systems_chub.StateMachine.Closing.{
  OpenHandle, left, handle_closed, close-unsubscribes, closed-Handle,
}
use distributed_systems_chub.StateMachine.LockReplies.{Handle, release_lock_outcome}

-- Only the session `id` is subscribed to the file, which is ephemeral; its parent lists its entry
-- after the older ones, none of which has a name that begins with the file's, and before the newer
-- ones.
pub record LastOpen (s : State) (id : ℤ) (k : Text) (file parent : File) (older newer : List Text)
    : Type 0 where
  pub subscribed : has_key (get file.subscribers id) ≡ true
  pub alone : (is_empty (left id file).subscribers && file.is_ephemeral) ≡ true
  pub parent_holds : get s.ds (parent_path k) ≡ some parent
  pub below : k ≢ parent_path k
  pub lists : parent.content ≡ render (older ++ filename k ∷ newer)
  pub named : contains (filename k) 0 ≡ false
  pub all_older : AllNamed older
  pub all_newer : AllNamed newer
  pub none_begins : NoneBegins (filename k) older

-- The file when it is gone: the owners of its lock are those that it had.
abbrev pub gone : ℤ → File → File
gone id file = record (left id file) { meta = record (left id file).meta { file_exists = false } }

-- The store when the file is gone and its entry cut.
abbrev gone_state : State → ℤ → Text → File → File → Text → State
gone_state s id key file parent content = record s {
  ds =
      put (put (put s.ds key (left id file)) key (gone id file)) (parent_path key)
        (record parent { content = content });
}

unsubscribe_last :
    {s : State} {key : Text} {file parent : File} {older newer : List Text} (id : ℤ)
    → LastOpen s id key file parent older newer
    → unsubscribe id key file s
      ≡ (ok (some (parent_path key)), gone_state s id key file parent (render (older ++ newer)))
unfolding unsubscribe find_session
unsubscribe_last {s} {key} {file} {parent} {older} {newer} id h =
    let up : get (put (put s.ds key (left id file)) key (gone id file)) (parent_path key)
        ≡ some parent =
      get-put_other _ key (parent_path key) (gone id file) h.below
      ∙ get-put_other s.ds key (parent_path key) (left id file) h.below
      ∙ h.parent_holds in
    let entered : cut_entry parent.content (filename key) ≡ some (render (older ++ newer)) =
      rw h.lists (
        cut_entry-removes older newer (filename key) h.named h.all_older h.all_newer
          h.none_begins) in
    rw (h.subscribed, h.alone, up, entered)

-- A file that does not exist gives no lock back.
release_gone :
    {s : State} {e : Entry} {key : Text} (owner id fh : ℤ) (file : File)
    → Handle s id fh e key (gone owner file)
    → release_lock id fh s ≡ (ok (negsuc 1), s)
release_gone owner id fh file h = elim (release_lock_outcome {file = gone owner file} id fh h) [
  | inl (_, r) ↦ r
  | inr (there, _, _, _) ↦ cc
]

-- What the last close of an ephemeral file leaves behind.
abbrev pub LastClosed : CloseAction → State → Entry → Text → File → File → List Text → Type 0
LastClosed a s e key file parent names =
    (s' : State) × (close a s ≡ (ok (close_return (pos 0) ok_text (pos 1) (parent_path key)), s'))
    × (get s'.ds key ≡ some (gone e.id file))
    × (get s'.ds (parent_path key) ≡ some (record parent { content = render names }))

-- When the last subscriber of an ephemeral file closes its handle, and no older entry of the file's
-- directory begins with the file's name, the file stops to exist, its entry and no other leaves the
-- directory, and the reply names the directory. The lock keeps all of its owners, so that the close
-- does not release it where the session holds it.
pub close_last :
    {s : State} {e : Entry} {key : Text} {file parent : File} {older newer : List Text}
    (a : CloseAction)
    → OpenHandle s (to_int a.session_id) a.fh e key file
    → LastOpen s e.id key file parent older newer
    → LastClosed a s e key file parent (older ++ newer)
unfolding close find_session
close_last {s} {e} {key} {file} {parent} {older} {newer} a h last =
    let content : Text = render (older ++ newer) in
    let id : ℤ = to_int a.session_id in
    let s' : State = gone_state (handle_closed s id e a.fh) e.id key file parent content in
    let found : get s'.ds key ≡ some (gone e.id file) =
      get-put_other _ (parent_path key) key (record parent { content = content })
        (λ q. last.below (sym q))
      ∙ get-put_self (put s.ds key (left e.id file)) key (gone e.id file) in
    let unsubscribed = unsubscribe_last {s = handle_closed s id e a.fh} e.id (still last) in
    let kept =
      release_gone e.id id a.fh file
        (closed-Handle {s' = s'} id a.fh (gone e.id file) h refl found) in
    (
      s',
      rw (h.handle.live, close_session, close-unsubscribes id a.fh h, unsubscribed, kept),
      found,
      get-put_self _ (parent_path key) (record parent { content = content }),
    )
  where
    still :
        LastOpen s e.id key file parent older newer
        → LastOpen (handle_closed s (to_int a.session_id) e a.fh) e.id key file parent older newer
    still l = record {
      subscribed = l.subscribed;
      alone = l.alone;
      parent_holds = l.parent_holds;
      below = l.below;
      lists = l.lists;
      named = l.named;
      all_older = l.all_older;
      all_newer = l.all_newer;
      none_begins = l.none_begins;
    }
