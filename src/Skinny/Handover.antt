-- ===== src/Skinny/Handover.antt =====
-- SkinnyImpl.cpp, Acquire and Release together, over a log that answers at once: a lock that its
-- owner gives up while another session waits for it.
use distributed_systems_chub.Prelude.{
  int_succ, ◌+◌, eq_false, ◌≡◌, refl, ap, ◌∙◌, Bool, true, false, inl, inr, some, List, [], ◌∷◌,
  text_eq, ℤ, ℤ_eq, Text, pos, to_int, contains, eq_true, ◌==◌, Bool-cases, if◌then◌else◌, arith,
}
use distributed_systems_chub.Exec.{ok, pure, ◌>>◌}
use distributed_systems_chub.Dict.{put, get-put_self, put-put_self}
use distributed_systems_chub.Store.{File, FileMetaData}
use distributed_systems_chub.Action.{RelAction, rel_action, response}
use distributed_systems_chub.Session.{Entry, handle_inum}
use distributed_systems_chub.StateMachine.{apply}
use distributed_systems_chub.StateMachine.State.{State, find_session}
use distributed_systems_chub.StateMachine.Locks.{release, released}
use distributed_systems_chub.StateMachine.LockReplies.{Handle, IsFree, Taken, release_lock_outcome}
use distributed_systems_chub.Skinny.{Server, done, reply_res}
use distributed_systems_chub.Skinny.Locks.{
  LockAcqReq, rpc_acquire, rpc_release, release_found, let_go,
}
use distributed_systems_chub.Skinny.AtOnce.{AtOnce, append-AtOnce}
use distributed_systems_chub.Skinny.WaitLock.{Sleep, acquire_granted}

-- The session `id` is the one owner.
pub record OnlyOwner (id : ℤ) (m : FileMetaData) : Type 0 where
  pub owns : contains m.lock_owners id ≡ true
  pub alone : (x : ℤ) → contains m.lock_owners x ≡ true → id ≡ x

-- The file after its owner has let it go.
abbrev pub let_go_of : File → File
let_go_of file = record file { meta = record file.meta { lock_owners = []; cv = file.cv + 1 } }

no_owner : (owners : List ℤ) → ((x : ℤ) → contains owners x ≡ false) → owners ≡ []
unfolding contains
no_owner [] h = refl
no_owner (x ∷ owners) h = ground (arith, h x)

all_gone :
    (id : ℤ) (m : FileMetaData) (owners : List ℤ)
    → OnlyOwner id m
    → ((x : ℤ) → contains owners x ≡ (if id == x then false else contains m.lock_owners x))
    → owners ≡ []
all_gone id m owners only h = no_owner owners (λ x. elim (ℤ_eq.dec id x) [
  | yes p ↦ h x ∙ rw (eq_true p)
  | no n ↦ elim (Bool-cases (contains m.lock_owners x)) [
    | inl held ↦ absurd (n (only.alone x held))
    | inr not_held ↦ h x ∙ rw (eq_false n, not_held)
  ]
])

-- Whoever takes a lock without owners is the one owner.
Taken-OnlyOwner :
    {ex : Bool} {before : FileMetaData} (id : ℤ) (m : FileMetaData)
    → before.lock_owners ≡ []
    → Taken ex id before m
    → OnlyOwner id m
unfolding contains
Taken-OnlyOwner {before} id m none taken = record {
  owns = taken.owners id ∙ rw (eq_true {a = id} refl);
  alone = λ x held. ground (arith, taken.owners x);
}

-- The owner's release, in the state machine and through the remote call.
module _ {s : State} {e : Entry} {key : Text} {file : File} (rel : RelAction)
    (h : Handle s (to_int rel.session_id) rel.fh e key file) (there : file.file_exists ≡ true)
    (only : OnlyOwner (to_int rel.session_id) file.meta) where
  release-OnlyOwner :
      release rel s ≡ (ok (response (pos 0) []), record s { ds = put s.ds key (let_go_of file) })
  unfolding release released find_session
  release-OnlyOwner = elim (release_lock_outcome (to_int rel.session_id) rel.fh h) [
    | inl (gone, _) ↦ cc
    | inr (_, owners, same, r) ↦
        rw (r, only.owns, all_gone (to_int rel.session_id) file.meta owners only same) refl
  ]

  rpc_release-OnlyOwner :
      (server : Server)
      → AtOnce server
      → rpc_release server rel s ≡ (ok (done tt), record s { ds = put s.ds key (let_go_of file) })
  unfolding rpc_release find_session let_go reply_res apply
  rpc_release-OnlyOwner server once =
      rw (h.live, release_found, h.names, h.holds)
        (append-AtOnce server (rel_action rel) let_go s _ _ once release-OnlyOwner refl)

-- While a call sleeps, the owner releases its lock by a remote call.
unfoldable pub releases : Server → RelAction → Sleep
releases server rel e = do rpc_release server rel; pure e

-- On servers whose logs answer at once: where one session alone owns the lock and another session
-- asks for it with Acquire, in a mode in which it cannot have it, through a handle that is open at
-- the file's instance, the call sleeps; if the owner then calls Release while it sleeps, the file's
-- condition variable is notified, and the call, which is woken, returns 0, whatever the later
-- wake-ups. Its session is then the one owner, in the mode that it asked for, and the lock counts one
-- generation more; nothing else of the file, no other file and no session has changed.
pub acquire-releases :
    {s : State} {e owner : Entry} {key : Text} {file : File} (server other : Server)
    (req : LockAcqReq) (rel : RelAction) (later : List Sleep)
    → AtOnce server
    → AtOnce other
    → server.wake_ups ≡ releases other rel ∷ later
    → file.file_exists ≡ true
    → Handle s (to_int req.session_id) req.fh e key file
    → handle_inum e req.fh ≡ some file.instance_num
    → ¬ IsFree req.ex file.meta
    → Handle s (to_int rel.session_id) rel.fh owner key file
    → OnlyOwner (to_int rel.session_id) file.meta
    → (m : FileMetaData) × OnlyOwner e.id m
      × (m.is_locked_ex ≡ req.ex)
      × (m.lock_gen_num ≡ int_succ file.lock_gen_num)
      × (m.cv ≡ file.cv + 1)
      × (m.subscribers ≡ file.subscribers)
      × (m.file_exists ≡ file.file_exists)
      × (m.instance_num ≡ file.instance_num)
      × (m.content_gen_num ≡ file.content_gen_num)
      × (m.is_directory ≡ file.is_directory)
      × (m.is_ephemeral ≡ file.is_ephemeral)
      × (rpc_acquire server req s ≡ (
        ok (done (record { res = pos 0; msg = [] })),
        record s { ds = put s.ds key (record file { meta = m }) },
      ))
unfolding releases find_session
acquire-releases {s} {e} {key} {file} server other req rel later once once' woken there h at_inum
      held held_by only =
    let t : State = record s { ds = put s.ds key (let_go_of file) } in
    let now = get-put_self s.ds key (let_go_of file) in
    let (m, taken, r) =
      acquire_granted {t = t} {e' = e} {now = let_go_of file} server req once h (record {
        before = releases other rel ∷ [];
        after = later;
        in_turn = woken;
        slept = (
          (file, h.holds, held),
          t,
          e,
          rw (rpc_release-OnlyOwner rel held_by there only other once') refl,
          (refl, refl),
        );
        handle = record { live = h.live; names = h.names; holds = now };
        same_instance = at_inum;
        exists = there;
        free = inl refl;
      }) in
    (
      m,
      Taken-OnlyOwner e.id m refl taken,
      taken.mode,
      taken.generation,
      taken.cv_kept,
      taken.subscribed,
      taken.exists,
      taken.instance_kept,
      taken.content_kept,
      taken.kind_kept,
      taken.ephemeral_kept,
      r
          ∙ ap (λ ds. (ok (done (record { res = pos 0; msg = [] })), record s { ds = ds }))
              (put-put_self s.ds key (let_go_of file) (record file { meta = m })),
    )
