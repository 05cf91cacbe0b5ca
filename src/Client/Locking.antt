-- ===== src/Client/Locking.antt =====
-- A client's lock, through clientlib.cpp, SkinnyImpl.cpp and StateMachine.cpp.
use distributed_systems_chub.Prelude.{
  ◌≡◌, ◌⊎◌, inl, inr, refl, true, false, Bool, some, [], ◌∷◌, Text, text_eq, ℤ, ℤ_eq, to_int,
}
use distributed_systems_chub.Exec.{ok}
use distributed_systems_chub.Dict.{put}
use distributed_systems_chub.Store.{File, FileMetaData}
use distributed_systems_chub.Session.{Entry, handle_inum}
use distributed_systems_chub.StateMachine.State.{State}
use distributed_systems_chub.StateMachine.LockReplies.{Handle, IsFree, Taken}
use distributed_systems_chub.Skinny.{Server, done}
use distributed_systems_chub.Skinny.Locks.{rpc_try_acquire, Response}
use distributed_systems_chub.Skinny.AtOnce.{AtOnce}
use distributed_systems_chub.Skinny.TryLock.{try_acquire_outcome}
use distributed_systems_chub.Client.{Client, invoke_rpc}
use distributed_systems_chub.Client.Calls.{client_acquire, lock_request}

-- The lock can be had through a handle with the instance number.
abbrev pub CanTake : Bool → ℤ → File → Type 0
CanTake ex inum file = (inum ≡ file.instance_num) × (file.file_exists ≡ true) × IsFree ex file.meta

-- What the client's call gives, and the server's state after it.
abbrev pub LockOutcome : Server → Client → ℤ → Bool → State → Entry → Text → File → ℤ → Type 0
LockOutcome server c fh ex s e key file inum =
    (answer : Response) × (t : State) × (rpc_try_acquire server (lock_request c fh ex) s
      ≡ (ok (done answer), t))
    × (((client_acquire (done answer ∷ []) c ≡ some (ok true, c))
          × CanTake ex inum file
          × (m : FileMetaData) × Taken ex e.id file.meta m
          × (t ≡ record s { ds = put s.ds key (record file { meta = m }) }))
        ⊎ ((client_acquire (done answer ∷ []) c ≡ some (ok false, c))
            × (¬ CanTake ex inum file)
            × (t ≡ s)))

-- The client's TryAcquire, through a handle of its live session, on a server whose log answers at
-- once: it returns true exactly when the handle was opened at the file's instance, the file exists and
-- the lock is free for the mode that is asked for; then the session has the lock in that mode, and
-- otherwise nothing has changed.
pub client_acquire_outcome :
    {s : State} {e : Entry} {key : Text} {file : File} {inum : ℤ} (server : Server) (c : Client)
    (fh : ℤ) (ex : Bool)
    → AtOnce server
    → Handle s (to_int c.session_id) fh e key file
    → handle_inum e fh ≡ some inum
    → LockOutcome server c fh ex s e key file inum
unfolding client_acquire lock_request invoke_rpc ℤ_eq
client_acquire_outcome {s} server c fh ex once h at_inum =
    elim (try_acquire_outcome server (lock_request c fh ex) once h at_inum) [
      | inl (n, r) ↦ (_, s, r, inr (refl, λ (q, _, _). n q, refl))
      | inr (inl (_, gone, r)) ↦ (_, s, r, inr (refl, λ (_, there, _). cc, refl))
      | inr (inr (inl (same, there, free, m, taken, r))) ↦
          (_, _, r, inl (refl, (same, there, free), m, taken, refl))
      | inr (inr (inr (_, _, held, r))) ↦ (_, s, r, inr (refl, λ (_, _, free). held free, refl))
    ]
