-- ===== src/Skinny/TryLock.antt =====
-- SkinnyImpl.cpp, TryAcquire, over a log that answers at once.
use distributed_systems_chub.Prelude.{
  eq_true, eq_false, ◌∙◌, ◌≡◌, ◌≢◌, ◌⊎◌, inl, inr, refl, true, false, Bool, Bool-cases, some, Text,
  text_eq, ℤ, ℤ_eq, pos, to_int, to_bool, [], codes,
}
use distributed_systems_chub.Exec.{ok}
use distributed_systems_chub.Dict.{put}
use distributed_systems_chub.Store.{File, FileMetaData}
use distributed_systems_chub.Action.{acq_action}
use distributed_systems_chub.Session.{Entry, handle_inum}
use distributed_systems_chub.StateMachine.{apply}
use distributed_systems_chub.StateMachine.State.{State, find_session}
use distributed_systems_chub.StateMachine.Locks.{acquired, not_acquired}
use distributed_systems_chub.StateMachine.LockReplies.{Handle, IsFree, Taken, acquire_outcome}
use distributed_systems_chub.Skinny.{reply_res, reply_msg, Server, done, append}
use distributed_systems_chub.Skinny.Files.{of_bool}
use distributed_systems_chub.Skinny.Locks.{
  LockAcqReq, rpc_try_acquire, try_session, tried, guarded, to_acq_action, mismatch, missing,
}
use distributed_systems_chub.Skinny.AtOnce.{AtOnce, append-AtOnce}

-- What TryAcquire answers, and what it goes with.
abbrev pub TryOutcome : Server → LockAcqReq → State → Entry → Text → File → ℤ → Type 0
TryOutcome server req s e key file inum =
    ((inum ≢ file.instance_num) × (rpc_try_acquire server req s ≡ (ok (done mismatch), s)))
    ⊎ ((inum ≡ file.instance_num)
        × (file.file_exists ≡ false)
        × (rpc_try_acquire server req s ≡ (ok (done missing), s)))
    ⊎ ((inum ≡ file.instance_num)
        × (file.file_exists ≡ true)
        × IsFree req.ex file.meta
        × (m : FileMetaData) × Taken req.ex e.id file.meta m
        × (rpc_try_acquire server req s ≡ (
          ok (done (record { res = pos 0; msg = [] })),
          record s { ds = put s.ds key (record file { meta = m }) },
        )))
    ⊎ ((inum ≡ file.instance_num)
        × (file.file_exists ≡ true)
        × (¬ IsFree req.ex file.meta)
        × (rpc_try_acquire server req s
            ≡ (ok (done (record { res = pos 1; msg = codes "fail to acquire" })), s)))

try_acquire-at :
    {s : State} {e : Entry} {key : Text} {file : File} {inum : ℤ} (server : Server)
    (req : LockAcqReq)
    → Handle s (to_int req.session_id) req.fh e key file
    → handle_inum e req.fh ≡ some inum
    → rpc_try_acquire server req s
      ≡ guarded inum file (append server (acq_action (to_acq_action req)) tried) s
unfolding rpc_try_acquire find_session
try_acquire-at server req h at_inum = rw (h.live, try_session, h.names, h.holds, at_inum)

pub to_bool-of_bool : (b : Bool) → to_bool (of_bool b) ≡ b
to_bool-of_bool true = refl
to_bool-of_bool false = refl

module _ {s : State} {e : Entry} {key : Text} {file : File} (server : Server) (req : LockAcqReq)
    (once : AtOnce server) (h : Handle s (to_int req.session_id) req.fh e key file) where
  -- The lock is asked for, with its two answers.
  asked :
      (IsFree req.ex file.meta
        × (m : FileMetaData) × Taken req.ex e.id file.meta m
        × (append server (acq_action (to_acq_action req)) tried s ≡ (
          ok (done (record { res = pos 0; msg = [] })),
          record s { ds = put s.ds key (record file { meta = m }) },
        )))
      ⊎ ((¬ IsFree req.ex file.meta)
          × (append server (acq_action (to_acq_action req)) tried s
              ≡ (ok (done (record { res = pos 1; msg = codes "fail to acquire" })), s)))
  unfolding apply tried find_session reply_res reply_msg ℤ_eq
  asked = elim (rw (to_bool-of_bool req.ex) at (acquire_outcome (to_acq_action req) h)) [
    | inl (free, m, taken, r) ↦
        inl (free, m, taken, append-AtOnce server _ tried s _ acquired once r refl)
    | inr (held, r) ↦ inr (held, append-AtOnce server _ tried s s not_acquired once r refl)
  ]

  -- Through a handle of a live session, on a server whose log answers at once: the call takes the
  -- lock, in the mode asked for, exactly when the handle was opened at the file's instance, the file
  -- exists and the lock is free for that mode; otherwise nothing changes and the answer says which
  -- of the three failed.
  pub try_acquire_outcome :
      {inum : ℤ} → handle_inum e req.fh ≡ some inum → TryOutcome server req s e key file inum
  unfolding guarded find_session
  try_acquire_outcome {inum} at_inum = elim (ℤ_eq.dec inum file.instance_num) [
    | no n ↦ inl (n, try_acquire-at server req h at_inum ∙ rw (eq_false n))
    | yes p ↦ elim (Bool-cases file.file_exists) [
      | inr gone ↦ inr (inl (p, gone, try_acquire-at server req h at_inum ∙ rw (eq_true p, gone)))
      | inl there ↦ elim asked [
        | inl (free, m, taken, r) ↦ inr (
            inr (
              inl (
                p,
                there,
                free,
                m,
                taken,
                try_acquire-at server req h at_inum ∙ rw (eq_true p, there) r,
              )))
        | inr (held, r) ↦ inr (
            inr
              (inr (p, there, held, try_acquire-at server req h at_inum ∙ rw (eq_true p, there) r)))
      ]
    ]
  ]
