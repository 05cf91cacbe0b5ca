-- ===== src/StateMachine/Writing.antt =====
-- What the handler that writes a content answers and changes, on every branch.
use distributed_systems_chub.Prelude.{
  inr, inl, ◌≡◌, ◌≢◌, ◌⊎◌, Text, ℤ, ℤ_eq, text_eq, pos, codes, true, false, to_int, arith, some,
}
use distributed_systems_chub.Exec.{ok}
use distributed_systems_chub.Dict.{put}
use distributed_systems_chub.Store.{File}
use distributed_systems_chub.Session.{Entry, handle_inum}
use distributed_systems_chub.Action.{SetContentAction, response}
use distributed_systems_chub.StateMachine.State.{State, find_session}
use distributed_systems_chub.StateMachine.Contents.{
  set_content, set_content_session, inum_mismatch, no_such_file,
}
use distributed_systems_chub.StateMachine.LockReplies.{Handle}

-- The answers to a write, and what they go with.
abbrev pub WriteOutcome : SetContentAction → State → Text → File → ℤ → Type 0
WriteOutcome a s key file inum =
    ((inum ≡ file.instance_num)
      × (file.file_exists ≡ true)
      × (set_content a s ≡ (
        ok (response (pos 0) (codes "OK")),
        record s { ds = put s.ds key (record file { content = a.content }) },
      )))
    ⊎ ((inum ≢ file.instance_num) × (set_content a s ≡ (ok inum_mismatch, s)))
    ⊎ ((inum ≡ file.instance_num)
        × (file.file_exists ≡ false)
        × (set_content a s ≡ (ok no_such_file, s)))

-- Through a handle of a live session the content is replaced, and nothing else, exactly when the
-- handle was opened at the file's instance and the file exists; otherwise nothing changes and the
-- reply says which of the two failed.
pub set_content_outcome :
    {s : State} {e : Entry} {key : Text} {file : File} {inum : ℤ} (a : SetContentAction)
    → Handle s (to_int a.session_id) a.fh e key file
    → handle_inum e a.fh ≡ some inum
    → WriteOutcome a s key file inum
unfolding set_content find_session
set_content_outcome {s} {e} {key} {file} {inum} a h at_inum =
    rw (h.live, set_content_session, h.names, h.holds, at_inum) (ground arith)

-- A handle of another instance is refused.
pub set_content-refused :
    {s : State} {e : Entry} {key : Text} {file : File} {inum : ℤ} (a : SetContentAction)
    → Handle s (to_int a.session_id) a.fh e key file
    → handle_inum e a.fh ≡ some inum
    → inum ≢ file.instance_num
    → set_content a s ≡ (ok inum_mismatch, s)
set_content-refused a h at_inum old = elim (set_content_outcome a h at_inum) [
  | inl (e, _, _) ↦ absurd (old e)
  | inr (inl (_, r)) ↦ r
  | inr (inr (e, _, _)) ↦ absurd (old e)
]
