-- ===== src/StateMachine/Sessions/Answers.antt =====
-- The requests of StateMachine.cpp on a handle of a live session, and their faults.
use distributed_systems_chub.Prelude.{
  [], ℕ, ◌<◌, ◌≤◌, ◌≡◌, inl, inr, int_max, some, List, Text, ℤ, ℤ_eq, negsuc, minus_one, codes, pos,
  text_eq, length, to_int, Bool-cases, ap, contains,
}
use distributed_systems_chub.Exec.{Exec, ok}
use distributed_systems_chub.Store.{File}
use distributed_systems_chub.Session.{Entry, handle_inum}
use distributed_systems_chub.Session
use distributed_systems_chub.Action.{
  Action, AcqAction, RelAction, SetContentAction, Reply, response,
}
use distributed_systems_chub.Server.{initial}
use distributed_systems_chub.StateMachine.{run}
use distributed_systems_chub.StateMachine.State.{State, find_session}
use distributed_systems_chub.StateMachine.Locks.{acquire, release, released, acquired, not_acquired}
use distributed_systems_chub.StateMachine.Contents.{set_content, inum_mismatch, no_such_file}
use distributed_systems_chub.StateMachine.LockReplies.{
  Handle, acquire_outcome, release_lock_outcome,
}
use distributed_systems_chub.StateMachine.Writing.{set_content_outcome}
use distributed_systems_chub.StateMachine.Sessions.Resolved.{handles_resolve}

-- The action does not fault.
abbrev pub Answers : Exec State Reply → State → Type 0
Answers m s = (reply : Reply) × ((m s).0 ≡ ok reply)

acquire-Answers :
    {s : State} {e : Entry} {key : Text} {file : File} (a : AcqAction)
    → Handle s (to_int a.session_id) a.fh e key file
    → Answers (acquire a) s
acquire-Answers a h = elim (acquire_outcome a h) [
  | inl (_, _, _, r) ↦ (acquired, ap (λ x. x.0) r)
  | inr (_, r) ↦ (not_acquired, ap (λ x. x.0) r)
]

release-Answers :
    {s : State} {e : Entry} {key : Text} {file : File} (a : RelAction)
    → Handle s (to_int a.session_id) a.fh e key file
    → Answers (release a) s
unfolding release released find_session
release-Answers {s} {e} {key} {file} a h =
    elim (release_lock_outcome (to_int a.session_id) a.fh h) [
      | inl (_, r) ↦ (response (negsuc 1) (codes "file not found"), rw r)
      | inr (_, owners, _, r) ↦
          elim (Bool-cases (contains file.lock_owners (to_int a.session_id))) [
            | inl held ↦ (response (pos 0) [], rw (r, held))
            | inr free ↦
                (response minus_one (codes "the session does not hold this lock"), rw (r, free))
          ]
    ]

set_content-Answers :
    {s : State} {e : Entry} {key : Text} {file : File} {inum : ℤ} (a : SetContentAction)
    → Handle s (to_int a.session_id) a.fh e key file
    → handle_inum e a.fh ≡ some inum
    → Answers (set_content a) s
set_content-Answers {s} {e} {key} {file} {inum} a h numbered =
    elim (set_content_outcome a h numbered) [
      | inl (_, _, r) ↦ (response (pos 0) (codes "OK"), ap (λ x. x.0) r)
      | inr (inl (_, r)) ↦ (inum_mismatch, ap (λ x. x.0) r)
      | inr (inr (_, _, r)) ↦ (no_such_file, ap (λ x. x.0) r)
    ]

-- The requests to acquire, to release and to write through the handle, in whatever mode and with
-- whatever content.
pub record AllAnswer (s : State) (session_id : ℤ) (fh : ℕ) : Type 0 where
  pub acquires :
      (ex : ℤ) → Answers (acquire (record { session_id = session_id; fh = pos fh; ex = ex })) s
  pub releases : Answers (release (record { session_id = session_id; fh = pos fh })) s
  pub writes :
      (content : Text)
      → Answers (set_content (record { session_id = session_id; fh = pos fh; content = content })) s

-- After every log of at most 2 ^ 31 - 1 actions, a request to acquire or to release a lock or to write
-- a content, through a handle that a live session was given, is answered: it never meets a missing
-- path, a missing file or a failed assertion.
pub handle_requests-answer :
    (log : List Action) (session_id : ℤ) (fh : ℕ) (e : Entry)
    → length log ≤ int_max
    → Session.find_session (run log initial).sdb (to_int session_id) ≡ some e
    → fh < length e.v
    → AllAnswer (run log initial) session_id fh
handle_requests-answer log session_id fh e short live given =
    let (key, file, inum, h, numbered) =
      handles_resolve log (to_int session_id) fh e short live given in
    record {
      acquires = λ ex. acquire-Answers (record { session_id = session_id; fh = pos fh; ex = ex }) h;
      releases = release-Answers (record { session_id = session_id; fh = pos fh }) h;
      writes = λ content.
          set_content-Answers (record { session_id = session_id; fh = pos fh; content = content }) h
            numbered;
    }
