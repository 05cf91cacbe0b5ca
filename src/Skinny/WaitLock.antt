-- ===== src/Skinny/WaitLock.antt =====
-- SkinnyImpl.cpp, Acquire, over a log that answers at once: the wait, whatever the other threads do
-- while the call sleeps, and the assertion after it.
use distributed_systems_chub.Prelude.{
  ◌∙◌, ap, arith, ◌≡◌, refl, Bool, true, false, inl, inr, some, List, [], ◌∷◌, ◌++◌, Text, text_eq,
  ℤ, ℤ_eq, pos, to_int, is_empty, eq_true, Bool-cases,
}
use distributed_systems_chub.Exec.{Exec, ok, fault, waiting}
use distributed_systems_chub.Dict.{get, put}
use distributed_systems_chub.Store.{File, FileMetaData}
use distributed_systems_chub.Action.{acq_action}
use distributed_systems_chub.Session.{Entry, handle_inum}
use distributed_systems_chub.StateMachine.{apply}
use distributed_systems_chub.StateMachine.State.{State, find_session}
use distributed_systems_chub.StateMachine.Locks.{acquired}
use distributed_systems_chub.StateMachine.LockReplies.{Handle, IsFree, Taken, acquire_outcome}
use distributed_systems_chub.Skinny.{Server, done, append, reply_res, reply_msg}
use distributed_systems_chub.Skinny.Locks.{
  LockAcqReq, rpc_acquire, acquire_found, had, guarded, to_acq_action, may_take, cv_wait,
}
use distributed_systems_chub.Skinny.AtOnce.{AtOnce, append-AtOnce}
use distributed_systems_chub.Skinny.TryLock.{to_bool-of_bool}

-- What happens during one sleep, as a thread that waits sees it.
abbrev pub Sleep : Type 0
Sleep = Entry → Exec State Entry

-- The lock at the path is held against the mode.
abbrev pub IsHeld : Bool → Text → State → Type 0
IsHeld ex key s = (file : File) × (get s.ds key ≡ some file) × (¬ IsFree ex file.meta)

-- All of the sleeps pass, from the state `s` to the state `t`, each of them begun with the lock held.
abbrev pub Slept : List Sleep → Text → Bool → State → Entry → State → Entry → Type 0
Slept [] key ex s e t e' = (s ≡ t) × (e ≡ e')
Slept (sleep ∷ sleeps) key ex s e t e' =
    IsHeld ex key s
    × (u : State) × (woken : Entry) × (sleep e s ≡ (ok woken, u))
    × Slept sleeps key ex u woken t e'

owners-cases : (owners : List ℤ) → is_empty owners ≡ true → owners ≡ []
owners-cases [] h = refl
owners-cases (x ∷ owners) h = cc

may_take-IsFree : (ex : Bool) (m : FileMetaData) → IsFree ex m → may_take ex m ≡ true
unfolding may_take
may_take-IsFree true m (inl none) = rw none
may_take-IsFree true m (inr (shared, _)) = cc
may_take-IsFree false m (inl none) = rw none
may_take-IsFree false m (inr (_, shared)) = ground arith

may_take-IsHeld : (ex : Bool) (m : FileMetaData) → ¬ IsFree ex m → may_take ex m ≡ false
unfolding may_take
may_take-IsHeld true m held = elim (Bool-cases (is_empty m.lock_owners)) [
  | inl e ↦ absurd (held (inl (owners-cases _ e)))
  | inr e ↦ e
]
may_take-IsHeld false m held = elim (Bool-cases (is_empty m.lock_owners)) [
  | inl e ↦ absurd (held (inl (owners-cases _ e)))
  | inr e ↦ elim (Bool-cases m.is_locked_ex) [
    | inl locked ↦ rw (e, locked) refl
    | inr shared ↦ absurd (held (inr (refl, shared)))
  ]
]

-- The wait ends at the first test at which the lock is free.
pub cv_wait-ends :
    {t : State} {e' : Entry} {now : File} (before after : List Sleep) (key : Text) (ex : Bool)
    (s : State) (e : Entry)
    → Slept before key ex s e t e'
    → get t.ds key ≡ some now
    → IsFree ex now.meta
    → cv_wait (before ++ after) key ex e s ≡ (ok e', t)
unfolding cv_wait find_session
cv_wait-ends {now} [] [] key ex s e (p, q) holds free =
    rw (p, q, holds, may_take-IsFree ex now.meta free) refl
cv_wait-ends {now} [] (sleep ∷ after) key ex s e (p, q) holds free =
    rw (p, q, holds, may_take-IsFree ex now.meta free) refl
cv_wait-ends (sleep ∷ before) after key ex s e ((file, at, held), u, woken, ran, slept) holds free =
    rw (at, may_take-IsHeld ex file.meta held, ran)
      (cv_wait-ends before after key ex u woken slept holds free)

-- It does not end while the lock is held.
cv_wait-waits :
    {t : State} (sleeps : List Sleep) (key : Text) (ex : Bool) (s : State) (e e' : Entry)
    → Slept sleeps key ex s e t e'
    → IsHeld ex key t
    → cv_wait sleeps key ex e s ≡ (fault waiting, t)
unfolding cv_wait find_session
cv_wait-waits [] key ex s e e' (p, q) (now, holds, held) =
    rw (p, holds, may_take-IsHeld ex now.meta held) refl
cv_wait-waits (sleep ∷ sleeps) key ex s e e' ((file, at, held), u, woken, ran, slept) last =
    rw (at, may_take-IsHeld ex file.meta held, ran)
      (cv_wait-waits sleeps key ex u woken e' slept last)

-- What the wait comes to, in the state `t` in which the sleeps `before` end: the session's handle
-- still names the file `now`, at its instance, which exists and whose lock is free for the mode that
-- is asked for.
pub record Waited (server : Server) (req : LockAcqReq) (s t : State) (e e' : Entry) (key : Text)
    (now : File) : Type 0 where
  pub before : List Sleep
  pub after : List Sleep
  pub in_turn : server.wake_ups ≡ before ++ after
  pub slept : Slept before key req.ex s e t e'
  pub handle : Handle t (to_int req.session_id) req.fh e' key now
  pub same_instance : handle_inum e' req.fh ≡ some now.instance_num
  pub exists : now.file_exists ≡ true
  pub free : IsFree req.ex now.meta

granted :
    {t : State} {e : Entry} {key : Text} {now : File} (server : Server) (req : LockAcqReq)
    → AtOnce server
    → Handle t (to_int req.session_id) req.fh e key now
    → IsFree req.ex now.meta
    → (m : FileMetaData) × Taken req.ex e.id now.meta m
      × (append server (acq_action (to_acq_action req)) had t ≡ (
        ok (done (record { res = pos 0; msg = [] })),
        record t { ds = put t.ds key (record now { meta = m }) },
      ))
unfolding apply had find_session reply_res reply_msg ℤ_eq
granted {t} server req once h free =
    elim (rw (to_bool-of_bool req.ex) at (acquire_outcome (to_acq_action req) h)) [
      | inl (_, m, taken, r) ↦ (m, taken, append-AtOnce server _ had t _ acquired once r refl)
      | inr (held, _) ↦ absurd (held free)
    ]

cv_wait_lem :
    {s t : State} {e' : Entry} {key : Text} {now : File} (server : Server) (req : LockAcqReq)
    (e : Entry)
    → Waited server req s t e e' key now
    → cv_wait server.wake_ups key req.ex e s ≡ (ok e', t)
cv_wait_lem {s} {key} server req e w =
    ap (λ sleeps. cv_wait sleeps key req.ex e s) w.in_turn
    ∙ cv_wait-ends w.before w.after key req.ex s e w.slept w.handle.holds w.free

-- On a server whose log answers at once, through a handle of a live session, Acquire sleeps as long
-- as the lock is held against the mode that it asks for; at the first test at which it is free it
-- gives the lock to the session in that mode, and its assertion holds, if the handle is still good.
pub acquire_granted :
    {s t : State} {e e' : Entry} {key : Text} {file now : File} (server : Server) (req : LockAcqReq)
    → AtOnce server
    → Handle s (to_int req.session_id) req.fh e key file
    → Waited server req s t e e' key now
    → (m : FileMetaData) × Taken req.ex e'.id now.meta m
      × (rpc_acquire server req s ≡ (
        ok (done (record { res = pos 0; msg = [] })),
        record t { ds = put t.ds key (record now { meta = m }) },
      ))
unfolding rpc_acquire guarded find_session
acquire_granted {s} {e} {key} {now} server req once h w =
    let (m, taken, r) = granted server req once w.handle w.free in
    let ended = cv_wait_lem server req e w in
    (
      m,
      taken,
      rw
          (
            h.live,
            acquire_found,
            h.names,
            h.holds,
            ended,
            w.handle.holds,
            w.same_instance,
            eq_true {a = now.instance_num} refl,
            w.exists,
          )
          r,
    )

-- Acquire does not return while the lock is held against it: whatever the other threads do, if it
-- is held at every test then the call still waits, and has appended nothing to the log.
pub acquire_waits :
    {s t : State} {e : Entry} {key : Text} {file : File} (server : Server) (req : LockAcqReq)
    (e' : Entry)
    → Handle s (to_int req.session_id) req.fh e key file
    → Slept server.wake_ups key req.ex s e t e'
    → IsHeld req.ex key t
    → rpc_acquire server req s ≡ (fault waiting, t)
unfolding rpc_acquire find_session
acquire_waits {s} {e} {key} server req e' h slept held =
    rw
      (
        h.live,
        acquire_found,
        h.names,
        h.holds,
        cv_wait-waits server.wake_ups key req.ex s e e' slept held,
      )
      refl
