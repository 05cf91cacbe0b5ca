-- ===== src/Skinny/LockRelated.antt =====
-- SkinnyImpl.cpp: the status LOCK_RELATED of the lock calls.
use distributed_systems_chub.Prelude.{
  [], text_eq, ap, ◌⊎◌, ◌≢◌, ◌≡◌, Bool, true, false, Bool-cases, inl, inr, Option, none, some, ℤ,
  ℤ_eq, pos, minus_one, ltb_ℤ, arith, ◌==◌, ◌&&◌,
}
use distributed_systems_chub.Decimal.{to_string}
use distributed_systems_chub.Exec.{continue, some_or, Fault, Exec, Result, ok, fault}
use distributed_systems_chub.Dict.{get}
use distributed_systems_chub.Store.{File}
use distributed_systems_chub.Session.{Entry, fh_to_key, handle_inum}
use distributed_systems_chub.Action.{Action, RelAction, Reply}
use distributed_systems_chub.StateMachine.State.{State, find_session}
use distributed_systems_chub.Skinny.{
  reply_msg, aborted, not_leader, Status, Server, CmdResult, Answer, done, refused, append,
  unless_refused, parse_raft_result, lock_related, reply_res,
}
use distributed_systems_chub.Skinny.Locks.{
  Response, LockAcqReq, rpc_try_acquire, try_session, tried, guarded, rpc_release, release_found,
  let_go,
}

-- The answer is no status with the code LOCK_RELATED.
abbrev pub IsOtherCode : {A : Type 0} → Result (Answer A) → Type 0
IsOtherCode (ok (refused status)) = status.code ≢ lock_related
IsOtherCode (ok (done a)) = Unit
IsOtherCode (fault e) = Unit

aborted-lock_related : aborted ≢ lock_related
aborted-lock_related e = cc

not_leader-lock_related : not_leader ≢ lock_related
not_leader-lock_related e = cc

-- A good result has a reply that is no failure, and a bad one another code.
pub parse_raft_result-cases :
    (server : Server) (r : CmdResult)
    → ((parse_raft_result server r ≡ none) × (ltb_ℤ (reply_res r.reply) (pos 0) ≡ false))
      ⊎ ((status : Status) × (parse_raft_result server r ≡ some status)
          × (status.code ≢ lock_related))
unfolding parse_raft_result
parse_raft_result-cases server r =
    elim (Bool-cases (r.accepted && r.result_code == server.ok_code)) [
      | inl fine ↦ elim (Bool-cases (ltb_ℤ (reply_res r.reply) (pos 0))) [
        | inl bad ↦ inr (
          record { code = aborted; message = reply_msg r.reply },
          rw (fine, bad),
          aborted-lock_related,
        )
        | inr good ↦ inl (rw (fine, good), good)
      ]
      | inr failed ↦ elim (Bool-cases (r.result_code == server.not_leader_code)) [
        | inl follower ↦ inr (
          record { code = not_leader; message = to_string server.get_leader },
          rw (failed, follower),
          not_leader-lock_related,
        )
        | inr other ↦
            inr (record { code = aborted; message = [] }, rw (failed, other), aborted-lock_related)
      ]
    ]

-- The code that follows the reading of a result runs on a reply that is no failure.
unless_refused-IsOtherCode :
    {A : Type 0} (server : Server) (r : CmdResult) (after : Reply → Exec State (Answer A))
    (s : State)
    → (ltb_ℤ (reply_res r.reply) (pos 0) ≡ false → IsOtherCode (after r.reply s).0)
    → IsOtherCode (unless_refused r.reply after (parse_raft_result server r) s).0
unfolding unless_refused find_session
unless_refused-IsOtherCode server r after s h = elim (parse_raft_result-cases server r) [
  | inl (e, good) ↦ rw e (h good)
  | inr (status, e, other) ↦ rw e other
]

continue-IsOtherCode :
    {A : Type 0} (o : Result CmdResult) (f : CmdResult → Exec State (Answer A)) (t : State)
    → ((r : CmdResult) → IsOtherCode (f r t).0)
    → IsOtherCode (continue o f t).0
continue-IsOtherCode (ok r) f t h = h r
continue-IsOtherCode (fault e) f t h = tt

append-IsOtherCode :
    {A : Type 0} (server : Server) (a : Action) (after : Reply → Exec State (Answer A)) (s : State)
    → ((reply : Reply) (t : State)
        → ltb_ℤ (reply_res reply) (pos 0) ≡ false
        → IsOtherCode (after reply t).0)
    → IsOtherCode (append server a after s).0
unfolding append find_session
append-IsOtherCode server a after s h =
    continue-IsOtherCode (server.append_entries a s).0 _ (server.append_entries a s).1 (λ r.
      unless_refused-IsOtherCode server r after (server.append_entries a s).1
        (h r.reply (server.append_entries a s).1))

no_confusion : {b : Bool} → b ≡ true → b ≡ false → ⊥
no_confusion p q = cc

tried-IsOtherCode :
    (reply : Reply) (t : State)
    → ltb_ℤ (reply_res reply) (pos 0) ≡ false
    → IsOtherCode (tried reply t).0
unfolding tried find_session
tried-IsOtherCode reply t good = elim (ℤ_eq.dec (reply_res reply) minus_one) [
  | yes e ↦ absurd (no_confusion (ap (λ r. ltb_ℤ r (pos 0)) e) good)
  | no n ↦ ground arith
]

let_go-IsOtherCode :
    (reply : Reply) (t : State)
    → ltb_ℤ (reply_res reply) (pos 0) ≡ false
    → IsOtherCode (let_go reply t).0
unfolding let_go find_session
let_go-IsOtherCode reply t good = rw good tt

guarded-IsOtherCode :
    (inum : ℤ) (file : File) (act : Exec State (Answer Response)) (s : State)
    → IsOtherCode (act s).0
    → IsOtherCode (guarded inum file act s).0
unfolding guarded find_session
guarded-IsOtherCode inum file act s h = elim (Bool-cases (inum == file.instance_num)) [
  | inl same ↦ elim (Bool-cases file.file_exists) [
    | inl there ↦ rw (same, there) h
    | inr gone ↦ rw (same, gone) tt
  ]
  | inr other ↦ rw other tt
]

-- A step that reads, before the rest.
read-IsOtherCode :
    {A B : Type 0} (o : Option B) (e : Fault) (f : B → Exec State (Answer A)) (s : State)
    → ((b : B) → IsOtherCode (f b s).0)
    → IsOtherCode (continue (some_or e o) f s).0
read-IsOtherCode none e f s h = tt
read-IsOtherCode (some b) e f s h = h b

try_session-IsOtherCode :
    (server : Server) (req : LockAcqReq) (e : Option Entry) (s : State)
    → IsOtherCode (try_session server req e s).0
unfolding try_session find_session
try_session-IsOtherCode server req none s = λ e. cc
try_session-IsOtherCode server req (some e) s = read-IsOtherCode (fh_to_key e req.fh) _ _ s (λ key.
    read-IsOtherCode (get s.ds key) _ _ s (λ file.
      read-IsOtherCode (handle_inum e req.fh) _ _ s (λ inum.
        guarded-IsOtherCode inum file _ s (append-IsOtherCode server _ tried s tried-IsOtherCode))))

release_found-IsOtherCode :
    (server : Server) (req : RelAction) (e : Option Entry) (s : State)
    → IsOtherCode (release_found server req e s).0
unfolding release_found find_session
release_found-IsOtherCode server req none s = λ e. cc
release_found-IsOtherCode server req (some e) s =
    read-IsOtherCode (fh_to_key e req.fh) _ _ s (λ key.
      read-IsOtherCode (get s.ds key) _ _ s
        (λ file. append-IsOtherCode server _ let_go s let_go-IsOtherCode))

-- Neither TryAcquire nor Release ever answers with the code LOCK_RELATED, on any server and in any
-- state: a reply that fails is turned into ABORTED before the handler looks at it.
pub never_lock_related :
    (server : Server) (s : State)
    → ((req : LockAcqReq) → IsOtherCode (rpc_try_acquire server req s).0)
      × ((req : RelAction) → IsOtherCode (rpc_release server req s).0)
unfolding rpc_try_acquire rpc_release find_session
never_lock_related server s =
    (λ req. try_session-IsOtherCode server req _ s, λ req. release_found-IsOtherCode server req _ s)
