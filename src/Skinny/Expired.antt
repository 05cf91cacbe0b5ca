-- ===== src/Skinny/Expired.antt =====
-- server.cpp, the callback for an expired session, against EndSession of SkinnyImpl.cpp.
use distributed_systems_chub.Prelude.{
  Bool, ap, Option, none, some, ◌≡◌, ◌∙◌, refl, inl, inr, true, Bool-cases, ℤ, ℤ_eq, pos, ◌==◌,
  eq_true, if◌then◌else◌, sym,
}
use distributed_systems_chub.Exec.{
  library_error, Exec, Result, ok, fault, continue, pure, lift, ◌>>=◌,
}
use distributed_systems_chub.Action.{
  Reply, response, open_return, start_session_return, close_return, end_session_return,
  end_session_action,
}
use distributed_systems_chub.StateMachine.{apply}
use distributed_systems_chub.StateMachine.Close.{end_session}
use distributed_systems_chub.StateMachine.State.{State, find_session}
use distributed_systems_chub.Skinny.{
  Server, done, Status, append, unless_refused, parse_raft_result, reply_res,
}
use distributed_systems_chub.Skinny.Notify.{notify_each}
use distributed_systems_chub.Server.Events.{notify_files, notify_files-notify_each}
use distributed_systems_chub.Skinny.Sessions.{expired, rpc_end_session, ended, reply_paths}
use distributed_systems_chub.Skinny.AtOnce.{AtOnce, success, parse_raft_result-success}

continue-pure :
    {A B : Type 0} (r : Result A) (b : B) (s : State) → (continue r (λ a. pure b) s).1 ≡ s
unfolding pure
continue-pure (ok a) b s = refl
continue-pure (fault e) b s = refl

-- What the callback does with a reply.
abbrev on_reply : Server → Reply → Exec State (Unit {0})
on_reply server reply =
    if reply_res reply == pos 0 then lift (reply_paths reply) >>= notify_files server else pure tt

-- The callback on the leader.
abbrev on_leader : Server → ℤ → Exec State (Unit {0})
on_leader server sid =
    server.append_entries (end_session_action (record { session_id = sid })) >>= λ r.
    if r.result_code == server.ok_code then on_reply server r.reply else pure tt

-- A reply that is not the buffer of paths changes nothing, on either side.
callback_idle :
    (server : Server) (reply : Reply) (t : State)
    → reply_paths reply ≡ fault library_error
    → (on_reply server reply t).1 ≡ t
unfolding find_session pure lift ◌>>=◌
callback_idle server reply t other = elim (Bool-cases (reply_res reply == pos 0)) [
  | inl zero ↦ rw (zero, other) refl
  | inr bad ↦ rw bad refl
]

call_idle :
    (server : Server) (reply : Reply) (t : State) (o : Option Status)
    → reply_paths reply ≡ fault library_error
    → (unless_refused reply (ended server) o t).1 ≡ t
unfolding unless_refused ended find_session
call_idle server reply t (some status) other = refl
call_idle server reply t none other = rw other refl

-- The state that the call leaves after the reply.
abbrev called : Server → Reply → State → State
called server reply t =
    (unless_refused reply (ended server) (parse_raft_result server (success server reply)) t).1

both_idle :
    (server : Server) (reply : Reply) (t : State)
    → reply_paths reply ≡ fault library_error
    → (on_reply server reply t).1 ≡ called server reply t
both_idle server reply t other =
    callback_idle server reply t other ∙ sym (call_idle server reply t _ other)

same_end :
    (server : Server) (reply : Reply) (t : State)
    → (on_reply server reply t).1 ≡ called server reply t
unfolding reply_res reply_paths unless_refused ended find_session ℤ_eq
same_end server (response res msg) t = both_idle server _ t refl
same_end server (open_return res msg fh) t = both_idle server _ t refl
same_end server (start_session_return res msg id) t = both_idle server _ t refl
same_end server (close_return res msg need_notify parent) t = both_idle server _ t refl
same_end server (end_session_return size paths) t =
    rw
      (
        notify_files-notify_each server paths,
        called,
        parse_raft_result-success server (end_session_return size paths) refl,
      )
      (sym (continue-pure (notify_each server paths t).0 (done tt) (notify_each server paths t).1))

-- On a leader whose log answers at once, the end of a session that has expired leaves the same state as
-- the client's own EndSession would, if the state machine replies to it, whatever the reply is.
pub expired-ends :
    (server : Server) (sid : ℤ) (s t : State) (reply : Reply)
    → AtOnce server
    → server.is_leader ≡ true
    → end_session (record { session_id = sid }) s ≡ (ok reply, t)
    → (expired server sid s).1 ≡ (rpc_end_session server (record { session_id = sid }) s).1
unfolding expired rpc_end_session append apply find_session
expired-ends server sid s t reply once leader ran =
    ap (λ (b : Bool). ((if b then on_leader server sid else pure tt) s).1) leader
    ∙ rw
        (
          once.applies (end_session_action (record { session_id = sid })) s t reply ran,
          eq_true {a = server.ok_code} refl,
        )
        (same_end server reply t)
