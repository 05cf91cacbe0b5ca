-- ===== src/Skinny/AtOnce.antt =====
-- A server whose log answers at once: the action is applied before anything else happens, and no
-- other thread changes the state while a handler waits. The calls over it, against what the state
-- machine does.
use distributed_systems_chub.Prelude.{◌≡◌, true, false, List, none, ℤ, ℤ_eq, pos, ltb_ℤ, arith}
use distributed_systems_chub.Exec.{Exec, ok}
use distributed_systems_chub.Action.{Action, Reply}
use distributed_systems_chub.StateMachine
use distributed_systems_chub.StateMachine.State.{State, find_session}
use distributed_systems_chub.Skinny.{
  Server, CmdResult, Answer, append, unless_refused, parse_raft_result, reply_res,
}

abbrev pub success : Server → Reply → CmdResult
success server reply = record { accepted = true; result_code = server.ok_code; reply = reply }

pub record AtOnce (server : Server) : Type 0 where
  pub applies :
      (a : Action) (s t : State) (reply : Reply)
      → StateMachine.apply a s ≡ (ok reply, t)
      → server.append_entries a s ≡ (ok (success server reply), t)
  pub quiet : (ws : List (ℤ × ℤ)) (s : State) → server.join ws s ≡ (ok tt, s)

pub parse_raft_result-success :
    (server : Server) (reply : Reply)
    → ltb_ℤ (reply_res reply) (pos 0) ≡ false
    → parse_raft_result server (success server reply) ≡ none
unfolding parse_raft_result
parse_raft_result-success server reply h = ground (arith, h)

-- The handler goes on in the state that the action leaves.
pub append-AtOnce :
    {A : Type 0} (server : Server) (a : Action) (after : Reply → Exec State (Answer A))
    (s t : State) (reply : Reply)
    → AtOnce server
    → StateMachine.apply a s ≡ (ok reply, t)
    → ltb_ℤ (reply_res reply) (pos 0) ≡ false
    → append server a after s ≡ after reply t
unfolding append unless_refused find_session
append-AtOnce server a after s t reply h ran good =
    rw (h.applies a s t reply ran, parse_raft_result-success server reply good)
