-- ===== src/Tests/Election.antt =====
-- The theorem on the election of a primary, at two contenders that have the same file open.
use distributed_systems_chub.Prelude.{
  ℕ, ◌≡◌, refl, true, false, Option, List, [], ◌∷◌, codes, pos, ℤ, ℤ_eq, text_eq, ℕ_eq, Text,
}
use distributed_systems_chub.Exec.{Result, ok}
use distributed_systems_chub.StateMachine.State.{State}
use distributed_systems_chub.Client.Calls.{cached}
use distributed_systems_chub.Client.Remote.{get_content, try_acquire, set_content}
use distributed_systems_chub.Client.{invoke_rpc}
use distributed_systems_chub.Client.Calls.{
  asserted, client_get_content, lock_request, client_acquire, client_send,
}
use distributed_systems_chub.Skinny.Files.{rpc_get_content, rpc_set_content}
use distributed_systems_chub.Skinny.Locks.{rpc_try_acquire}
use distributed_systems_chub.Skinny.{
  append, unless_refused, parse_raft_result, reply_res, reply_msg,
}
use distributed_systems_chub.Skinny.Notify.{notify_events}
use distributed_systems_chub.Demo.Alone.{read_and_contend, contend_alone}
use distributed_systems_chub.Skinny.{done}
use distributed_systems_chub.Client.Calls.{remember}
use distributed_systems_chub.Demo.{elected, follows}
use distributed_systems_chub.Demo.Elected.{Contender, Phase, reading, over, run_turns}
use distributed_systems_chub.Demo.Elected.OnePrimary.{AllReady, AllRoles, run_turns_outcome}
use distributed_systems_chub.Tests.Scenario.{test_path, run_log}
use distributed_systems_chub.Tests.Sample.{first_entry, second_entry, test_file, shared_state}
use distributed_systems_chub.Tests.Files.{first-Handle, second-Handle}
use distributed_systems_chub.Tests.Calls.{succeeded, direct, direct-AtOnce, subscribers-Known}

abbrev host : ℤ → Text → Contender
host id hostname = record {
  client = record {
    cur_srv_id = 0;
    callbacks = pos 0 ∷ [];
    cache = [];
    session_id = id;
    has_conn = true;
    cancelled = false;
  };
  fh = pos 0;
  hostname = hostname;
  phase = reading;
}

abbrev contenders : List Contender
contenders = host (pos 0) (codes "one") ∷ host (pos 1) (codes "two") ∷ []

contenders-AllReady : AllReady shared_state test_path test_file contenders
unfolding run_log cached
contenders-AllReady = (
  refl,
  refl,
  (first_entry, first-Handle, refl),
  (refl, refl, (second_entry, second-Handle, refl), tt),
)

abbrev phases : Result (List Contender) → List Phase
phases (ok (k ∷ l ∷ [])) = k.phase ∷ l.phase ∷ []
phases _ = []

-- The second contender wins, and the first one reads its name.
second_wins :
    phases (run_turns direct (1 ∷ 1 ∷ 1 ∷ 0 ∷ []) contenders shared_state).0
    ≡ over (follows (codes "two")) ∷ over elected ∷ []
unfolding run_log run_turns get_content try_acquire set_content cached rpc_get_content
    client_get_content invoke_rpc rpc_try_acquire lock_request client_acquire append unless_refused
    parse_raft_result reply_res reply_msg succeeded rpc_set_content client_send notify_events
    asserted
second_wins = refl

run_turns_outcome_example :
    (ks' : List Contender) × (t : State) × (winner : Option ℕ) × (run_turns direct
        (0 ∷ 1 ∷ 1 ∷ 0 ∷ 1 ∷ [])
        contenders
        shared_state
      ≡ (ok ks', t))
    × AllRoles winner ks' 0 ks'
unfolding run_log
run_turns_outcome_example =
    run_turns_outcome direct shared_state test_path test_file contenders (0 ∷ 1 ∷ 1 ∷ 0 ∷ 1 ∷ [])
      direct-AtOnce refl refl refl refl subscribers-Known contenders-AllReady

contend_alone_example :
    (t : State) × (read_and_contend direct
        (pos 0)
        (codes "two")
        ((host (pos 1) (codes "two")).client, shared_state)
      ≡ (ok elected, (remember (host (pos 1) (codes "two")).client (pos 0) [], t)))
    × (rpc_get_content direct (pos 0) (pos 0) t ≡ (ok (done (codes "two")), t))
unfolding run_log cached
contend_alone_example =
    contend_alone direct (host (pos 1) (codes "two")).client (pos 0) (codes "two") (pos 0) (pos 0)
      direct-AtOnce refl second-Handle refl refl refl refl subscribers-Known refl first-Handle
