-- ===== src/Client/Diagnosis.antt =====
-- clientlib.cpp, class SkinnyDiagnosticClient, against server.cpp's DiagnosticImpl.
use Prim.Native.Nat.{◌%◌}
use distributed_systems_chub.Prelude.{
  ℕ, ◌+◌, ◌<◌, ◌≡◌, ◌∙◌, ap, arith, some, List, [], ◌∷◌, ◌++◌, ℤ, map, length,
}
use distributed_systems_chub.Skinny.{Server, Answer, Status, refused}
use distributed_systems_chub.Skinny.Sessions.{rpc_get_leader}
use distributed_systems_chub.Client.{ask_leader, server_count}

-- GetLeader returns what the first server that answers takes for the leader, however many servers
-- failed before; and that server is the one that comes next in the list of servers, which is gone
-- round from the server `idx` on.
pub ask_leader_outcome :
    (server : Server) (failures : List Status) (answers : List (Answer ℤ)) (idx : ℕ)
    → idx < server_count
    → ask_leader (map refused failures ++ rpc_get_leader server ∷ answers) idx
      ≡ (some server.get_leader, (idx + length failures) % server_count)
unfolding ask_leader rpc_get_leader
ask_leader_outcome server [] answers idx h = ap (λ i. (some server.get_leader, i)) (omega arith)
ask_leader_outcome server (status ∷ failures) answers idx h =
    ask_leader_outcome server failures answers ((idx + 1) % server_count) (omega arith)
    ∙ ap (λ i. (some server.get_leader, i)) (omega arith)
