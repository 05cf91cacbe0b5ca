-- ===== src/Server/Cluster.antt =====
-- server.cpp, init_raft: the loop in which a server adds the others to the cluster.
use distributed_systems_chub.Prelude.{
  ℕ, zero, suc, ◌+◌, Bool, List, [], ◌∷◌, Text, ℕ_eq, ◌==◌, if◌then◌else◌,
}
use distributed_systems_chub.Exec.{Exec, ok, fault, waiting, pure, ◌>>◌}
use distributed_systems_chub.Server.Config.{endpoint, srv_config}

-- The nuraft::raft_server in a state `R`: what an add_srv of a server at an address comes to until
-- its result is there and the pause after it is over, and whether get_srv_config then knows the
-- server.
pub record Raft (R : Type 0) : Type 0 where
  pub add_srv : ℕ → Text → R → R
  pub has_config : ℕ → R → Bool

module _ {R : Type 0} (raft : Raft R) where
  -- The `do` loop for one server, with at most so many rounds.
  unfoldable pub add_until_known : ℕ → ℕ → Text → Exec R (Unit {0})
  add_until_known zero i at r = (fault waiting, r)
  add_until_known (suc rounds) i at r =
      let asked = raft.add_srv i at r in
      let again = add_until_known rounds i at asked in
      if raft.has_config i asked then (ok tt, asked) else again

  -- The `for` loop from the server `i` on.
  unfoldable pub add_servers : ℕ → ℕ → ℕ → List (Text × ℕ) → Exec R (Unit {0})
  unfolding add_until_known
  add_servers rounds node_id i [] = pure tt
  add_servers rounds node_id i (server ∷ servers) = do
    if i == node_id then pure tt else add_until_known rounds i (endpoint server)
    add_servers rounds node_id (i + 1) servers

  unfoldable pub join_cluster : ℕ → ℕ → Exec R (Unit {0})
  unfolding add_servers
  join_cluster rounds node_id = add_servers rounds node_id 0 srv_config
