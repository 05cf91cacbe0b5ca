-- ===== src/Tests/Cluster.antt =====
-- The theorem on the loop that joins the cluster, with a Raft server that takes each server at once.
use distributed_systems_chub.Prelude.{
  ◌⊎◌, ℕ, ℕ_eq, ◌≡◌, ◌≢◌, refl, true, false, some, List, [], ◌∷◌, Text, contains, eq_false, arith,
  get_elem?, length,
}
use distributed_systems_chub.Exec.{ok, fault, waiting}
use distributed_systems_chub.Server.Config.{srv_config}
use distributed_systems_chub.Server.Cluster.{Raft, join_cluster}
use distributed_systems_chub.Server.Joined.{IsRaft, Known, Stuck, join_cluster_outcome}
use distributed_systems_chub.Client.{server_count}

servers_counted : length srv_config ≡ server_count
unfolding srv_config
servers_counted = refl

-- The state is the list of the servers that were added.
abbrev willing : Raft (List ℕ)
willing = record { add_srv = λ i at r. i ∷ r; has_config = λ i r. contains r i }

still_added : (i j : ℕ) (r : List ℕ) → contains r j ≡ true → contains (i ∷ r) j ≡ true
unfolding contains
still_added i j r h = ground (arith, h)

willing-IsRaft : IsRaft willing
willing-IsRaft = record { stays = λ i j at r h. still_added i j r h }

-- Server 2 never adds itself.
not_itself :
    (i : ℕ) (host : Text) (port : ℕ) (r : List ℕ)
    → i ≢ 2
    → get_elem? srv_config i ≡ some (host, port)
    → contains r 2 ≡ false
    → contains (i ∷ r) 2 ≡ false
unfolding contains
not_itself i host port r n at h = rw (eq_false n, h)

join_cluster_outcome_example :
    (t : List ℕ) × (contains t 2 ≡ false)
    × (((join_cluster willing 1 2 [] ≡ (ok tt, t)) × Known willing 2 0 srv_config t)
        ⊎ ((join_cluster willing 1 2 [] ≡ (fault waiting, t)) × Stuck willing 1 2))
unfolding contains
join_cluster_outcome_example =
    join_cluster_outcome willing 1 willing-IsRaft (λ r. contains r 2 ≡ false) 2 not_itself [] refl
