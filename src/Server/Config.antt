-- ===== src/Server/Config.antt =====
-- utils.h, the table of the servers, and the addresses that server.cpp and clientlib.cpp make of it.
use distributed_systems_chub.Prelude.{ℕ, ◌+◌, List, [], ◌∷◌, ◌++◌, Text, codes, pos}
use distributed_systems_chub.Decimal.{to_string}

abbrev pub host_suffix : Text
host_suffix = codes ".skinnyclient.advosuwmadison-pg0.clemson.cloudlab.us"

-- The host and the port of each server.
unfoldable pub srv_config : List (Text × ℕ)
srv_config =
    (codes "node0" ++ host_suffix, 10200)
    ∷ (codes "node1" ++ host_suffix, 12010)
    ∷ (codes "node2" ++ host_suffix, 10220)
    ∷ (codes "node3" ++ host_suffix, 10220)
    ∷ (codes "node4" ++ host_suffix, 10220)
    ∷ []

unfoldable pub address : Text → ℕ → Text
address host port = host ++ codes ":" ++ to_string (pos port)

-- Where a server runs Raft.
unfoldable pub endpoint : Text × ℕ → Text
unfolding address
endpoint (host, port) = address host port

-- Where a server listens for remote calls.
unfoldable pub server_address : Text × ℕ → Text
unfolding address
server_address (host, port) = address (codes "0.0.0.0") (port + 1)

-- Where a client calls a server.
unfoldable pub channel_address : Text × ℕ → Text
unfolding address
channel_address (host, port) = address host (port + 1)
