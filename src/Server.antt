-- ===== src/Server.antt =====
-- server.cpp: the state that a server starts with. The children have the addresses of the servers
-- and the loop in which a server adds the others to the cluster.
pub mod Config
pub mod Cluster
pub mod Joined
pub mod Events
use distributed_systems_chub.Prelude.{true, [], ◌∷◌, codes, pos, ℕ_eq}
use distributed_systems_chub.Store.{File, new_meta}
use distributed_systems_chub.StateMachine.State.{State}

-- The root exists and is a directory.
abbrev pub root_file : File
root_file = record {
  meta = record new_meta { file_exists = true; is_directory = true };
  content = [];
}

-- main, before the Raft server runs.
unfoldable pub initial : State
initial = record {
  ds = (codes "/", root_file) ∷ [];
  sdb = record { session_db = []; next_id = pos 0 };
  last_committed_idx = 0;
}
