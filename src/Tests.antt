-- ===== src/Tests.antt =====
-- Runs of the model at concrete inputs, and the instances of the theorems.
mod Scenario
mod Sample
mod Locks
mod Files
mod Calls
mod Waiting
mod Mutexes
mod Cluster
mod Election
mod Measured
mod Clients
mod Opening
mod Keepalive
mod Coding
mod Sessions
mod EndReply
