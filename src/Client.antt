-- ===== src/Client.antt =====
-- clientlib.cpp: the state of a client, the choice of its server, and the loop that repeats a call.
pub mod Calls
pub mod KeepAlive
pub mod Retry
pub mod Start
pub mod Coherence
pub mod Leader
pub mod Conversation
pub mod Locking
pub mod CacheView
pub mod Diagnosis
pub mod Remote
pub mod Answering
pub mod Python
use Prim.Native.Nat.{◌%◌}
use distributed_systems_chub.Prelude.{
  ℕ, zero, suc, ◌+◌, Bool, true, false, ◌||◌, Option, none, some, List, [], ◌∷◌, Text, ℤ, pos,
  negsuc, ◌==◌, text_eq, if◌then◌else◌,
}
use distributed_systems_chub.Exec.{
  Exec, Result, ok, fault, aborted, runtime_error, pure, throw, ◌>>=◌, ◌>>◌,
}
use distributed_systems_chub.Dict.{Dict}
use distributed_systems_chub.Store.{session_not_found}
use distributed_systems_chub.Skinny.{
  Status, StatusCode, not_leader, unavailable, Answer, done, refused,
}

-- class SkinnyClient::impl. The channel and the stubs are those of the server `cur_srv_id`, and
-- `callbacks` holds the handles that have a callback.
pub record Client : Type 0 where
  pub cur_srv_id : ℕ
  pub callbacks : List ℤ
  pub cache : Dict ℤ Text
  pub session_id : ℤ
  pub has_conn : Bool
  pub cancelled : Bool

-- SRV_CONFIG.size()
abbrev pub server_count : ℕ
server_count = 5

-- The assertion fails on a negative number.
unfoldable pub change_server : ℤ → Exec Client (Unit {0})
change_server (negsuc n) c = (fault aborted, c)
change_server (pos n) c = (ok tt, record c { cur_srv_id = n % server_count })

abbrev pub is_transient : StatusCode → Bool
is_transient not_leader = true
is_transient unavailable = true
is_transient _ = false

-- InvokeRpc over what the repeated call answers, each time that the client has a connection: the
-- answer that it returns, the exception, or `none` while it goes on.
unfoldable pub invoke_rpc : {A : Type 0} → List (Answer A) → Option (Result (Answer A))
invoke_rpc [] = none
invoke_rpc (done a ∷ answers) = some (ok (done a))
invoke_rpc (refused status ∷ answers) =
    let rest = invoke_rpc answers in
    if status.message == session_not_found
    then some (fault runtime_error)
    else if is_transient status.code
    then rest
    else some (ok (refused status))

-- The answer of the server that is asked, before what the other servers lead to.
unfoldable pub settle : Client → Result (Unit {0}) × Client → Answer ℤ → Result (Unit {0}) × Client
settle c rest (done id) = (ok tt, record c { session_id = id; has_conn = true })
settle c rest (refused status) = rest

-- The loop of StartSessionOrDie from the server `i` on, with the number of servers left.
unfoldable pub try_servers : (ℕ → Answer ℤ) → ℕ → ℕ → Exec Client (Unit {0})
unfolding change_server settle
try_servers ask zero i c = (fault aborted, c)
try_servers ask (suc n) i c =
    let c' = (change_server (pos i) c).1 in
    let rest = try_servers ask n (i + 1) c' in settle c' rest (ask c'.cur_srv_id)

-- StartSessionOrDie, where a server answers as `ask` says.
unfoldable pub start_session_or_die : (ℕ → Answer ℤ) → Exec Client (Unit {0})
unfolding try_servers
start_session_or_die ask = try_servers ask server_count 0

-- SkinnyDiagnosticClient::GetLeader over the answers of the servers that it asks one after the
-- other: the server that answered last, with the leader that it names, or the server that comes
-- next while none has answered.
unfoldable pub ask_leader : List (Answer ℤ) → ℕ → Option ℤ × ℕ
ask_leader [] idx = (none, idx)
ask_leader (done leader ∷ answers) idx = (some leader, idx)
ask_leader (refused status ∷ answers) idx = ask_leader answers ((idx + 1) % server_count)
