-- ===== src/Client/Leader.antt =====
-- SkinnyImpl.cpp and clientlib.cpp: a keepalive call at a server that does not lead.
use Prim.Native.Nat.{◌%◌}
use distributed_systems_chub.Prelude.{
  inr, ◌⊎◌, inl, ℕ, ◌+◌, ◌≤◌, ◌≡◌, false, some, Option, ℤ, ℤ_eq, pos, minus_one, int_max,
}
use distributed_systems_chub.Exec.{◌>>=◌, ok}
use distributed_systems_chub.Decimal.{stoi-minus_one, to_string, stoi-to_string}
use distributed_systems_chub.StateMachine.State.{State, find_session}
use distributed_systems_chub.Skinny.{not_leader, Server, Status, refused}
use distributed_systems_chub.Skinny.Sessions.{rpc_keep_alive}
use distributed_systems_chub.Client.{not_leader, Client, server_count, change_server}
use distributed_systems_chub.Client.KeepAlive.{keep_alive, no_event}

abbrev pub moved : Client → ℕ → Client
moved c n = record c { has_conn = false; cur_srv_id = n % server_count }

-- The server that the status points to: the leader, or the next server where none is known.
abbrev pub PointsTo : ℤ → Client → ℕ → Type 0
PointsTo leader c n =
    ((leader ≡ pos n) × (n ≤ int_max)) ⊎ ((leader ≡ minus_one) × (n ≡ c.cur_srv_id + 1))

abbrev named : ℤ → Status
named leader = record { code = not_leader; message = to_string leader }

keep_alive-named :
    (leader : ℤ) (c : Client) (n : ℕ)
    → PointsTo leader c n
    → keep_alive (refused (named leader)) c ≡ (ok no_event, moved c n)
unfolding keep_alive change_server ℤ_eq ◌>>=◌
keep_alive-named leader c n (inl (e, h)) = rw (e, stoi-to_string n h)
keep_alive-named leader c n (inr (e, p)) = rw (e, p, stoi-minus_one)

-- A keepalive call at a server that does not lead changes nothing there, and the status it is
-- answered with sends the client to the leader that the server knows, or to the next server if it
-- knows none; until the next answer the client has no connection.
pub follow_leader :
    (server : Server) (session_id : ℤ) (acked : Option ℤ) (reactor : ℕ) (s : State) (c : Client)
    (n : ℕ)
    → server.is_leader ≡ false
    → PointsTo server.get_leader c n
    → (status : Status) × (rpc_keep_alive server session_id acked reactor s ≡ (ok (some status), s))
      × (keep_alive (refused status) c ≡ (ok no_event, moved c n))
unfolding rpc_keep_alive find_session
follow_leader server session_id acked reactor s c n off points =
    (named server.get_leader, rw off, keep_alive-named server.get_leader c n points)
