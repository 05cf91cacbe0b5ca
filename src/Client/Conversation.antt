-- ===== src/Client/Conversation.antt =====
-- clientlib.cpp, the thread that the constructor starts: one keepalive call after another, each with
-- the number of the event that came before; and the server's thread of the session, which answers.
pub mod Reached
use distributed_systems_chub.Prelude.{ℕ, Option, List, [], ◌∷◌, ℤ, if◌then◌else◌}
use distributed_systems_chub.Exec.{Result, ok, fault}
use distributed_systems_chub.Session.KaThread.{
  KaThread, Output, nothing, exited, finish, expire, no_timeout, set_reactor, wake,
}
use distributed_systems_chub.Skinny.{done}
use distributed_systems_chub.Skinny.Sessions.{acked_or_minus_one}
use distributed_systems_chub.Client.{Client}
use distributed_systems_chub.Client.KeepAlive.{Round, keep_alive}

-- The server's thread, the client, and the number that its next call acknowledges.
pub record Talk : Type 0 where
  pub thread : KaThread
  pub client : Client
  pub eid : Option ℤ

abbrev heard : Talk → Result Round × Client → Talk
heard t (ok round, c) = record t { client = c; eid = round.new_eid }
heard t (fault e, c) = record t { client = c }

-- What the client makes of what the thread does: a call that is finished comes back.
unfoldable pub hear : Talk → Output → Talk
unfolding keep_alive
hear t (finish r ev) = heard t (keep_alive (done ev) t.client)
hear t nothing = t
hear t exited = t
hear t (expire sid) = t

-- One call, which wakes the thread.
unfoldable pub call : ℕ → Talk → Talk
unfolding hear set_reactor wake
call r t =
    let (thread, o) = wake (set_reactor t.thread r r (acked_or_minus_one t.eid)) no_timeout in
    hear (record t { thread = thread }) o

-- The calls one after another, each with its reactor, until the client is cancelled.
unfoldable pub converse : List ℕ → Talk → Talk
unfolding call
converse [] t = t
converse (r ∷ rs) t = let rest = converse rs (call r t) in if t.client.cancelled then t else rest
