-- ===== src/Client/KeepAlive.antt =====
-- clientlib.cpp, KeepAlive: what the client does with the answer to its keepalive call.
use distributed_systems_chub.Prelude.{
  ℕ, Bool, true, false, ◌&&◌, Option, none, some, List, [], ◌∷◌, Text, text_eq, ℤ, ℤ_eq, pos, ◌+◌,
  minus_one, contains, if◌then◌else◌, ◌==◌,
}
use distributed_systems_chub.Exec.{Exec, ok, library_error, some_or, pure, lift, ◌>>=◌, ◌>>◌}
use distributed_systems_chub.Decimal.{stoi}
use distributed_systems_chub.Store.{session_not_found}
use distributed_systems_chub.Skinny.{
  Status, StatusCode, not_leader, cancelled, Answer, done, refused,
}
use distributed_systems_chub.Client.{ℕ, List, Client, change_server}
use distributed_systems_chub.Client.Calls.{forget}

-- skinny::Event, the pair of its number and its handle if it has one
abbrev pub Event : Type 0
Event = Option (ℤ × ℤ)

-- The call that asks for it, with the number of the event that was handled last.
pub record KeepAliveReq : Type 0 where
  pub session_id : ℤ
  pub acked_event : Option ℤ

abbrev pub keep_alive_request : Client → Option ℤ → KeepAliveReq
keep_alive_request c eid = record { session_id = c.session_id; acked_event = eid }

-- A wake-up of the wait for the answer: the answer, if it has come by then, and whether the client
-- has been cancelled by then.
pub record WakeUp : Type 0 where
  pub status_optional : Option (Answer Event)
  pub cancelled : Bool

-- The wait for the answer over its wake-ups: the answer, if there is one, and how often the call
-- was asked to stop, which is so at each wake-up of a cancelled client.
unfoldable pub await_status : Option (Answer Event) → List WakeUp → ℕ → Option (Answer Event) × ℕ
await_status (some status) wakes cancels = (some status, cancels)
await_status none [] cancels = (none, cancels)
await_status none (wake ∷ wakes) cancels =
    await_status wake.status_optional wakes (if wake.cancelled then cancels + 1 else cancels)

-- What a round of the loop gives: the number to acknowledge next, and the handle whose callback runs.
pub record Round : Type 0 where
  pub new_eid : Option ℤ
  pub called : Option ℤ

abbrev pub no_event : Round
no_event = record { new_eid = none; called = none }

-- The connection is back: what was cached before is dropped.
unfoldable pub connected : Client → Client
connected c = if c.has_conn then c else record c { has_conn = true; cache = [] }

unfoldable pub handle_event : Event → Client → Round × Client
unfolding connected forget
handle_event none c = (no_event, connected c)
handle_event (some (eid, fh)) c = (
  record { new_eid = some eid; called = if contains c.callbacks fh then some fh else none },
  forget (connected c) fh,
)

abbrev pub is_cancelled : StatusCode → Bool
is_cancelled cancelled = true
is_cancelled _ = false

-- The server to go on with after a call that was not answered by the leader.
unfoldable pub next_leader : ℤ → ℤ → ℤ
next_leader next leader = if leader == minus_one then next else leader

unfoldable pub redirect : ℤ → Exec Client Round
redirect next = do change_server next; pure no_event

unfoldable pub follow : Text → ℤ → Exec Client Round
unfolding next_leader redirect
follow message next = do
  leader ← lift (some_or library_error (stoi message))
  redirect (next_leader next leader)

-- Any other failure: the client was cancelled, its session is gone, or the next server is tried.
unfoldable pub give_up : Status → ℤ → Exec Client Round
unfolding redirect
give_up status next c =
    let after = redirect next c in
    if is_cancelled status.code && c.cancelled
    then (ok no_event, c)
    else if status.message == session_not_found
    then (ok no_event, record c { cancelled = true })
    else after

unfoldable pub lost : StatusCode → Status → ℤ → Exec Client Round
unfolding follow give_up
lost not_leader status next = follow status.message next
lost _ status next = give_up status next

-- KeepAlive, after the answer has come
unfoldable pub keep_alive : Answer Event → Exec Client Round
unfolding handle_event lost
keep_alive (done event) c = (ok (handle_event event c).0, (handle_event event c).1)
keep_alive (refused status) c =
    lost status.code status (pos (c.cur_srv_id + 1)) (record c { has_conn = false })
