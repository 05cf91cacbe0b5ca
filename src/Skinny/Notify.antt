-- ===== src/Skinny/Notify.antt =====
-- SkinnyImpl.cpp and server.cpp, notify_events: every subscriber of a file that is still there gets
-- an event, the others are dropped, and the caller waits until the events are acknowledged.
use distributed_systems_chub.Prelude.{
  Option, none, some, List, [], ◌∷◌, ◌++◌, Text, ℤ, ℤ_eq, text_eq, minus_one, ◌==◌, if◌then◌else◌,
}
use distributed_systems_chub.Exec.{Exec, pure, ◌>>=◌, ◌>>◌}
use distributed_systems_chub.Dict.{Dict, remove}
use distributed_systems_chub.Session.{Entry, handle_inum, enqueue_event}
use distributed_systems_chub.StateMachine.State.{
  State, find_session, write_session, at, file_at, write_file,
}
use distributed_systems_chub.Skinny.{Server}

-- subscribers.erase(it)
unfoldable pub drop_subscriber : Text → ℤ → Exec State (List (ℤ × ℤ))
drop_subscriber key sid = do
  file ← file_at key
  write_file key
      (record file { meta = record file.meta { subscribers = remove file.subscribers sid } })
  pure []

-- The event to wait for, where the session has a thread.
abbrev pub to_await : ℤ → Option ℤ → List (ℤ × ℤ)
to_await sid none = []
to_await sid (some eid) = (sid, eid) ∷ []

unfoldable pub notify_live : ℤ → ℤ → Entry → Exec State (List (ℤ × ℤ))
notify_live sid fh e = do
  write_session sid (enqueue_event e fh).0
  pure (to_await sid (enqueue_event e fh).1)

unfoldable pub notify_subscriber : Text → ℤ → ℤ → Option Entry → Exec State (List (ℤ × ℤ))
unfolding drop_subscriber notify_live
notify_subscriber key sid fh none = drop_subscriber key sid
notify_subscriber key sid fh (some e) = do
  inum ← at (handle_inum e fh)
  if inum == minus_one then drop_subscriber key sid else notify_live sid fh e

-- The loop over the subscribers, with the events to wait for.
unfoldable pub notify_all : Text → Dict ℤ ℤ → Exec State (List (ℤ × ℤ))
unfolding notify_subscriber
notify_all key [] = pure []
notify_all key ((sid, fh) ∷ subscribers) = do
  e ← find_session sid
  ws ← notify_subscriber key sid fh e
  rest ← notify_all key subscribers
  pure (ws ++ rest)

-- The file is the one that the source refers to with `ds_->at(key)`.
unfoldable pub notify_events : Server → Text → Exec State (Unit {0})
unfolding notify_all
notify_events server key = do
  file ← file_at key
  ws ← notify_all key file.subscribers
  server.join ws

-- The loops that notify the subscribers of several files.
unfoldable pub notify_each : Server → List Text → Exec State (Unit {0})
unfolding notify_events
notify_each server [] = pure tt
notify_each server (key ∷ keys) = do notify_events server key; notify_each server keys
