-- ===== src/Tests/Keepalive.antt =====
-- The theorems on the keepalive thread, at a thread with two events and two keepalive calls.
use distributed_systems_chub.Prelude.{ℕ_eq, ◌≡◌, ◌≤◌, ◌+◌, [], ◌∷◌, ◌++◌, List, pos}
use distributed_systems_chub.Session.KaThread.{KaThread, new_kathread, no_timeout, timeout}
use distributed_systems_chub.Session.KaThread.Events.{
  Call, keepalive, event, wakes, waits, run, delivered, enqueued, events_in_order,
}
use distributed_systems_chub.Session.KaThread.Answers.{answers, open_calls, answered_once}

abbrev fresh : KaThread
fresh = new_kathread (pos 3) (pos 0)

abbrev calls : List Call
calls =
    event (pos 0)
    ∷ event (pos 1)
    ∷ keepalive 7 7 (pos 0)
    ∷ wakes no_timeout
    ∷ waits (pos 0)
    ∷ keepalive 8 8 (pos 0)
    ∷ wakes timeout
    ∷ wakes timeout
    ∷ []

events_in_order_example :
    delivered (run fresh calls).1 ++ (run fresh calls).0.event_queue ≡ enqueued (pos 0) calls
events_in_order_example = events_in_order fresh calls

answered_once_example :
    answers 7 (run fresh calls).1 + open_calls 7 (run fresh calls).0.reactor ≤ 1 + 0
unfolding ℕ_eq
answered_once_example = answered_once 7 fresh calls
