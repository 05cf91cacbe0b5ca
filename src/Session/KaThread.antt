-- ===== src/Session/KaThread.antt =====
-- Session.cpp, class KAThread: the per-session thread that answers keepalive calls. A call in
-- flight is a number, which stands for its reactor and for the event that it answers with.
pub mod Events
pub mod Answers
pub mod Expiry
use distributed_systems_chub.Exec.{ok, aborted, fault, Result}
use distributed_systems_chub.Prelude.{
  ℕ, Bool, true, false, Option, none, some, List, [], ◌∷◌, ◌++◌, ◌||◌, ℤ, ℤ_eq, int_succ, contains,
  insert, erase, if◌then◌else◌,
}

pub record KaThread : Type 0 where
  pub sid : ℤ
  pub cancelled : Bool
  pub reactor : Option ℕ
  pub res : Option ℕ
  -- pairs of an event's number and a handle, oldest first
  pub event_queue : List (ℤ × ℤ)
  pub event_id : ℤ
  pub acked_events : List ℤ

abbrev pub new_kathread : ℤ → ℤ → KaThread
new_kathread sid event_id = record {
  sid = sid;
  cancelled = false;
  reactor = none;
  res = none;
  event_queue = [];
  event_id = event_id;
  acked_events = [];
}

unfoldable pub set_reactor : KaThread → ℕ → ℕ → ℤ → KaThread
set_reactor t reactor res acked_eid = record t {
  reactor = some reactor;
  res = some res;
  acked_events = insert acked_eid t.acked_events;
}

-- The thread with the event in its queue, and the event's number.
unfoldable pub enqueue_event : KaThread → ℤ → KaThread × ℤ
enqueue_event t fh = (
  record t { event_queue = t.event_queue ++ (t.event_id, fh) ∷ []; event_id = int_succ t.event_id },
  t.event_id,
)

-- One test of the wait loop: `none` where the caller still waits.
unfoldable pub block_until_event_acked : KaThread → ℤ → Option KaThread
block_until_event_acked t eid =
    if contains t.acked_events eid || t.cancelled
    then some (record t { acked_events = erase eid t.acked_events })
    else none

unfoldable pub cancel : KaThread → KaThread
cancel t = record t { cancelled = true }

-- The result of `cv_.wait_for`.
pub data CvStatus : Type 0 where
  no_timeout timeout : CvStatus

-- What one round of the thread's loop does outside: nothing, leave the loop, finish a call with
-- the event that it carries, or call back that the session has expired.
pub data Output : Type 0 where
  nothing exited : Output
  finish : ℕ → Option (ℤ × ℤ) → Output
  expire : ℤ → Output

unfoldable pub clear_reactor : KaThread → KaThread
clear_reactor t = record t { reactor = none; res = none }

-- pop_event: the oldest event's handle; the assertion says that there is an event.
unfoldable pub pop_event : KaThread → Result ℤ × KaThread
pop_event t = elim t.event_queue [
  | [] ↦ (fault aborted, t)
  | (eid, fh) ∷ q ↦ (ok fh, record t { event_queue = q })
]

-- An active keepalive, woken before the timeout: the oldest event is returned.
unfoldable pub answer : KaThread → ℕ → List (ℤ × ℤ) → KaThread × Output
answer t r [] = (t, nothing)
answer t r (ev ∷ q) = (clear_reactor (record t { event_queue = q }), finish r (some ev))

-- With an active keepalive or without one.
unfoldable pub respond : KaThread → CvStatus → Option ℕ → Option ℕ → KaThread × Output
respond t timeout (some r) (some e) = (clear_reactor t, finish r none)
respond t no_timeout (some r) (some e) = answer t r t.event_queue
respond t timeout (some r) none = (cancel t, expire t.sid)
respond t timeout none e = (cancel t, expire t.sid)
respond t no_timeout (some r) none = (t, nothing)
respond t no_timeout none e = (t, nothing)

-- One round of the loop, after the wait.
unfoldable pub wake : KaThread → CvStatus → KaThread × Output
unfolding respond answer clear_reactor cancel
wake t status = if t.cancelled then (t, exited) else respond t status t.reactor t.res
