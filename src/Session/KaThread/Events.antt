-- ===== src/Session/KaThread/Events.antt =====
-- The keepalive thread over any sequence of calls and wake-ups.
use distributed_systems_chub.Prelude.{
  ℕ, ◌≡◌, refl, sym, ◌∙◌, Bool, true, false, Option, none, some, List, [], ◌∷◌, ◌++◌, ℤ, ℤ_eq,
  int_succ, contains, erase, ℕ_eq, if◌then◌else◌, ◌||◌,
}
use mathlib.Core.List.{append_assoc, append-nil}
use distributed_systems_chub.Session.KaThread.{
  KaThread, CvStatus, no_timeout, timeout, Output, nothing, exited, finish, expire, set_reactor,
  enqueue_event, block_until_event_acked, clear_reactor, answer, respond, wake, cancel,
}

-- What happens to the thread: a keepalive call with the acknowledgement that it carries, an event
-- that is enqueued for a handle, a wake-up, or a test of a caller that waits for an event.
pub data Call : Type 0 where
  keepalive : ℕ → ℕ → ℤ → Call
  event : ℤ → Call
  wakes : CvStatus → Call
  waits : ℤ → Call

abbrev pub or_same : KaThread → Option KaThread → KaThread
or_same t none = t
or_same t (some t') = t'

unfoldable pub step : KaThread → Call → KaThread × Output
step t (keepalive reactor res acked) = (set_reactor t reactor res acked, nothing)
step t (event fh) = ((enqueue_event t fh).0, nothing)
step t (wakes status) = wake t status
step t (waits eid) = (or_same t (block_until_event_acked t eid), nothing)

-- The thread after the calls, and what each did outside.
unfoldable pub run : KaThread → List Call → KaThread × List Output
run t [] = (t, [])
run t (c ∷ cs) = let (t', o) = step t c in let (t'', os) = run t' cs in (t'', o ∷ os)

-- The events that answers carried, in order.
abbrev pub delivered : List Output → List (ℤ × ℤ)
delivered [] = []
delivered (finish r (some ev) ∷ os) = ev ∷ delivered os
delivered (finish r none ∷ os) = delivered os
delivered (nothing ∷ os) = delivered os
delivered (exited ∷ os) = delivered os
delivered (expire sid ∷ os) = delivered os

-- The events that were enqueued, each under the next number.
abbrev pub enqueued : ℤ → List Call → List (ℤ × ℤ)
enqueued eid [] = []
enqueued eid (event fh ∷ cs) = (eid, fh) ∷ enqueued (int_succ eid) cs
enqueued eid (keepalive r e a ∷ cs) = enqueued eid cs
enqueued eid (wakes status ∷ cs) = enqueued eid cs
enqueued eid (waits w ∷ cs) = enqueued eid cs

-- What one call adds to the events that were delivered.
abbrev delivered_now : Output → List (ℤ × ℤ)
delivered_now (finish r (some ev)) = ev ∷ []
delivered_now (finish r none) = []
delivered_now nothing = []
delivered_now exited = []
delivered_now (expire sid) = []

delivered-cons :
    (o : Output) (os : List Output) → delivered (o ∷ os) ≡ delivered_now o ++ delivered os
delivered-cons (finish r (some ev)) os = refl
delivered-cons (finish r none) os = refl
delivered-cons nothing os = refl
delivered-cons exited os = refl
delivered-cons (expire sid) os = refl

-- What a step delivers and leaves in the queue is what the queue held, and no number is taken.
abbrev KeepsQueue : KaThread → KaThread × Output → Type 0
KeepsQueue t r =
    (delivered_now r.1 ++ r.0.event_queue ≡ t.event_queue) × (r.0.event_id ≡ t.event_id)

answer-KeepsQueue :
    (t : KaThread) (r : ℕ) (q : List (ℤ × ℤ)) → t.event_queue ≡ q → KeepsQueue t (answer t r q)
unfolding answer clear_reactor
answer-KeepsQueue t r [] e = (refl, refl)
answer-KeepsQueue t r (ev ∷ q) e = (sym e, refl)

respond-KeepsQueue :
    (t : KaThread) (status : CvStatus) (r e : Option ℕ) → KeepsQueue t (respond t status r e)
unfolding respond clear_reactor cancel
respond-KeepsQueue t timeout (some r) (some e) = (refl, refl)
respond-KeepsQueue t no_timeout (some r) (some e) = answer-KeepsQueue t r t.event_queue refl
respond-KeepsQueue t timeout (some r) none = (refl, refl)
respond-KeepsQueue t timeout none e = (refl, refl)
respond-KeepsQueue t no_timeout (some r) none = (refl, refl)
respond-KeepsQueue t no_timeout none e = (refl, refl)

wake-KeepsQueue : (t : KaThread) (status : CvStatus) → KeepsQueue t (wake t status)
unfolding wake
wake-KeepsQueue t status = split t.cancelled
  where
    split : (b : Bool) → KeepsQueue t (if b then (t, exited) else respond t status t.reactor t.res)
    split true = (refl, refl)
    split false = respond-KeepsQueue t status t.reactor t.res

waits-KeepsQueue :
    (t : KaThread) (eid : ℤ) → KeepsQueue t (or_same t (block_until_event_acked t eid), nothing)
unfolding block_until_event_acked
waits-KeepsQueue t eid = split (contains t.acked_events eid || t.cancelled)
  where
    split :
        (b : Bool)
        → KeepsQueue t (
          or_same t
              (if b then some (record t { acked_events = erase eid t.acked_events }) else none),
          nothing,
        )
    split true = (refl, refl)
    split false = (refl, refl)

-- One step before the others.
in_order-step :
    (t : KaThread) (r : KaThread × Output) (os : List Output) (q : List (ℤ × ℤ)) (cs : List Call)
    → KeepsQueue t r
    → delivered os ++ q ≡ r.0.event_queue ++ enqueued r.0.event_id cs
    → delivered (r.1 ∷ os) ++ q ≡ t.event_queue ++ enqueued t.event_id cs
in_order-step t r os q cs keeps rest = cc (
  delivered-cons r.1 os,
  append_assoc (delivered_now r.1) (delivered os) q,
  append_assoc (delivered_now r.1) r.0.event_queue (enqueued r.0.event_id cs),
  keeps.0,
  keeps.1,
  rest,
)

-- The events reach the client in the order in which they were enqueued, under consecutive numbers,
-- none of them twice and none lost: what was delivered and then what is still queued is what was
-- queued at first and then what was enqueued since.
pub events_in_order :
    (t : KaThread) (cs : List Call)
    → delivered (run t cs).1 ++ (run t cs).0.event_queue ≡ t.event_queue ++ enqueued t.event_id cs
unfolding run step set_reactor enqueue_event
events_in_order t [] = sym (append-nil t.event_queue)
events_in_order t (keepalive r e a ∷ cs) = events_in_order (set_reactor t r e a) cs
events_in_order t (event fh ∷ cs) =
    events_in_order (enqueue_event t fh).0 cs
    ∙ append_assoc t.event_queue ((t.event_id, fh) ∷ []) (enqueued (int_succ t.event_id) cs)
events_in_order t (wakes status ∷ cs) =
    let rest = events_in_order (wake t status).0 cs in
    in_order-step t (wake t status) _ _ cs (wake-KeepsQueue t status) rest
events_in_order t (waits eid ∷ cs) =
    let t' : KaThread = or_same t (block_until_event_acked t eid) in
    let rest = events_in_order t' cs in
    in_order-step t (t', nothing) (run t' cs).1 (run t' cs).0.event_queue cs
      (waits-KeepsQueue t eid) rest
