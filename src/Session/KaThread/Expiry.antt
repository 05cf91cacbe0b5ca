-- ===== src/Session/KaThread/Expiry.antt =====
-- The end of a session's thread, and the callers that wait for an acknowledgement.
use distributed_systems_chub.Prelude.{
  inr, inl, Bool-cases, ◌⊎◌, ℕ, ◌+◌, ◌≤◌, ◌≡◌, refl, Bool, true, false, Option, none, some, List,
  [], ◌∷◌, ℤ, ℤ_eq, arith, ◌==◌, if◌then◌else◌, ◌||◌, contains, erase, contains-erase,
}
use distributed_systems_chub.Session.KaThread.{
  KaThread, CvStatus, no_timeout, timeout, Output, nothing, exited, finish, expire, set_reactor,
  enqueue_event, block_until_event_acked, clear_reactor, answer, respond, wake, cancel,
}
use distributed_systems_chub.Session.KaThread.Events.{
  Call, keepalive, event, wakes, waits, step, run, or_same,
}

-- How often the session was reported to have expired, and how often its thread did anything else.
abbrev pub expirations : List Output → ℕ
expirations [] = 0
expirations (expire sid ∷ os) = 1 + expirations os
expirations (finish q ev ∷ os) = expirations os
expirations (nothing ∷ os) = expirations os
expirations (exited ∷ os) = expirations os

-- 1 while the thread runs.
abbrev pub running : KaThread → ℕ
running t = if t.cancelled then 0 else 1

abbrev EndsOnce : KaThread → KaThread × Output → Type 0
EndsOnce t r = expirations (r.1 ∷ []) + running r.0 ≤ running t

answer-EndsOnce : (t : KaThread) (q : ℕ) (evs : List (ℤ × ℤ)) → EndsOnce t (answer t q evs)
unfolding answer clear_reactor
answer-EndsOnce t q [] = omega arith
answer-EndsOnce t q (ev ∷ evs) = omega arith

respond-EndsOnce :
    (t : KaThread) (status : CvStatus) (q e : Option ℕ)
    → t.cancelled ≡ false
    → EndsOnce t (respond t status q e)
unfolding respond clear_reactor cancel
respond-EndsOnce t timeout (some q) (some e) h = ground arith
respond-EndsOnce t no_timeout (some q) (some e) h = answer-EndsOnce t q t.event_queue
respond-EndsOnce t timeout (some q) none h = ground arith
respond-EndsOnce t timeout none e h = ground arith
respond-EndsOnce t no_timeout (some q) none h = ground arith
respond-EndsOnce t no_timeout none e h = ground arith

wake-EndsOnce : (t : KaThread) (status : CvStatus) → EndsOnce t (wake t status)
unfolding wake
wake-EndsOnce t status = split t.cancelled refl
  where
    split :
        (b : Bool)
        → t.cancelled ≡ b
        → EndsOnce t (if b then (t, exited) else respond t status t.reactor t.res)
    split true h = omega arith
    split false h = respond-EndsOnce t status t.reactor t.res h

waits_running :
    (t : KaThread) (eid : ℤ) → running (or_same t (block_until_event_acked t eid)) ≡ running t
unfolding block_until_event_acked
waits_running t eid = split (contains t.acked_events eid || t.cancelled)
  where
    split :
        (b : Bool)
        → running (
            or_same t
              (if b then some (record t { acked_events = erase eid t.acked_events }) else none))
          ≡ running t
    split true = refl
    split false = refl

expirations-cons :
    (o : Output) (os : List Output) → expirations (o ∷ os) ≡ expirations (o ∷ []) + expirations os
expirations-cons (finish q ev) os = omega arith
expirations-cons nothing os = omega arith
expirations-cons exited os = omega arith
expirations-cons (expire sid) os = omega arith

-- A session is reported to have expired once at most, and not while its thread runs on: the thread
-- is cancelled by then.
pub expires_once :
    (t : KaThread) (cs : List Call) → expirations (run t cs).1 + running (run t cs).0 ≤ running t
unfolding run step set_reactor enqueue_event
expires_once t [] = omega arith
expires_once t (keepalive q e a ∷ cs) = expires_once (set_reactor t q e a) cs
expires_once t (event fh ∷ cs) = expires_once (enqueue_event t fh).0 cs
expires_once t (wakes status ∷ cs) = omega (
  arith,
  expirations-cons (wake t status).1 (run (wake t status).0 cs).1,
  wake-EndsOnce t status,
  expires_once (wake t status).0 cs,
)
expires_once t (waits eid ∷ cs) =
    let t' : KaThread = or_same t (block_until_event_acked t eid) in
    let rest = expires_once t' cs in omega (arith, rest, waits_running t eid)

-- The outcomes of one test of a caller that waits.
abbrev pub WaitOutcome : KaThread → ℤ → Type 0
WaitOutcome t eid =
    ((contains t.acked_events eid ≡ false)
      × (t.cancelled ≡ false)
      × (block_until_event_acked t eid ≡ none))
    ⊎ (((contains t.acked_events eid || t.cancelled) ≡ true)
        × (t' : KaThread) × (block_until_event_acked t eid ≡ some t')
        × ((x : ℤ)
            → contains t'.acked_events x ≡ (if eid == x then false else contains t.acked_events x)))

-- A caller that waits for an event goes on exactly when the event is acknowledged or the thread
-- cancelled, and it takes the acknowledgement, and no other, with it.
pub block_until_event_acked_lem : (t : KaThread) (eid : ℤ) → WaitOutcome t eid
unfolding block_until_event_acked
block_until_event_acked_lem t eid = elim (Bool-cases (contains t.acked_events eid || t.cancelled)) [
  | inl go ↦ inr (
    go,
    record t { acked_events = erase eid t.acked_events },
    rw go,
    λ x. contains-erase eid x t.acked_events,
  )
  | inr stay ↦ inl (ground arith, ground arith, rw stay)
]
