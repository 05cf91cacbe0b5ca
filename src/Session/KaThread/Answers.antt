-- ===== src/Session/KaThread/Answers.antt =====
-- Each keepalive call is answered once at most.
use distributed_systems_chub.Prelude.{
  ap, ℕ, ◌+◌, ◌≤◌, ◌≡◌, refl, Bool, true, false, Option, none, some, List, [], ◌∷◌, ℤ, ℤ_eq, ℕ_eq,
  arith, ◌==◌, if◌then◌else◌, ◌||◌, contains, erase,
}
use distributed_systems_chub.Session.KaThread.{
  KaThread, CvStatus, no_timeout, timeout, Output, nothing, exited, finish, expire, set_reactor,
  enqueue_event, block_until_event_acked, clear_reactor, answer, respond, wake, cancel,
}
use distributed_systems_chub.Session.KaThread.Events.{
  Call, keepalive, event, wakes, waits, step, run, or_same,
}

-- How often the call `r` was answered.
abbrev pub answers : ℕ → List Output → ℕ
answers r [] = 0
answers r (finish q ev ∷ os) = (if q == r then 1 else 0) + answers r os
answers r (nothing ∷ os) = answers r os
answers r (exited ∷ os) = answers r os
answers r (expire sid ∷ os) = answers r os

-- How often a keepalive call `r` came in.
abbrev pub arrivals : ℕ → List Call → ℕ
arrivals r [] = 0
arrivals r (keepalive q e a ∷ cs) = (if q == r then 1 else 0) + arrivals r cs
arrivals r (event fh ∷ cs) = arrivals r cs
arrivals r (wakes status ∷ cs) = arrivals r cs
arrivals r (waits eid ∷ cs) = arrivals r cs

abbrev pub open_calls : ℕ → Option ℕ → ℕ
open_calls r none = 0
open_calls r (some q) = if q == r then 1 else 0

answer_bound :
    (r : ℕ) (t : KaThread) (q : ℕ) (evs : List (ℤ × ℤ))
    → t.reactor ≡ some q
    → answers r ((answer t q evs).1 ∷ []) + open_calls r (answer t q evs).0.reactor
      ≤ open_calls r t.reactor
unfolding answer clear_reactor
answer_bound r t q [] h = omega arith
answer_bound r t q (ev ∷ evs) h = ground arith

respond_bound :
    (r : ℕ) (t : KaThread) (status : CvStatus) (q e : Option ℕ)
    → t.reactor ≡ q
    → answers r ((respond t status q e).1 ∷ []) + open_calls r (respond t status q e).0.reactor
      ≤ open_calls r t.reactor
unfolding respond clear_reactor cancel
respond_bound r t timeout (some q) (some e) h = ground arith
respond_bound r t no_timeout (some q) (some e) h = answer_bound r t q t.event_queue h
respond_bound r t timeout (some q) none h = omega arith
respond_bound r t timeout none e h = omega arith
respond_bound r t no_timeout (some q) none h = omega arith
respond_bound r t no_timeout none e h = omega arith

wake_bound :
    (r : ℕ) (t : KaThread) (status : CvStatus)
    → answers r ((wake t status).1 ∷ []) + open_calls r (wake t status).0.reactor
      ≤ open_calls r t.reactor
unfolding wake
wake_bound r t status = split t.cancelled
  where
    split :
        (b : Bool)
        → let w : KaThread × Output =
            (if b then (t, exited) else respond t status t.reactor t.res) in
          answers r (w.1 ∷ []) + open_calls r w.0.reactor ≤ open_calls r t.reactor
    split true = omega arith
    split false = respond_bound r t status t.reactor t.res refl

answers-cons :
    (r : ℕ) (o : Output) (os : List Output) → answers r (o ∷ os) ≡ answers r (o ∷ []) + answers r os
answers-cons r (finish q ev) os = omega arith
answers-cons r nothing os = omega arith
answers-cons r exited os = omega arith
answers-cons r (expire sid) os = omega arith

waits_reactor :
    (t : KaThread) (eid : ℤ) → (or_same t (block_until_event_acked t eid)).reactor ≡ t.reactor
unfolding block_until_event_acked
waits_reactor t eid = split (contains t.acked_events eid || t.cancelled)
  where
    split :
        (b : Bool)
        → (or_same t (
            if b
            then some (record t { acked_events = erase eid t.acked_events })
            else none)).reactor
          ≡ t.reactor
    split true = refl
    split false = refl

-- Over any calls and wake-ups, a keepalive call is answered at most as often as it came in, and the
-- call that the thread still holds counts as not yet answered: no reactor is finished twice.
pub answered_once :
    (r : ℕ) (t : KaThread) (cs : List Call)
    → answers r (run t cs).1 + open_calls r (run t cs).0.reactor
      ≤ arrivals r cs + open_calls r t.reactor
unfolding run step set_reactor enqueue_event
answered_once r t [] = omega arith
answered_once r t (keepalive q e a ∷ cs) = ground (arith, answered_once r (set_reactor t q e a) cs)
answered_once r t (event fh ∷ cs) = answered_once r (enqueue_event t fh).0 cs
answered_once r t (wakes status ∷ cs) = omega (
  arith,
  answers-cons r (wake t status).1 (run (wake t status).0 cs).1,
  wake_bound r t status,
  answered_once r (wake t status).0 cs,
)
answered_once r t (waits eid ∷ cs) =
    let t' : KaThread = or_same t (block_until_event_acked t eid) in
    let rest = answered_once r t' cs in omega (arith, rest, ap (open_calls r) (waits_reactor t eid))
