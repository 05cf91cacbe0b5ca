-- ===== src/Skinny/Queued.antt =====
-- SkinnyImpl.cpp, notify_events, and Session.cpp, enqueue_event: the queue of a session that gets
-- several events.
use mathlib.Core.List.{append_assoc, append-nil}
use distributed_systems_chub.Session.KaThread
use distributed_systems_chub.Session.KaThread.{KaThread}
use distributed_systems_chub.Prelude.{
  int_succ, ◌++◌, text_eq, ◌≡◌, ◌∙◌, refl, sym, ap, Option, some, none, List, [], ◌∷◌, ℤ, ℤ_eq,
}
use distributed_systems_chub.Session.{Entry, enqueue_event}
use distributed_systems_chub.StateMachine.Kept.{enqueue_event-handles}

-- The events for the handles, under consecutive numbers.
unfoldable pub numbered : ℤ → List ℤ → List (ℤ × ℤ)
numbered eid [] = []
numbered eid (fh ∷ handles) = (eid, fh) ∷ numbered (int_succ eid) handles

-- What a session's thread makes of new events: the queue grows by them at its end and nothing else
-- that a client meets changes. A session without a thread stays as it is.
abbrev pub Queued : Option KaThread → List ℤ → Option KaThread → Type 0
Queued none handles after = after ≡ none
Queued (some t) handles after =
    (t' : KaThread) × (after ≡ some t')
    × (t'.event_queue ≡ t.event_queue ++ numbered t.event_id handles)
    × (t'.acked_events ≡ t.acked_events)
    × (t'.reactor ≡ t.reactor)
    × (t'.cancelled ≡ t.cancelled)

-- The entry after an event for each handle, in the order of the list.
unfoldable pub enqueue_each : Entry → List ℤ → Entry
enqueue_each e [] = e
enqueue_each e (fh ∷ handles) = enqueue_each (enqueue_event e fh).0 handles

pub enqueue_each-Queued :
    (e : Entry) (handles : List ℤ) (th : Option KaThread)
    → e.kathread ≡ th
    → Queued th handles (enqueue_each e handles).kathread
unfolding enqueue_each enqueue_event numbered KaThread.enqueue_event
enqueue_each-Queued e [] none p = p
enqueue_each-Queued e [] (some t) p = (t, p, sym (append-nil t.event_queue), refl, refl, refl)
enqueue_each-Queued e (fh ∷ handles) none p =
    let same : (enqueue_event e fh).0 ≡ e = rw p in
    ap (λ x. (enqueue_each x handles).kathread) same ∙ enqueue_each-Queued e handles none p
enqueue_each-Queued e (fh ∷ handles) (some t) p =
    let next : (enqueue_event e fh).0.kathread ≡ some (KaThread.enqueue_event t fh).0 = rw p in
    let (t', q, queue, acked, reactor, cancelled) =
      enqueue_each-Queued (enqueue_event e fh).0 handles _ next in
    (
      t',
      q,
      queue
          ∙ append_assoc t.event_queue ((t.event_id, fh) ∷ [])
              (numbered (int_succ t.event_id) handles),
      acked,
      reactor,
      cancelled,
    )

pub enqueue_each-handles :
    (e : Entry) (handles : List ℤ)
    → ((enqueue_each e handles).v ≡ e.v) × ((enqueue_each e handles).inum ≡ e.inum)
unfolding enqueue_each
enqueue_each-handles e [] = (refl, refl)
enqueue_each-handles e (fh ∷ handles) =
    let (v, inum) = enqueue_each-handles (enqueue_event e fh).0 handles in
    let (v', inum', _) = enqueue_event-handles e fh in (v ∙ v', inum ∙ inum')
