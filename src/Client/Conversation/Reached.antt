-- ===== src/Client/Conversation/Reached.antt =====
-- The events of a session: the threads of Session.cpp and of clientlib.cpp together.
use distributed_systems_chub.Client.{Client}
use distributed_systems_chub.Prelude.{
  ap, if◌then◌else◌, Bool-cases, ◌∙◌, erase, ℕ, zero, get_elem?, subst, suc, ◌≡◌, ◌⊎◌, inl, inr,
  arith, refl, true, false, none, some, List, [], ◌∷◌, ℤ, ℤ_eq, length, contains, contains-insert,
}
use distributed_systems_chub.Session.KaThread.{
  KaThread, set_reactor, block_until_event_acked, clear_reactor,
}
use distributed_systems_chub.Skinny.Sessions.{acked_or_minus_one}
use distributed_systems_chub.Client.Calls.{cached, forget}
use distributed_systems_chub.Client.KeepAlive.{keep_alive, connected}
use distributed_systems_chub.Client.Coherence.{cached-event}
use distributed_systems_chub.Client.Conversation.{Talk, call, converse}

-- The client has acknowledged the event and has no content of its handle any more.
record Reached (t : Talk) (x : ℤ × ℤ) : Type 0 where
  acked : contains t.thread.acked_events x.0 ≡ true
  forgotten : cached t.client x.1 ≡ none

-- The client knows of the event, and will acknowledge it with the next call.
record Told (t : Talk) (x : ℤ × ℤ) : Type 0 where
  next : t.eid ≡ some x.0
  forgotten : cached t.client x.1 ≡ none

-- The talk after a call that met an empty queue, and after one that took an event.
abbrev unanswered : ℕ → Talk → Talk
unanswered r t = record t { thread = set_reactor t.thread r r (acked_or_minus_one t.eid) }

abbrev told : ℕ → ℤ × ℤ → List (ℤ × ℤ) → Talk → Talk
told r ev q t = record {
  thread = clear_reactor (record (unanswered r t).thread { event_queue = q });
  client = forget (connected t.client) ev.1;
  eid = some ev.0;
}

call-unanswered :
    (r : ℕ) (t : Talk)
    → t.thread.cancelled ≡ false
    → t.thread.event_queue ≡ []
    → call r t ≡ unanswered r t
unfolding call
call-unanswered r t live e = rw (live, e)

call-told :
    (r : ℕ) (ev : ℤ × ℤ) (q : List (ℤ × ℤ)) (t : Talk)
    → t.thread.cancelled ≡ false
    → t.thread.event_queue ≡ ev ∷ q
    → call r t ≡ told r ev q t
unfolding call
call-told r ev q t live e = rw (live, e)

-- What a call does to an event that was told or reached.
unanswered-Reached :
    (r : ℕ) (t : Talk) (x : ℤ × ℤ) → Told t x ⊎ Reached t x → Reached (unanswered r t) x
unfolding set_reactor
unanswered-Reached r t x (inl h) = record {
  acked =
      ground (arith, h.next, contains-insert (acked_or_minus_one t.eid) x.0 t.thread.acked_events);
  forgotten = h.forgotten;
}
unanswered-Reached r t x (inr h) = record {
  acked =
      ground (arith, h.acked, contains-insert (acked_or_minus_one t.eid) x.0 t.thread.acked_events);
  forgotten = h.forgotten;
}

told-Reached :
    (r : ℕ) (ev x : ℤ × ℤ) (q : List (ℤ × ℤ)) (t : Talk)
    → Told t x ⊎ Reached t x
    → Reached (told r ev q t) x
unfolding clear_reactor
told-Reached r ev x q t h =
    let before = unanswered-Reached r t x h in
    record {
      acked = before.acked;
      forgotten = ground (arith, before.forgotten, cached-event t.client ev.1 x.1);
    }

told-Told : (r : ℕ) (ev : ℤ × ℤ) (q : List (ℤ × ℤ)) (t : Talk) → Told (told r ev q t) ev
told-Told r ev q t = record {
  next = refl;
  forgotten = ground (arith, cached-event t.client ev.1 ev.1);
}

converse-cons :
    (r : ℕ) (rs : List ℕ) (t : Talk)
    → t.client.cancelled ≡ false
    → converse (r ∷ rs) t ≡ converse rs (call r t)
unfolding converse
converse-cons r rs t on = ap (λ b. if b then t else converse rs (call r t)) on

connected-cancelled : (c : Client) → (connected c).cancelled ≡ c.cancelled
unfolding keep_alive
connected-cancelled c = elim (Bool-cases c.has_conn) [ inl on ↦ rw on | inr off ↦ rw off ]

told-on :
    (r : ℕ) (ev : ℤ × ℤ) (q : List (ℤ × ℤ)) (t : Talk)
    → t.client.cancelled ≡ false
    → (told r ev q t).client.cancelled ≡ false
unfolding keep_alive
told-on r ev q t on = connected-cancelled t.client ∙ on

converse-Reached :
    (q : List (ℤ × ℤ)) (rs : List ℕ) (t : Talk) (x : ℤ × ℤ)
    → t.thread.cancelled ≡ false
    → t.client.cancelled ≡ false
    → t.thread.event_queue ≡ q
    → length rs ≡ suc (length q)
    → ((i : ℕ) × (get_elem? q i ≡ some x)) ⊎ (Told t x ⊎ Reached t x)
    → Reached (converse rs t) x
unfolding converse
converse-Reached q [] t x live on e n h = absurd (omega (arith, n))
converse-Reached [] (r ∷ []) t x live on e n (inl (i, m)) = cc
converse-Reached [] (r ∷ []) t x live on e n (inr h) =
    rw (converse-cons r [] t on, call-unanswered r t live e) (unanswered-Reached r t x h)
converse-Reached [] (r ∷ s ∷ rs) t x live on e n h = absurd (omega (arith, n))
converse-Reached (ev ∷ q) (r ∷ rs) t x live on e n (inl (zero, m)) =
    let first : ev ≡ x = cc in
    rw (converse-cons r rs t on, call-told r ev q t live e)
      (converse-Reached q rs (told r ev q t) x live (told-on r ev q t on) refl (omega arith)
        (inr (inl (subst (Told (told r ev q t)) first (told-Told r ev q t)))))
converse-Reached (ev ∷ q) (r ∷ rs) t x live on e n (inl (suc i, m)) =
    rw (converse-cons r rs t on, call-told r ev q t live e)
      (converse-Reached q rs (told r ev q t) x live (told-on r ev q t on) refl (omega arith)
        (inl (i, m)))
converse-Reached (ev ∷ q) (r ∷ rs) t x live on e n (inr h) =
    rw (converse-cons r rs t on, call-told r ev q t live e)
      (converse-Reached q rs (told r ev q t) x live (told-on r ev q t on) refl (omega arith)
        (inr (inr (told-Reached r ev x q t h))))

-- The event's handle has nothing in the client's cache, and who waits for the event goes on.
abbrev pub EventReached : Talk → ℤ → ℤ → Type 0
EventReached t eid fh =
    (cached t.client fh ≡ none)
    × (thread : KaThread) × (block_until_event_acked t.thread eid ≡ some thread)

-- While neither the session's thread nor the client is cancelled and each wake-up comes before the timeout, one keepalive call more
-- than there are events in the queue brings every one of them to the client: the client has dropped
-- what it cached for the event's handle and has acknowledged the event, so that a server that waits
-- for the acknowledgement goes on.
pub events_reach_client :
    (t : Talk) (calls : List ℕ) (i : ℕ) (eid fh : ℤ)
    → t.thread.cancelled ≡ false
    → t.client.cancelled ≡ false
    → length calls ≡ suc (length t.thread.event_queue)
    → get_elem? t.thread.event_queue i ≡ some (eid, fh)
    → EventReached (converse calls t) eid fh
unfolding block_until_event_acked
events_reach_client t calls i eid fh live on enough found =
    let reached =
      converse-Reached t.thread.event_queue calls t (eid, fh) live on refl enough
        (inl (i, found)) in
    let after : KaThread = (converse calls t).thread in
    (
      reached.forgotten,
      record after { acked_events = erase eid after.acked_events },
      rw reached.acked,
    )
