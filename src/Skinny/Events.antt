-- ===== src/Skinny/Events.antt =====
-- SkinnyImpl.cpp, notify_events: the events that the subscribers' sessions get.
use distributed_systems_chub.Codegen.{names}
use distributed_systems_chub.Prelude.{
  ◌++◌, text_eq, true, false, Bool, ◌⊎◌, ◌≡◌, ◌≢◌, ◌∙◌, refl, sym, ap, Bool-cases, Option-cases,
  inl, inr, Option, some, none, List, [], ◌∷◌, Text, ℤ, ℤ_eq, minus_one, ◌==◌, eq_true, eq_false,
  if◌then◌else◌, not, ◌&&◌,
}
use distributed_systems_chub.Exec.{ok}
use distributed_systems_chub.Dict.{Dict, get, put, get-put_other, get-put_self}
use distributed_systems_chub.Store.{File}
use distributed_systems_chub.Session.{Entry, handle_inum, enqueue_event}
use distributed_systems_chub.Session
use distributed_systems_chub.StateMachine.State.{State, find_session}
use distributed_systems_chub.StateMachine.Kept.{enqueue_event-handles}
use distributed_systems_chub.Skinny.Notify.{to_await, notify_all, notify_subscriber}
use distributed_systems_chub.Skinny.Queued.{
  Queued, enqueue_each, enqueue_each-Queued, enqueue_each-handles,
}
use distributed_systems_chub.Skinny.Notified.{
  Known, Known-Notified, Notified, drop-Notified, live-Notified,
}

abbrev pub open_inum : Option ℤ → Bool
open_inum none = false
open_inum (some i) = not (i == minus_one)

-- The handles in the list under which the session is subscribed and which it has not closed.
unfoldable pub handles_of : ℤ → Entry → Dict ℤ ℤ → List ℤ
handles_of sid e [] = []
handles_of sid e ((j, fh) ∷ subscribers) =
    let rest = handles_of sid e subscribers in
    if j == sid && open_inum (handle_inum e fh) then fh ∷ rest else rest

handles_of-same :
    (sid : ℤ) (e e' : Entry) (subscribers : Dict ℤ ℤ)
    → e'.inum ≡ e.inum
    → handles_of sid e' subscribers ≡ handles_of sid e subscribers
unfolding handles_of handle_inum
handles_of-same sid e e' [] p = refl
handles_of-same sid e e' ((j, fh) ∷ subscribers) p = rw (p, handles_of-same sid e e' subscribers p)

abbrev found_open : ℤ → Option Entry → Bool
found_open fh none = false
found_open fh (some e) = open_inum (handle_inum e fh)

abbrev live_state : State → ℤ → Entry → ℤ → State
live_state s sid e fh = record s { sdb = Session.update_session s.sdb sid (enqueue_event e fh).0 }

abbrev Step : State → Text → ℤ → ℤ → File → Type 0
Step s key sid fh file =
    ((t : State) × (notify_subscriber key sid fh (Session.find_session s.sdb sid) s ≡ (ok [], t))
      × (t.sdb ≡ s.sdb)
      × Notified s t
      × ((e : Entry)
          → Session.find_session s.sdb sid ≡ some e
          → open_inum (handle_inum e fh) ≡ false))
    ⊎ ((e : Entry) × (ws : List (ℤ × ℤ)) × (notify_subscriber key sid fh
            (Session.find_session s.sdb sid) s
          ≡ (ok ws, live_state s sid e fh))
        × (Session.find_session s.sdb sid ≡ some e)
        × (open_inum (handle_inum e fh) ≡ true))

notify_subscriber-Step :
    (s : State) (key : Text) (sid fh : ℤ) (file : File)
    → get s.ds key ≡ some file
    → ((e : Entry)
        → Session.find_session s.sdb sid ≡ some e
        → (i : ℤ) × (handle_inum e fh ≡ some i))
    → Step s key sid fh file
unfolding notify_subscriber find_session
notify_subscriber-Step s key sid fh file h known =
    elim (Option-cases (Session.find_session s.sdb sid)) [
      | inl gone ↦ inl (_, rw (gone, h), refl, drop-Notified s key file sid h, (λ e live. cc))
      | inr (e, live) ↦
          let (i, at_i) = known e live in
          elim (Bool-cases (i == minus_one)) [
            | inl closed ↦ inl (
              _,
              rw (live, at_i, closed, h),
              refl,
              drop-Notified s key file sid h,
              (λ f found. sym (ap (found_open fh) (sym live ∙ found)) ∙ rw (at_i, closed)),
            )
            | inr opened ↦ inr (
              e,
              to_await sid (enqueue_event e fh).1,
              rw (live, at_i, opened),
              live,
              rw (at_i, opened),
            )
          ]
    ]

handles-skip :
    (sid j fh : ℤ) (e : Entry) (subscribers : Dict ℤ ℤ)
    → (j ≡ sid → open_inum (handle_inum e fh) ≡ false)
    → handles_of sid e ((j, fh) ∷ subscribers) ≡ handles_of sid e subscribers
unfolding handles_of
handles-skip sid j fh e subscribers h = elim (ℤ_eq.dec j sid) [
  | yes p ↦ rw (eq_true p, h p)
  | no q ↦ rw (eq_false q)
]

handles-take :
    (sid j fh : ℤ) (e : Entry) (subscribers : Dict ℤ ℤ)
    → j ≡ sid
    → open_inum (handle_inum e fh) ≡ true
    → handles_of sid e ((j, fh) ∷ subscribers) ≡ fh ∷ handles_of sid e subscribers
unfolding handles_of
handles-take sid j fh e subscribers p opened = rw (eq_true p, opened)

find-update :
    (db : Session.Db) (j sid : ℤ) (e : Entry)
    → j ≡ sid
    → Session.find_session (Session.update_session db j e) sid ≡ some e
unfolding Session.find_session Session.update_session
find-update db j sid e p = ap (get (put db.session_db j e)) (sym p) ∙ get-put_self db.session_db j e

find-update_other :
    (db : Session.Db) (j sid : ℤ) (e : Entry)
    → j ≢ sid
    → Session.find_session (Session.update_session db j e) sid ≡ Session.find_session db sid
unfolding Session.find_session Session.update_session
find-update_other db j sid e q = get-put_other db.session_db j sid e q

some-inj : {f e : Entry} → some f ≡ some e → f ≡ e
some-inj p = cc

module _ (key : Text) (sid : ℤ) where
  -- What the loop makes of the session `sid`.
  abbrev pub Enqueued : State → Entry → Dict ℤ ℤ → Type 0
  Enqueued s e subscribers =
      (ws : List (ℤ × ℤ)) × (t : State) × (e' : Entry) × (notify_all key subscribers s ≡ (ok ws, t))
      × (Session.find_session t.sdb sid ≡ some e')
      × Queued e.kathread (handles_of sid e subscribers) e'.kathread
      × (e'.v ≡ e.v)
      × (e'.inum ≡ e.inum)

  -- The same, as the one entry after the other.
  abbrev EnqueuedEach : State → Entry → Dict ℤ ℤ → Type 0
  EnqueuedEach s e subscribers =
      (ws : List (ℤ × ℤ)) × (t : State) × (notify_all key subscribers s ≡ (ok ws, t))
      × (Session.find_session t.sdb sid ≡ some (enqueue_each e (handles_of sid e subscribers)))

  take-Enqueued :
      (f e : Entry) (j fh : ℤ) (subscribers : Dict ℤ ℤ)
      → j ≡ sid
      → f ≡ e
      → open_inum (handle_inum f fh) ≡ true
      → some
          (enqueue_each (enqueue_event f fh).0 (handles_of sid (enqueue_event f fh).0 subscribers))
        ≡ some (enqueue_each e (handles_of sid e ((j, fh) ∷ subscribers)))
  unfolding enqueue_each
  take-Enqueued f e j fh subscribers p same opened =
      ap (λ l. some (enqueue_each (enqueue_event f fh).0 l))
        (handles_of-same sid f _ subscribers (enqueue_event-handles f fh).1)
      ∙ ap (λ l. some (enqueue_each f l)) (sym (handles-take sid j fh f subscribers p opened))
      ∙ ap (λ g. some (enqueue_each g (handles_of sid g ((j, fh) ∷ subscribers)))) same

  notify_all-each :
      (s : State) (e : Entry) (file : File) (subscribers : Dict ℤ ℤ)
      → get s.ds key ≡ some file
      → Known s subscribers
      → Session.find_session s.sdb sid ≡ some e
      → EnqueuedEach s e subscribers
  unfolding notify_all find_session handles_of enqueue_each
  notify_all-each s e file [] h known live = ([], s, refl, live)
  notify_all-each s e file ((j, fh) ∷ subscribers) h (here, known) live =
      elim (notify_subscriber-Step s key j fh file h here) [
        | inl (t, ran, sdb, n, shut) ↦
            let (_, h') = n.files key file h in
            let (ws, t', rest, found) =
              notify_all-each t e _ subscribers h' (Known-Notified subscribers n.back known)
                (ap (λ db. Session.find_session db sid) sdb ∙ live) in
            (
              ws,
              t',
              rw (ran, rest),
              found
                  ∙ ap (λ l. some (enqueue_each e l))
                      (sym (
                        handles-skip sid j fh e subscribers
                          (λ p. shut e (ap (Session.find_session s.sdb) p ∙ live)))),
            )
        | inr (f, ws, ran, there, opened) ↦
            let n = live-Notified s j fh f there in
            let s' = live_state s j f fh in
            let known' = Known-Notified {s = s} {t = s'} subscribers n.back known in
            elim (ℤ_eq.dec j sid) [
              | yes p ↦
                  let same : f ≡ e =
                    some-inj (sym there ∙ ap (Session.find_session s.sdb) p ∙ live) in
                  let next = (enqueue_event f fh).0 in
                  let (ws', t', rest, found) =
                    notify_all-each s' next file subscribers h known'
                      (find-update s.sdb j sid next p) in
                  (
                    ws ++ ws',
                    t',
                    rw (ran, rest),
                    found ∙ take-Enqueued f e j fh subscribers p same opened,
                  )
              | no q ↦
                  let (ws', t', rest, found) =
                    notify_all-each s' e file subscribers h known'
                      (find-update_other s.sdb j sid _ q ∙ live) in
                  (
                    ws ++ ws',
                    t',
                    rw (ran, rest),
                    found
                        ∙ ap (λ l. some (enqueue_each e l))
                            (sym (handles-skip sid j fh e subscribers (λ p. absurd (q p)))),
                  )
            ]
      ]

  -- The loop ends, and a live session that has a thread gets one event for each of its open handles
  -- that is subscribed, in the order of the subscribers and under consecutive numbers, at the end of
  -- its thread's queue, and for no other handle, if the subscribers' handles are such that their
  -- sessions know them. A live session without a thread gets none. The session's handles stay.
  pub notify_all-events :
      (s : State) (e : Entry) (file : File) (subscribers : Dict ℤ ℤ)
      → get s.ds key ≡ some file
      → Known s subscribers
      → Session.find_session s.sdb sid ≡ some e
      → Enqueued s e subscribers
  notify_all-events s e file subscribers h known live =
      let (ws, t, ran, found) = notify_all-each s e file subscribers h known live in
      let handles = handles_of sid e subscribers in
      let (names, inums) = enqueue_each-handles e handles in
      (
        ws,
        t,
        enqueue_each e handles,
        ran,
        found,
        enqueue_each-Queued e handles e.kathread refl,
        names,
        inums,
      )
