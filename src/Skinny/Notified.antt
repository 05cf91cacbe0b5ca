-- ===== src/Skinny/Notified.antt =====
-- What a notification changes: the events of the subscribers' sessions and the subscribers of the
-- file, and nothing else.
use distributed_systems_chub.Prelude.{
  ◌++◌, ◌≡◌, ◌∙◌, refl, sym, some, Option-cases, inl, inr, List, [], ◌∷◌, Text, ℤ, ℤ_eq, text_eq,
  minus_one, ◌==◌, Bool-cases, arith, ap, at_int,
}
use distributed_systems_chub.Exec.{Exec, ok}
use distributed_systems_chub.Dict.{Dict, get, put, get-put, get-put_other, get-put_self, remove}
use distributed_systems_chub.Store.{File}
use distributed_systems_chub.Session.{Entry, handle_inum, enqueue_event}
use distributed_systems_chub.Session
use distributed_systems_chub.StateMachine.State.{State, find_session}
use distributed_systems_chub.StateMachine.Kept.{
  SameHandles, SameHandles-refl, SameHandles-trans, update-SameHandles, enqueue_event-handles,
}
use distributed_systems_chub.Skinny.Notify.{
  to_await, notify_all, notify_subscriber, drop_subscriber, notify_live,
}

abbrev pub with_subscribers : File → Dict ℤ ℤ → File
with_subscribers f subscribers = record f { meta = record f.meta { subscribers = subscribers } }

-- From `s` to `t`, files change in their subscribers alone, and sessions in no handle.
pub record Notified (s t : State) : Type 0 where
  pub files :
      (key : Text) (f : File)
      → get s.ds key ≡ some f
      → (subscribers : Dict ℤ ℤ) × (get t.ds key ≡ some (with_subscribers f subscribers))
  pub kept : SameHandles s t
  pub back : SameHandles t s

pub Notified-refl : (s : State) → Notified s s
Notified-refl s = record {
  files = λ key f h. (f.subscribers, h);
  kept = SameHandles-refl s;
  back = SameHandles-refl s;
}

pub Notified-trans : {r s t : State} → Notified r s → Notified s t → Notified r t
Notified-trans p q = record {
  files = λ key f h. let (_, h') = p.files key f h in q.files key _ h';
  kept = SameHandles-trans p.kept q.kept;
  back = SameHandles-trans q.back p.back;
}

-- Every handle in the list that belongs to a live session is one of the session's handles.
abbrev pub Known : State → Dict ℤ ℤ → Type 0
Known s [] = Unit
Known s ((sid, fh) ∷ subscribers) =
    ((e : Entry) → Session.find_session s.sdb sid ≡ some e → (i : ℤ) × (handle_inum e fh ≡ some i))
    × Known s subscribers

pub Known-Notified :
    {s t : State} (subscribers : Dict ℤ ℤ)
    → SameHandles t s
    → Known s subscribers
    → Known t subscribers
unfolding handle_inum
Known-Notified [] back known = tt
Known-Notified ((sid, fh) ∷ subscribers) back (here, rest) = (
  λ e live.
      let (e', live', _, same, _) = back.at sid e live in
      let (i, h) = here e' live' in (i, sym (ap (λ l. at_int l fh) same) ∙ h),
  Known-Notified subscribers back rest,
)

update-back :
    (s : State) (id : ℤ) (e e' : Entry)
    → Session.find_session s.sdb id ≡ some e
    → (e'.v ≡ e.v) × (e'.inum ≡ e.inum) × (e'.id ≡ e.id)
    → SameHandles (record s { sdb = Session.update_session s.sdb id e' }) s
unfolding Session.find_session Session.update_session
update-back s id e e' h (v, i, n) = record {
  at = λ j f found. elim (ℤ_eq.dec id j) [
    | yes q ↦
        let p : f ≡ e' = ground (arith, get-put s.sdb.session_db id j e') in
        (
          e,
          ground arith,
          sym (ap Entry.v p ∙ v),
          sym (ap Entry.inum p ∙ i),
          sym (ap Entry.id p ∙ n),
        )
    | no n ↦ (f, sym (get-put_other s.sdb.session_db id j e' n) ∙ found, refl, refl, refl)
  ];
}

pub live-Notified :
    (s : State) (id : ℤ) (fh : ℤ) (e : Entry)
    → Session.find_session s.sdb id ≡ some e
    → Notified s (record s { sdb = Session.update_session s.sdb id (enqueue_event e fh).0 })
live-Notified s id fh e h = record {
  files = λ key f q. (f.subscribers, q);
  kept = update-SameHandles s id e _ h (enqueue_event-handles e fh);
  back = update-back s id e _ h (enqueue_event-handles e fh);
}

pub drop-Notified :
    (s : State) (key : Text) (file : File) (sid : ℤ)
    → get s.ds key ≡ some file
    → Notified s
        (record s { ds = put s.ds key (with_subscribers file (remove file.subscribers sid)) })
drop-Notified s key file sid h = record {
  files = λ k f q. elim (text_eq.dec key k) [
    | yes p ↦
        let same : file ≡ f = ground arith in
        (
          remove file.subscribers sid,
          ap (get (put s.ds key (with_subscribers file (remove file.subscribers sid)))) (sym p)
              ∙ get-put_self s.ds key _
              ∙ ap (λ g. some (with_subscribers g (remove file.subscribers sid))) same,
        )
    | no n ↦ (f.subscribers, get-put_other s.ds key k _ n ∙ q)
  ];
  kept = record { at = (SameHandles-refl s).at };
  back = record { at = (SameHandles-refl s).at };
}

-- What one round of the loop leaves behind.
abbrev pub Round : State → Exec State (List (ℤ × ℤ)) → Type 0
Round s m = (ws : List (ℤ × ℤ)) × (t : State) × (m s ≡ (ok ws, t)) × Notified s t

drop-Round :
    {s : State} {file : File} (key : Text) (sid : ℤ)
    → get s.ds key ≡ some file
    → Round s (drop_subscriber key sid)
unfolding drop_subscriber find_session
drop-Round {s} {file} key sid h = ([], _, rw h, drop-Notified s key file sid h)

subscriber-Round :
    {s : State} {file : File} (key : Text) (sid fh : ℤ)
    → get s.ds key ≡ some file
    → ((e : Entry)
        → Session.find_session s.sdb sid ≡ some e
        → (i : ℤ) × (handle_inum e fh ≡ some i))
    → Round s (λ s. notify_subscriber key sid fh (Session.find_session s.sdb sid) s)
unfolding notify_subscriber notify_live find_session
subscriber-Round {s} {file} key sid fh h known =
    elim (Option-cases (Session.find_session s.sdb sid)) [
      | inl gone ↦ let (ws, t, r, n) = drop-Round {s = s} key sid h in (ws, t, rw gone r, n)
      | inr (e, live) ↦
          let (i, at_i) = known e live in
          elim (Bool-cases (i == minus_one)) [
            | inl closed ↦
                let (ws, t, r, n) = drop-Round {s = s} key sid h in
                (ws, t, rw (live, at_i, closed) r, n)
            | inr opened ↦ (
              to_await sid (enqueue_event e fh).1,
              record s { sdb = Session.update_session s.sdb sid (enqueue_event e fh).0 },
              rw (live, at_i, opened),
              live-Notified s sid fh e live,
            )
          ]
    ]

-- The loop ends, whatever the subscribers are.
pub notify_all-runs :
    {s : State} {file : File} (key : Text) (subscribers : Dict ℤ ℤ)
    → get s.ds key ≡ some file
    → Known s subscribers
    → Round s (notify_all key subscribers)
unfolding notify_all find_session
notify_all-runs {s} key [] h known = ([], s, refl, Notified-refl s)
notify_all-runs {s} {file} key ((sid, fh) ∷ subscribers) h (here, known) =
    let (ws, t, r, n) = subscriber-Round {s = s} key sid fh h here in
    let (_, h') = n.files key file h in
    let (ws', t', r', n') =
      notify_all-runs {s = t} key subscribers h' (Known-Notified subscribers n.back known) in
    (ws ++ ws', t', rw (r, r'), Notified-trans n n')
