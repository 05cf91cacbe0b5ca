-- ===== src/StateMachine/Kept.antt =====
-- Which steps keep the handles of every session: the events of Session.cpp and the notification of
-- the owners of a deleted file.
use distributed_systems_chub.Prelude.{
  some, ◌≡◌, refl, ◌∙◌, inl, inr, ℤ, ℤ_eq, text_eq, List, [], ◌∷◌, arith, Option-cases,
}
use distributed_systems_chub.Exec.{ok}
use distributed_systems_chub.Dict.{get-put, get-put_other}
use distributed_systems_chub.Session.{Entry, handle_inum, fh_to_key, enqueue_event}
use distributed_systems_chub.Session
use distributed_systems_chub.StateMachine.State.{State, find_session}
use distributed_systems_chub.StateMachine.Contents.{notify_owners}

-- Every live session of `s` is live in `s'`, with the same handles.
pub record SameHandles (s s' : State) : Type 0 where
  pub at :
      (id : ℤ) (e : Entry)
      → Session.find_session s.sdb id ≡ some e
      → (e' : Entry) × (Session.find_session s'.sdb id ≡ some e')
        × (e'.v ≡ e.v)
        × (e'.inum ≡ e.inum)
        × (e'.id ≡ e.id)

pub SameHandles-refl : (s : State) → SameHandles s s
SameHandles-refl s = record { at = λ id e h. (e, h, refl, refl, refl) }

pub SameHandles-trans : {r s t : State} → SameHandles r s → SameHandles s t → SameHandles r t
SameHandles-trans p q = record {
  at = λ id e h.
      let (e', h', v, i, n) = p.at id e h in
      let (e'', h'', v', i', n') = q.at id e' h' in (e'', h'', v' ∙ v, i' ∙ i, n' ∙ n);
}

pub enqueue_event-handles :
    (e : Entry) (fh : ℤ)
    → ((enqueue_event e fh).0.v ≡ e.v)
      × ((enqueue_event e fh).0.inum ≡ e.inum)
      × ((enqueue_event e fh).0.id ≡ e.id)
unfolding enqueue_event
enqueue_event-handles e fh = ground arith

pub update-SameHandles :
    (s : State) (id : ℤ) (e e' : Entry)
    → Session.find_session s.sdb id ≡ some e
    → (e'.v ≡ e.v) × (e'.inum ≡ e.inum) × (e'.id ≡ e.id)
    → SameHandles s (record s { sdb = Session.update_session s.sdb id e' })
unfolding Session.find_session Session.update_session
update-SameHandles s id e e' h same = record {
  at = λ j f found. elim (ℤ_eq.dec id j) [
    | yes q ↦ (
      e',
      ground (arith, get-put s.sdb.session_db id j e'),
      ground arith,
      ground arith,
      ground arith,
    )
    | no n ↦ (f, get-put_other s.sdb.session_db id j e' n ∙ found, refl, refl, refl)
  ];
}

-- The notifications of the owners change neither the store nor any handle.
pub notify_owners-keeps :
    (fh : ℤ) (owners : List ℤ) (s : State)
    → (s' : State) × (notify_owners fh owners s ≡ (ok tt, s')) × (s'.ds ≡ s.ds) × SameHandles s s'
unfolding notify_owners find_session
notify_owners-keeps fh [] s = (s, refl, refl, SameHandles-refl s)
notify_owners-keeps fh (owner ∷ owners) s = elim (Option-cases (Session.find_session s.sdb owner)) [
  | inl e ↦ let (s', r, ds, same) = notify_owners-keeps fh owners s in (s', rw (e, r), ds, same)
  | inr (f, e) ↦
      let next : State = record s {
        sdb = Session.update_session s.sdb owner (enqueue_event f fh).0;
      } in
      let (s', r, ds, same) = notify_owners-keeps fh owners next in
      (
        s',
        rw (e, r),
        ds,
        SameHandles-trans (update-SameHandles s owner f _ e (enqueue_event-handles f fh)) same,
      )
]
