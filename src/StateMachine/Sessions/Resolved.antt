-- ===== src/StateMachine/Sessions/Resolved.antt =====
-- Handles and session numbers in the states that StateMachine.cpp reaches.
use distributed_systems_chub.Prelude.{
  ℕ, ◌<◌, ◌≤◌, ◌≡◌, ◌≢◌, ◌∙◌, refl, sym, arith, int_max, Option, none, some, List, Text, ℤ, ℤ_eq,
  pos, text_eq, length, get_elem?_lt,
}
use distributed_systems_chub.Exec.{ok}
use distributed_systems_chub.Dict.{get, get-put_other}
use distributed_systems_chub.Store.{File}
use distributed_systems_chub.Session.{Entry, handle_inum, fh_to_key}
use distributed_systems_chub.Session
use distributed_systems_chub.Action.{Action, start_session_return}
use distributed_systems_chub.Server.{initial}
use distributed_systems_chub.StateMachine.{run}
use distributed_systems_chub.StateMachine.State.{State, ok_text}
use distributed_systems_chub.StateMachine.Close.{start_session}
use distributed_systems_chub.StateMachine.LockReplies.{Handle}
use distributed_systems_chub.StateMachine.Sessions.{SessionsOk}
use distributed_systems_chub.StateMachine.Sessions.Runs.{run-SessionsOk}

initial-SessionsOk : SessionsOk 0 initial
unfolding initial Session.find_session get
initial-SessionsOk = record { counter = refl; entry = λ id e found. cc }

-- The handle names a path, at which the store has a file, and has an instance number.
abbrev pub Resolves : State → ℤ → ℕ → Entry → Type 0
Resolves s id fh e =
    (key : Text) × (file : File) × (inum : ℤ) × Handle s id (pos fh) e key file
    × (handle_inum e (pos fh) ≡ some inum)

aligned-Resolves :
    (m : ℕ) (s : State) (id : ℤ) (fh : ℕ) (e : Entry)
    → SessionsOk m s
    → Session.find_session s.sdb id ≡ some e
    → fh < length e.v
    → Resolves s id fh e
unfolding handle_inum fh_to_key
aligned-Resolves m s id fh e h found lt =
    let one = h.entry id e found in
    let (key, named) = get_elem?_lt e.v fh lt in
    let (file, there) = one.named fh key named in
    let (inum, numbered) = get_elem?_lt e.inum fh (omega (arith, one.numbered)) in
    (key, file, inum, record { live = found; names = named; holds = there }, numbered)

-- After every log of at most 2 ^ 31 - 1 actions, each handle that a live session was given names a
-- path at which the store has a file, and has an instance number.
pub handles_resolve :
    (log : List Action) (id : ℤ) (fh : ℕ) (e : Entry)
    → length log ≤ int_max
    → Session.find_session (run log initial).sdb id ≡ some e
    → fh < length e.v
    → Resolves (run log initial) id fh e
handles_resolve log id fh e short found lt =
    let (m, _, all) = run-SessionsOk 0 log initial (omega arith) initial-SessionsOk in
    aligned-Resolves m (run log initial) id fh e all found lt

-- A new session gets a number that no live session has, and no other session changes.
abbrev pub StartsFresh : State → Type 0
StartsFresh s =
    (n : ℕ) × ((start_session s).0 ≡ ok (start_session_return (pos 0) ok_text (pos n)))
    × (Session.find_session s.sdb (pos n) ≡ none)
    × ((id : ℤ)
        → id ≢ pos n
        → Session.find_session (start_session s).1.sdb id ≡ Session.find_session s.sdb id)

aligned-fresh :
    (m : ℕ) (s : State) (o : Option Entry)
    → SessionsOk m s
    → Session.find_session s.sdb (pos m) ≡ o
    → o ≡ none
aligned-fresh m s none h e = refl
aligned-fresh m s (some x) h e =
    let (n, same, lt) = (h.entry (pos m) x e).old in
    let same_number : m ≡ n = cc in absurd (omega (arith, lt, same_number))

-- After every log of at most 2 ^ 31 - 1 actions, the number that the next session gets is that of no
-- live session, and starting it changes no other session.
pub start_session-fresh : (log : List Action) → length log ≤ int_max → StartsFresh (run log initial)
unfolding start_session Session.create_session Session.find_session
start_session-fresh log short =
    let (m, _, all) = run-SessionsOk 0 log initial (omega arith) initial-SessionsOk in
    (
      m,
      rw all.counter,
      aligned-fresh m (run log initial) _ all refl,
      λ id n. get-put_other _ _ id _ (λ q. n (sym q ∙ all.counter)),
    )
