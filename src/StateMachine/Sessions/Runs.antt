-- ===== src/StateMachine/Sessions/Runs.antt =====
-- The sessions and the store across the handlers of StateMachine.cpp, and over a log.
use distributed_systems_chub.Prelude.{
  ℕ, suc, ◌+◌, ◌<◌, ◌≤◌, ◌≡◌, ◌∙◌, refl, sym, inl, inr, arith, int_max, int_succ, Option, none,
  some, List, [], ◌∷◌, Text, ℤ, ℤ_eq, pos, text_eq, length, to_int, subst,
}
use distributed_systems_chub.Exec.{Exec, pure}
use distributed_systems_chub.Exec.Keeps.{Keeps, Any}
use distributed_systems_chub.Dict.{get, get-put_cases}
use distributed_systems_chub.Store.{File}
use distributed_systems_chub.Session.{Entry}
use distributed_systems_chub.Session
use distributed_systems_chub.Action.{
  Action, open_action, close_action, start_session_action, end_session_action, acq_action,
  rel_action, set_content_action, delete_action, OpenAction,
}
use distributed_systems_chub.StateMachine.{apply, run}
use distributed_systems_chub.StateMachine.State.{State, find_session}
use distributed_systems_chub.StateMachine.Open.{open_session, open_file}
use distributed_systems_chub.StateMachine.Close.{start_session}
use distributed_systems_chub.StateMachine.Files.{Kept}
use distributed_systems_chub.StateMachine.Files.Rules.{Looked, option-Looked}
use distributed_systems_chub.StateMachine.Files.Handlers.{
  open_session-Keeps, close-Keeps, acquire-Keeps, release-Keeps,
}
use distributed_systems_chub.StateMachine.Files.Runs.{
  end_session-Keeps, set_content-Keeps, delete_file-Keeps,
}
use distributed_systems_chub.StateMachine.Sessions.Touched.{
  map-IsAligned, touched-InStore, touched_before, touch_twice, touched-SessionsOk, touched,
}
use distributed_systems_chub.StateMachine.Sessions.{
  IsAligned, InStore, SessionsOk, Stays, Stays-inv, IsAligned-inv, IsAligned-added,
}

-- What the handlers keep, from the state `s` on.
abbrev KeptFrom : ℕ → State → State → Type 0
KeptFrom m s = Kept (Stays (InStore s)) (IsAligned (InStore s) m) (pos m)

Stays-cases :
    (s : State) (p : Text) (o : Option File)
    → Stays (InStore s) p o
    → InStore s p
    → (f : File) × (o ≡ some f)
Stays-cases s p none h there = absurd (h there)
Stays-cases s p (some f) h there = (f, refl)

own-Stays : (s : State) (p : Text) (o : Option File) → get s.ds p ≡ o → Stays (InStore s) p o
own-Stays s p none e = λ (f, there). cc
own-Stays s p (some f) e = tt

from_start : (m : ℕ) (s : State) → SessionsOk m s → KeptFrom m s s
from_start m s h = record {
  files = record { at = λ p. own-Stays s p (get s.ds p) refl };
  entries = h.entry;
  counter = h.counter;
}

at_end : (m : ℕ) (s t : State) → KeptFrom m s t → SessionsOk m t
at_end m s t h = record {
  counter = h.counter;
  entry = λ id e found.
      map-IsAligned id e (λ p there. Stays-cases s p (get t.ds p) (h.files.at p) there)
        (omega arith) (h.entries id e found);
}

by_Keeps :
    {A : Type 0} (n : ℕ) (s : State) (m : Exec State A)
    → Keeps (KeptFrom n s) Any m
    → SessionsOk n s
    → SessionsOk n (m s).1
by_Keeps n s m k h = at_end n s (m s).1 (k.state s (from_start n s h))

new-IsAligned :
    {P : Text → Type 0} (m : ℕ) (next id : ℤ)
    → next ≡ id
    → next ≡ pos m
    → IsAligned P (suc m) id (record { id = next; v = []; inum = []; kathread = none })
new-IsAligned m next id q e = record {
  number = q;
  old = (m, sym q ∙ e, omega arith);
  numbered = refl;
  named = λ i key found. cc;
}

start_session-SessionsOk :
    (m : ℕ) (s : State) → m < int_max → SessionsOk m s → SessionsOk (suc m) (start_session s).1
unfolding start_session Session.create_session int_succ Session.find_session
start_session-SessionsOk m s lt h = record {
  counter = ground (arith, h.counter);
  entry = λ id e found.
      elim (get-put_cases s.sdb.session_db s.sdb.next_id id
        (record { id = s.sdb.next_id; v = []; inum = []; kathread = none }) e found) [
          | inl (q, r) ↦
              subst (IsAligned _ (suc m) id) r (new-IsAligned m s.sdb.next_id id q h.counter)
          | inr before ↦ map-IsAligned id e (λ p there. there) (omega arith) (h.entry id e before)
        ];
}

open_touched :
    (s : State) (a : OpenAction) (e : Entry)
    → open_session a (some e) (touched s a.path) ≡ open_session a (some e) s
unfolding open_session find_session
open_touched s a e = rw (touch_twice s a.path)

open_session-SessionsOk :
    (m : ℕ) (s : State) (a : OpenAction) (o : Option Entry)
    → Looked (IsAligned (InStore s) m) (to_int a.session_id) o
    → SessionsOk m s
    → SessionsOk m (open_session a o s).1
unfolding open_session pure find_session
open_session-SessionsOk m s a none fine h = h
open_session-SessionsOk m s a (some e) fine h =
    let t = touched s a.path in
    let later =
      map-IsAligned (to_int a.session_id) e (touched_before s a.path) (omega arith) fine in
    let kept =
      open_session-Keeps Stays-inv (IsAligned-inv m) a (some e)
        (λ id inum f. IsAligned-added m a.path id inum f (touched-InStore s a.path)) later in
    subst (λ r. SessionsOk m r.1) (open_touched s a e)
      (by_Keeps m t (open_session a (some e)) kept (touched-SessionsOk m s a.path h))

open_file-SessionsOk :
    (m : ℕ) (s : State) (a : OpenAction) → SessionsOk m s → SessionsOk m (open_file a s).1
unfolding open_file find_session
open_file-SessionsOk m s a h =
    let o = Session.find_session s.sdb (to_int a.session_id) in
    open_session-SessionsOk m s a o
      (option-Looked (IsAligned (InStore s) m) _ o (h.entry (to_int a.session_id))) h

-- A handler keeps the sessions aligned, with one number more if it starts a session.
apply-SessionsOk :
    (m : ℕ) (a : Action) (s : State)
    → m < int_max
    → SessionsOk m s
    → (k : ℕ) × (k ≤ suc m) × SessionsOk k (apply a s).1
unfolding apply
apply-SessionsOk m (open_action a) s lt h = (m, omega arith, open_file-SessionsOk m s a h)
apply-SessionsOk m (close_action a) s lt h =
    (m, omega arith, by_Keeps m s _ (close-Keeps Stays-inv (IsAligned-inv m) a) h)
apply-SessionsOk m start_session_action s lt h =
    (suc m, omega arith, start_session-SessionsOk m s lt h)
apply-SessionsOk m (end_session_action a) s lt h =
    (m, omega arith, by_Keeps m s _ (end_session-Keeps Stays-inv (IsAligned-inv m) a) h)
apply-SessionsOk m (acq_action a) s lt h =
    (m, omega arith, by_Keeps m s _ (acquire-Keeps Stays-inv (IsAligned-inv m) a) h)
apply-SessionsOk m (rel_action a) s lt h =
    (m, omega arith, by_Keeps m s _ (release-Keeps Stays-inv (IsAligned-inv m) a) h)
apply-SessionsOk m (set_content_action a) s lt h =
    (m, omega arith, by_Keeps m s _ (set_content-Keeps Stays-inv (IsAligned-inv m) a) h)
apply-SessionsOk m (delete_action a) s lt h =
    (m, omega arith, by_Keeps m s _ (delete_file-Keeps Stays-inv (IsAligned-inv m) a) h)

pub run-SessionsOk :
    (m : ℕ) (log : List Action) (s : State)
    → m + length log ≤ int_max
    → SessionsOk m s
    → (k : ℕ) × (k ≤ m + length log) × SessionsOk k (run log s)
unfolding run
run-SessionsOk m [] s le h = (m, omega arith, h)
run-SessionsOk m (a ∷ log) s le h =
    let (k, step, next) = apply-SessionsOk m a s (omega arith) h in
    let (n, steps, end) = run-SessionsOk k log (apply a s).1 (omega arith) next in
    (n, omega arith, end)
