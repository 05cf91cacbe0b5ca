-- ===== src/Skinny/Mutexes/Answered.antt =====
-- Calls that never wait for each other: those whose actions are applied without a mutex.
use distributed_systems_chub.Prelude.{ℕ, refl, List, [], ◌∷◌, Text, ℕ_eq}
use distributed_systems_chub.Dict.{Dict}
use distributed_systems_chub.Action.{
  open_action, close_action, end_session_action, delete_action, Action, start_session_action,
  acq_action, rel_action, set_content_action,
}
use distributed_systems_chub.StateMachine.{apply, run}
use distributed_systems_chub.StateMachine.State.{State}
use distributed_systems_chub.Skinny.Mutexes.{Threads, AllFree, applied, Reach, here, next, locks}

-- Acquiring, releasing, writing and starting a session.
abbrev pub NeedsNone : Action → Type 0
NeedsNone (acq_action a) = Unit
NeedsNone (rel_action a) = Unit
NeedsNone (set_content_action a) = Unit
NeedsNone start_session_action = Unit
NeedsNone _ = ⊥

abbrev pub AllNeedNone : List (ℕ × Action) → Type 0
AllNeedNone [] = Unit
AllNeedNone ((call, a) ∷ pending) = NeedsNone a × AllNeedNone pending

abbrev pub actions : List (ℕ × Action) → List Action
actions [] = []
actions ((call, a) ∷ pending) = a ∷ actions pending

free_of : (held : Dict Text ℕ) (a : Action) (s : State) → NeedsNone a → AllFree held (locks a s)
unfolding locks
free_of held (acq_action a) s h = tt
free_of held (rel_action a) s h = tt
free_of held (set_content_action a) s h = tt
free_of held start_session_action s h = tt
free_of held (open_action a) s h = elim h [ ]
free_of held (close_action a) s h = elim h [ ]
free_of held (end_session_action a) s h = elim h [ ]
free_of held (delete_action a) s h = elim h [ ]

Reach-trans : {u v w : Threads} → Reach u v → Reach v w → Reach u w
Reach-trans r here = r
Reach-trans r (next t st) = next (Reach-trans r t) st

-- Whatever mutexes are held: where every entry that is pending acquires or releases a lock, writes
-- a content or starts a session, all of them can be applied, in the order of the log, and no call
-- waits any more.
pub all_answered :
    (pending : List (ℕ × Action)) (s : State) (held : Dict Text ℕ)
    → AllNeedNone pending
    → Reach
        (record { state = s; pending = pending; held = held })
        (record { state = run (actions pending) s; pending = []; held = held })
unfolding run
all_answered [] s held h = here
all_answered ((call, a) ∷ pending) s held h =
    Reach-trans
      (next here (
        applied (record { state = s; pending = (call, a) ∷ pending; held = held }) call a pending
          refl (free_of held a s h.0)))
      (all_answered pending (apply a s).1 held h.1)
