-- ===== src/Server/Events.antt =====
-- server.cpp, notify_events: its own copy of SkinnyImpl.cpp's, for the sessions that expire.
use mathlib.Core.Path.{fun_ext}
use mathlib.Core.List.{append_assoc, append-nil}
use distributed_systems_chub.Prelude.{◌≡◌, refl, sym, ap, ◌∙◌, List, [], ◌∷◌, ◌++◌, Text, ℤ}
use distributed_systems_chub.Exec.{Exec, Result, ok, fault, continue, pure, ◌>>=◌, ◌>>◌}
use distributed_systems_chub.Dict.{Dict}
use distributed_systems_chub.StateMachine.State.{State, find_session, file_at}
use distributed_systems_chub.Session
use distributed_systems_chub.Store.{File}
use distributed_systems_chub.Skinny.{Server}
use distributed_systems_chub.Skinny.Notify.{
  notify_subscriber, notify_all, notify_events, notify_each,
}

-- The loop over the subscribers; `vt` has the events that a thread waits for so far.
unfoldable pub notify_loop : Text → Dict ℤ ℤ → List (ℤ × ℤ) → Exec State (List (ℤ × ℤ))
unfolding notify_subscriber
notify_loop key [] vt = pure vt
notify_loop key ((sid, fh) ∷ subscribers) vt = do
  session ← find_session sid
  ws ← notify_subscriber key sid fh session
  notify_loop key subscribers (vt ++ ws)

unfoldable pub notify_file : Server → Text → Exec State (Unit {0})
unfolding notify_loop
notify_file server key = do
  file ← file_at key
  vt ← notify_loop key file.subscribers []
  server.join vt

-- The files that the end of the session has changed.
unfoldable pub notify_files : Server → List Text → Exec State (Unit {0})
unfolding notify_file
notify_files server [] = pure tt
notify_files server (key ∷ keys) = do notify_file server key; notify_files server keys

-- The events `vt` stand before those of a run.
abbrev prepended : List (ℤ × ℤ) → Result (List (ℤ × ℤ)) × State → Result (List (ℤ × ℤ)) × State
prepended vt (ok ws, s) = (ok (vt ++ ws), s)
prepended vt (fault e, s) = (fault e, s)

prepended-append :
    (vt ws : List (ℤ × ℤ)) (run : Result (List (ℤ × ℤ)) × State)
    → prepended (vt ++ ws) run ≡ prepended vt (continue run.0 (λ rest. pure (ws ++ rest)) run.1)
unfolding pure
prepended-append vt ws (ok rest, s) = ap (λ l. (ok l, s)) (append_assoc vt ws rest)
prepended-append vt ws (fault e, s) = refl

-- After one subscriber, if the loops agree on the others.
both_go_on :
    (key : Text) (subscribers : Dict ℤ ℤ) (vt : List (ℤ × ℤ)) (run : Result (List (ℤ × ℤ)) × State)
    → ((vt' : List (ℤ × ℤ)) (s : State)
        → notify_loop key subscribers vt' s ≡ prepended vt' (notify_all key subscribers s))
    → continue run.0 (λ ws. notify_loop key subscribers (vt ++ ws)) run.1
      ≡ prepended vt
          (continue run.0 (λ ws. notify_all key subscribers >>= λ rest. pure (ws ++ rest)) run.1)
unfolding ◌>>=◌
both_go_on key subscribers vt (ok ws, s) ih =
    ih (vt ++ ws) s ∙ prepended-append vt ws (notify_all key subscribers s)
both_go_on key subscribers vt (fault e, s) ih = refl

notify_loop-notify_all :
    (key : Text) (subscribers : Dict ℤ ℤ) (vt : List (ℤ × ℤ)) (s : State)
    → notify_loop key subscribers vt s ≡ prepended vt (notify_all key subscribers s)
unfolding notify_loop notify_all find_session
notify_loop-notify_all key [] vt s = ap (λ l. (ok l, s)) (sym (append-nil vt))
notify_loop-notify_all key ((sid, fh) ∷ subscribers) vt s =
    both_go_on key subscribers vt (notify_subscriber key sid fh (Session.find_session s.sdb sid) s)
      (λ vt' t. notify_loop-notify_all key subscribers vt' t)

prepended-nil : (run : Result (List (ℤ × ℤ)) × State) → prepended [] run ≡ run
prepended-nil (ok ws, s) = refl
prepended-nil (fault e, s) = refl

same_loop :
    (key : Text) (subscribers : Dict ℤ ℤ)
    → notify_loop key subscribers [] ≡ notify_all key subscribers
same_loop key subscribers =
    fun_ext (λ s. notify_loop-notify_all key subscribers [] s ∙ prepended-nil _)

notify_file-notify_events :
    (server : Server) (key : Text) → notify_file server key ≡ notify_events server key
unfolding notify_file notify_events
notify_file-notify_events server key =
    ap
      (λ (loop : File → Exec State (List (ℤ × ℤ))).
        file_at key >>= λ file. loop file >>= λ vt. server.join vt)
      (fun_ext (λ file. same_loop key file.subscribers))

-- server.cpp's copy does what the handlers' notify_events does, for any files.
pub notify_files-notify_each :
    (server : Server) (keys : List Text) → notify_files server keys ≡ notify_each server keys
unfolding notify_files notify_each
notify_files-notify_each server [] = refl
notify_files-notify_each server (key ∷ keys) =
    ap (λ (m : Exec State (Unit {0})). m >> notify_files server keys)
      (notify_file-notify_events server key)
    ∙ ap (λ (m : Exec State (Unit {0})). notify_events server key >> m)
        (notify_files-notify_each server keys)
