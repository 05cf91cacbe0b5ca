-- ===== src/Demo/Alone.antt =====
-- demo/demo3.cpp: a contender that meets nobody else.
use distributed_systems_chub.Prelude.{
  ◌≡◌, ◌∙◌, ap, sym, refl, true, none, some, inl, inr, [], Text, text_eq, ℤ, ℤ_eq, to_int,
}
use distributed_systems_chub.Exec.{ok, ◌>>=◌}
use distributed_systems_chub.Dict.{put, get-put_self}
use distributed_systems_chub.Session.{Entry, handle_inum}
use distributed_systems_chub.Store.{File}
use distributed_systems_chub.StateMachine.State.{State}
use distributed_systems_chub.StateMachine.Kept.{SameHandles-refl}
use distributed_systems_chub.StateMachine.LockReplies.{Handle}
use distributed_systems_chub.Skinny.{Server, done}
use distributed_systems_chub.Skinny.AtOnce.{AtOnce}
use distributed_systems_chub.Skinny.Files.{rpc_get_content}
use distributed_systems_chub.Skinny.Notified.{Known, Known-Notified}
use distributed_systems_chub.Skinny.ReadBack.{Handle-Notified, rpc_get_content-at}
use distributed_systems_chub.Client.{Client}
use distributed_systems_chub.Client.Calls.{cached, remember}
use distributed_systems_chub.Client.Remote
use distributed_systems_chub.Client.Remote.{Remote}
use distributed_systems_chub.Client.Answering.{get_content-at, set_content-at, try_acquire-at}
use distributed_systems_chub.Demo.{Outcome, elected, contend}

-- The main function of demo3.cpp after the file is open.
abbrev pub read_and_contend : Server → ℤ → Text → Remote Outcome
read_and_contend server fh hostname = Remote.get_content server fh >>= contend server fh hostname

in_turn :
    (server : Server) (fh : ℤ) (hostname : Text) (w w' w'' after : Client × State)
    → Remote.get_content server fh w ≡ (ok [], w')
    → Remote.try_acquire server fh true w' ≡ (ok true, w'')
    → Remote.set_content server fh hostname w'' ≡ (ok tt, after)
    → read_and_contend server fh hostname w ≡ (ok elected, after)
unfolding contend ◌>>=◌
in_turn server fh hostname w w' w'' after p q r = rw (p, q, r) refl

-- Where the file exists and is empty and nobody has its lock, on a leader whose log answers at
-- once, and with subscribers that have handles that their sessions know: a contender that has the
-- file open at its instance, has not cached it and makes its calls one after the other is elected,
-- and every session with a handle of the file then reads its name.
pub contend_alone :
    {s : State} {e f : Entry} {key : Text} {file : File} (server : Server) (c : Client) (fh : ℤ)
    (hostname : Text) (other other_fh : ℤ)
    → AtOnce server
    → server.is_leader ≡ true
    → Handle s (to_int c.session_id) fh e key file
    → handle_inum e fh ≡ some file.instance_num
    → file.file_exists ≡ true
    → file.content ≡ []
    → file.lock_owners ≡ []
    → Known s file.subscribers
    → cached c fh ≡ none
    → Handle s (to_int other) other_fh f key file
    → (t : State) × (read_and_contend server fh hostname (c, s)
        ≡ (ok elected, (remember c fh [], t)))
      × (rpc_get_content server other other_fh t ≡ (ok (done hostname), t))
unfolding remember
contend_alone {s} {e} {f} {key} {file} server c fh hostname other other_fh once leader h at_inum
      there empty free known uncached k =
    let c' = remember c fh [] in
    elim (try_acquire-at {s = s} server c' fh
      (record { live = h.live; names = h.names; holds = h.holds }) once at_inum there) [
        | inr (held, _) ↦ absurd (held free)
        | inl (_, m, taken, acquired) ↦
            let file' : File = record file { meta = m } in
            let u : State = record s { ds = put s.ds key file' } in
            let here = get-put_self s.ds key file' in
            let h' : Handle u (to_int c.session_id) fh e key file' = record {
              live = h.live;
              names = h.names;
              holds = here;
            } in
            let (t, wrote, n) =
              set_content-at {s = u} server c' fh h' hostname once
                (at_inum ∙ ap some (sym taken.instance_kept)) (taken.exists ∙ there)
                (rw taken.subscribed (
                  Known-Notified {s = s} {t = u} file.subscribers
                    (record { at = (SameHandles-refl s).at }) known)) in
            let (_, _, k', same) =
              Handle-Notified (to_int other) other_fh n
                (record { live = k.live; names = k.names; holds = get-put_self u.ds key _ }) in
            (
              t,
              in_turn server fh hostname (c, s) (c', s) (c', u) (c', t)
                  (get_content-at server c fh h leader uncached
                    ∙ ap (λ x. (ok x, (remember c fh x, s))) empty)
                  acquired wrote,
              rpc_get_content-at server other other_fh leader k' ∙ ap (λ x. (ok (done x), t)) same,
            )
      ]
