-- ===== src/Skinny/ReadBack.antt =====
-- SkinnyImpl.cpp: a write and the reads after it, over a log that answers at once.
use distributed_systems_chub.Prelude.{
  ap, codes, ◌≡◌, ◌∙◌, refl, true, some, inl, inr, Text, text_eq, ℤ, ℤ_eq, pos, to_int,
}
use distributed_systems_chub.Exec.{ok}
use distributed_systems_chub.Dict.{get, put, get-put_self}
use distributed_systems_chub.Store.{File}
use distributed_systems_chub.Session.{Entry, handle_inum}
use distributed_systems_chub.Action.{response, SetContentAction, set_content_action}
use distributed_systems_chub.StateMachine.{apply}
use distributed_systems_chub.StateMachine.Contents.{set_content}
use distributed_systems_chub.StateMachine.State.{State, find_session}
use distributed_systems_chub.StateMachine.LockReplies.{Handle}
use distributed_systems_chub.StateMachine.Writing.{set_content_outcome}
use distributed_systems_chub.StateMachine.Kept.{SameHandles-refl}
use distributed_systems_chub.StateMachine.Instances.{same_key}
use distributed_systems_chub.Skinny.{Server, done, reply_res}
use distributed_systems_chub.Skinny.Notify.{notify_events}
use distributed_systems_chub.Skinny.Files.{
  rpc_set_content, written, rpc_get_content, get_session_content,
}
use distributed_systems_chub.Skinny.AtOnce.{AtOnce, append-AtOnce}
use distributed_systems_chub.Skinny.Notified.{
  Notified, Known, Known-Notified, notify_all-runs, with_subscribers,
}

abbrev pub with_content : File → Text → File
with_content file content = record file { content = content }

-- The state after the write, before the notification.
abbrev pub written_state : State → Text → File → Text → State
written_state s key file content = record s { ds = put s.ds key (with_content file content) }

pub notify_events-runs :
    {s : State} {file : File} (server : Server) (key : Text)
    → AtOnce server
    → get s.ds key ≡ some file
    → Known s file.subscribers
    → (t : State) × (notify_events server key s ≡ (ok tt, t)) × Notified s t
unfolding notify_events find_session
notify_events-runs {s} {file} server key once h known =
    let (ws, t, r, n) = notify_all-runs {s = s} key file.subscribers h known in
    (t, rw (h, r, once.quiet ws t), n)

pub rpc_get_content-at :
    {s : State} {e : Entry} {key : Text} {file : File} (server : Server) (session_id fh : ℤ)
    → server.is_leader ≡ true
    → Handle s (to_int session_id) fh e key file
    → rpc_get_content server session_id fh s ≡ (ok (done file.content), s)
unfolding rpc_get_content find_session
rpc_get_content-at server session_id fh leader h =
    rw (leader, h.live, get_session_content, h.names, h.holds)

pub Handle-Notified :
    {s t : State} {e : Entry} {key : Text} {file : File} (id fh : ℤ)
    → Notified s t
    → Handle s id fh e key file
    → (e' : Entry) × (file' : File) × Handle t id fh e' key file' × (file'.content ≡ file.content)
Handle-Notified {s} {t} {e} {key} {file} id fh n h =
    let (e', live, v, _, _) = n.kept.at id e h.live in
    let (subscribers, there) = n.files key file h.holds in
    (
      e',
      with_subscribers file subscribers,
      record { live = live; names = same_key e e' fh v ∙ h.names; holds = there },
      refl,
    )

set_content-runs :
    {s : State} {e : Entry} {key : Text} {file : File} (a : SetContentAction)
    → Handle s (to_int a.session_id) a.fh e key file
    → handle_inum e a.fh ≡ some file.instance_num
    → file.file_exists ≡ true
    → set_content a s ≡ (ok (response (pos 0) (codes "OK")), written_state s key file a.content)
set_content-runs a h opened there = elim (set_content_outcome a h opened) [
  | inl (_, _, r) ↦ r
  | inr (inl (n, _)) ↦ absurd (n refl)
  | inr (inr (_, gone, _)) ↦ cc
]

-- The write itself, with the notification of the file's subscribers.
pub rpc_set_content-runs :
    {s : State} {e : Entry} {key : Text} {file : File} (server : Server) (a : SetContentAction)
    → AtOnce server
    → Handle s (to_int a.session_id) a.fh e key file
    → handle_inum e a.fh ≡ some file.instance_num
    → file.file_exists ≡ true
    → Known s file.subscribers
    → (t : State) × (rpc_set_content server a s ≡ (ok (done tt), t))
      × Notified (written_state s key file a.content) t
unfolding apply rpc_set_content reply_res ℤ_eq find_session
rpc_set_content-runs {s} {e} {key} {file} server a once h opened there known =
    let s1 = written_state s key file a.content in
    let here : get s1.ds key ≡ some (with_content file a.content) = get-put_self s.ds key _ in
    let (t, ran, n) = notify_events-runs {s = s1} server key once here (
      Known-Notified {s = s} {t = s1} file.subscribers (record { at = (SameHandles-refl s).at })
        known) in
    (
      t,
      append-AtOnce server (set_content_action a) _ s s1 (response (pos 0) (codes "OK")) once
            (set_content-runs a h opened there) refl
          ∙ rw (h.live, written, h.names, ran),
      n,
    )

-- On a leader whose log answers at once, a write through a handle that was opened at the file's
-- instance, of a file that exists, succeeds if the file's subscribers have handles that their
-- sessions know; and every live session with a handle of the file then reads what was written,
-- whatever events the write has sent out.
pub set_then_get :
    {s : State} {e f : Entry} {key : Text} {file : File} (server : Server) (a : SetContentAction)
    (reader fh : ℤ)
    → AtOnce server
    → server.is_leader ≡ true
    → Handle s (to_int a.session_id) a.fh e key file
    → handle_inum e a.fh ≡ some file.instance_num
    → file.file_exists ≡ true
    → Known s file.subscribers
    → Handle s (to_int reader) fh f key file
    → (t : State) × (rpc_set_content server a s ≡ (ok (done tt), t))
      × (rpc_get_content server reader fh t ≡ (ok (done a.content), t))
set_then_get {s} {e} {f} {key} {file} server a reader fh once leader h opened there known k =
    let s1 = written_state s key file a.content in
    let (t, ran, n) = rpc_set_content-runs {s = s} server a once h opened there known in
    let (f', file', k', same) =
      Handle-Notified {s = s1} (to_int reader) fh n
        (record { live = k.live; names = k.names; holds = get-put_self s.ds key _ }) in
    (t, ran, rpc_get_content-at server reader fh leader k' ∙ ap (λ c. (ok (done c), t)) same)
