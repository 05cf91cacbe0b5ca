-- ===== src/Client/Answering.antt =====
-- clientlib.cpp over SkinnyImpl.cpp: what a client's calls come to on a server whose log answers at
-- once.
use distributed_systems_chub.Prelude.{
  ◌≡◌, ◌≢◌, ◌⊎◌, inl, inr, refl, true, false, none, some, [], Text, text_eq, ℤ, ℤ_eq, to_int,
}
use distributed_systems_chub.Exec.{ok}
use distributed_systems_chub.Dict.{put}
use distributed_systems_chub.Session.{Entry, handle_inum}
use distributed_systems_chub.Store.{File, FileMetaData}
use distributed_systems_chub.StateMachine.State.{State}
use distributed_systems_chub.StateMachine.LockReplies.{Handle, IsFree, Taken}
use distributed_systems_chub.Skinny.{Server}
use distributed_systems_chub.Skinny.AtOnce.{AtOnce}
use distributed_systems_chub.Skinny.Notified.{Notified, Known}
use distributed_systems_chub.Skinny.ReadBack.{
  written_state, rpc_set_content-runs, rpc_get_content-at,
}
use distributed_systems_chub.Client.{Client, invoke_rpc}
use distributed_systems_chub.Client.Calls.{cached, remember, client_get_content, client_send}
use distributed_systems_chub.Client.Locking.{client_acquire_outcome}
use distributed_systems_chub.Client.Remote.{get_content, set_content, try_acquire}

no_owners : (m : FileMetaData) → IsFree true m → m.lock_owners ≡ []
no_owners m (inl e) = e
no_owners m (inr (e, _)) = cc

module _ {s : State} {e : Entry} {key : Text} {file : File} (server : Server) (c : Client) (fh : ℤ)
    (h : Handle s (to_int c.session_id) fh e key file) where
  -- What is not in the cache is read from the server, and kept.
  pub get_content-at :
      server.is_leader ≡ true
      → cached c fh ≡ none
      → get_content server fh (c, s) ≡ (ok file.content, (remember c fh file.content, s))
  unfolding get_content client_get_content invoke_rpc
  get_content-at leader uncached =
      rw (uncached, rpc_get_content-at server c.session_id fh leader h, uncached) refl

  pub set_content-at :
      (content : Text)
      → AtOnce server
      → handle_inum e fh ≡ some file.instance_num
      → file.file_exists ≡ true
      → Known s file.subscribers
      → (t : State) × (set_content server fh content (c, s) ≡ (ok tt, (c, t)))
        × Notified (written_state s key file content) t
  unfolding set_content client_send invoke_rpc
  set_content-at content once at_inum there known =
      let (t, ran, n) =
        rpc_set_content-runs {s = s} server
          (record { session_id = c.session_id; fh = fh; content = content }) once h at_inum there
          known in
      (t, rw ran refl, n)

  -- The lock in the exclusive mode, with what it leaves behind.
  pub try_acquire-at :
      AtOnce server
      → handle_inum e fh ≡ some file.instance_num
      → file.file_exists ≡ true
      → ((file.lock_owners ≡ [])
          × (m : FileMetaData) × Taken true e.id file.meta m
          × (try_acquire server fh true (c, s)
              ≡ (ok true, (c, record s { ds = put s.ds key (record file { meta = m }) }))))
        ⊎ ((file.lock_owners ≢ []) × (try_acquire server fh true (c, s) ≡ (ok false, (c, s))))
  unfolding try_acquire
  try_acquire-at once at_inum there =
      let (answer, t, ran, outcome) =
        client_acquire_outcome {s = s} server c fh true once h at_inum in
      elim outcome [
        | inl (called, (_, _, free), m, taken, left) ↦
            inl (no_owners file.meta free, m, taken, rw (ran, called, left) refl)
        | inr (called, held, left) ↦
            inr ((λ none_left. held (refl, there, inl none_left)), rw (ran, called, left) refl)
      ]
