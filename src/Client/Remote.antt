-- ===== src/Client/Remote.antt =====
-- clientlib.cpp, class SkinnyClient over its implementation, with the handlers of SkinnyImpl.cpp at
-- the other end: a call of a client whose request a server answers once. No keepalive call is
-- answered meanwhile; Client/Conversation and Client/CacheView are about those.
use distributed_systems_chub.Prelude.{Bool, true, false, Option, none, some, List, [], ◌∷◌, Text, ℤ}
use distributed_systems_chub.Exec.{Exec, Result, ok, fault, waiting}
use distributed_systems_chub.StateMachine.State.{State}
use distributed_systems_chub.Skinny.{Server, Answer}
use distributed_systems_chub.Skinny.Files.{
  OpenReq, rpc_open, rpc_close, rpc_get_content, rpc_set_content, rpc_delete,
}
use distributed_systems_chub.Skinny.Locks.{rpc_try_acquire, rpc_acquire, rpc_release}
use distributed_systems_chub.Client.{Client}
use distributed_systems_chub.Client.Calls.{
  Call, client_open, client_close, cached, client_get_content, client_send, client_release,
  client_delete, client_acquire, client_wait_acquire, lock_request,
}

-- A run of a client and of the server that it calls.
abbrev pub Remote : Type 0 → Type 0
Remote A = Exec (Client × State) A

-- A call that is still to be repeated waits for another answer.
unfoldable pub settled : {A : Type 0} → Client → State → Call A → Result A × (Client × State)
settled c s none = (fault waiting, (c, s))
settled c s (some (r, c')) = (r, (c', s))

-- What the client makes of the answer; a handler that stops gives none.
unfoldable pub answered :
    {A B : Type 0}
    → Client
    → (List (Answer A) → Client → Call B)
    → Result (Answer A) × State
    → Result B × (Client × State)
unfolding settled
answered c finish (ok answer, s) = settled c s (finish (answer ∷ []) c)
answered c finish (fault e, s) = (fault e, (c, s))

unfoldable pub ask :
    {A B : Type 0}
    → (Client → Exec State (Answer A))
    → (List (Answer A) → Client → Call B)
    → Remote B
unfolding answered
ask handler finish (c, s) = answered c finish (handler c s)

-- The request of Open
unfoldable pub open_request : Client → Text → Bool → Bool → OpenReq
open_request c path is_directory is_ephemeral = record {
  session_id = c.session_id;
  path = path;
  is_directory = is_directory;
  is_ephemeral = is_ephemeral;
}

module _ (server : Server) where
  -- SkinnyClient::impl::Open
  unfoldable pub impl_open : Text → Bool → Bool → Bool → Remote ℤ
  unfolding ask open_request client_open
  impl_open path with_callback is_directory is_ephemeral =
      ask (λ c. rpc_open server (open_request c path is_directory is_ephemeral))
        (λ answers. client_open answers with_callback)

  -- Open
  unfoldable pub open_file : Text → Bool → Bool → Remote ℤ
  unfolding impl_open
  open_file path with_callback is_ephemeral = impl_open path with_callback false is_ephemeral

  -- OpenDir
  unfoldable pub open_dir : Text → Bool → Bool → Remote ℤ
  unfolding impl_open
  open_dir path with_callback is_ephemeral = impl_open path with_callback true is_ephemeral

  -- Close
  unfoldable pub close : ℤ → Remote (Unit {0})
  unfolding ask
  close fh =
      ask (λ c. rpc_close server (record { session_id = c.session_id; fh = fh }))
        (λ answers. client_close answers fh)

  -- The server is asked where the cache has no answer.
  unfoldable pub get_or_ask : ℤ → Option Text → Remote Text
  unfolding ask
  get_or_ask fh (some content) (c, s) = (ok content, (c, s))
  get_or_ask fh none (c, s) =
      ask (λ c. rpc_get_content server c.session_id fh) (λ answers. client_get_content answers fh)
        (c, s)

  -- GetContent
  unfoldable pub get_content : ℤ → Remote Text
  unfolding get_or_ask
  get_content fh (c, s) = get_or_ask fh (cached c fh) (c, s)

  -- SetContent
  unfoldable pub set_content : ℤ → Text → Remote (Unit {0})
  unfolding ask
  set_content fh content =
      ask
        (λ c.
          rpc_set_content server (record { session_id = c.session_id; fh = fh; content = content }))
        client_send

  -- TryAcquire
  unfoldable pub try_acquire : ℤ → Bool → Remote Bool
  unfolding ask
  try_acquire fh ex = ask (λ c. rpc_try_acquire server (lock_request c fh ex)) client_acquire

  -- Acquire
  unfoldable pub wait_acquire : ℤ → Bool → Remote Bool
  unfolding ask
  wait_acquire fh ex = ask (λ c. rpc_acquire server (lock_request c fh ex)) client_wait_acquire

  -- Release
  unfoldable pub release : ℤ → Remote (Unit {0})
  unfolding ask
  release fh =
      ask (λ c. rpc_release server (record { session_id = c.session_id; fh = fh })) client_release

  -- Delete
  unfoldable pub delete : ℤ → Remote (Unit {0})
  unfolding ask
  delete fh =
      ask (λ c. rpc_delete server (record { session_id = c.session_id; fh = fh })) client_delete
