-- ===== src/Client/Calls.antt =====
-- clientlib.cpp: the calls of a client, with the cache of the contents that it has read. The answers
-- of the repeated call are an argument; `none` means that the call is still being repeated.
use distributed_systems_chub.Prelude.{
  Bool, Option, none, some, List, Text, ℤ, ℤ_eq, pos, insert, if◌then◌else◌, ◌==◌,
}
use distributed_systems_chub.Exec.{Result, ok, fault, aborted}
use distributed_systems_chub.Dict.{get, put, remove}
use distributed_systems_chub.Skinny.{Answer, done, refused}
use distributed_systems_chub.Skinny.Locks.{Response, LockAcqReq}
use distributed_systems_chub.Client.{true, Client, invoke_rpc}

-- What a call has come to: a result and what it leaves behind, or `none`.
abbrev pub Call : Type 0 → Type 0
Call A = Option (Result A × Client)

-- After `assert(status.ok())`.
unfoldable pub asserted :
    {A B : Type 0} → Client → (A → Result B × Client) → Option (Result (Answer A)) → Call B
asserted c after none = none
asserted c after (some (fault e)) = some (fault e, c)
asserted c after (some (ok (refused status))) = some (fault aborted, c)
asserted c after (some (ok (done a))) = some (after a)

-- Open, with a callback or without one
unfoldable pub client_open : List (Answer ℤ) → Bool → Client → Call ℤ
unfolding asserted
client_open answers with_callback c =
    asserted c
      (λ fh. (ok fh, if with_callback then record c { callbacks = insert fh c.callbacks } else c))
      (invoke_rpc answers)

unfoldable pub forget : Client → ℤ → Client
forget c fh = record c { cache = remove c.cache fh }

-- Close, whose status is passed over: the content is forgotten also if the call has failed.
unfoldable pub client_close : List (Answer (Unit {0})) → ℤ → Client → Call (Unit {0})
unfolding forget
client_close answers fh c = elim (invoke_rpc answers) [
  | none ↦ none
  | some (fault e) ↦ some (fault e, c)
  | some (ok _) ↦ some (ok tt, forget c fh)
]

-- The content in the cache, where the client has a connection.
unfoldable pub cached : Client → ℤ → Option Text
cached c fh = if c.has_conn then get c.cache fh else none

unfoldable pub remember : Client → ℤ → Text → Client
remember c fh content = record c { cache = put c.cache fh content }

-- With the content of the cache, or from the server.
unfoldable pub read : List (Answer Text) → ℤ → Client → Option Text → Call Text
unfolding asserted remember
read answers fh c (some content) = some (ok content, c)
read answers fh c none =
    asserted c (λ content. (ok content, remember c fh content)) (invoke_rpc answers)

-- GetContent
unfoldable pub client_get_content : List (Answer Text) → ℤ → Client → Call Text
unfolding read cached
client_get_content answers fh c = read answers fh c (cached c fh)

-- SetContent, which returns nothing
unfoldable pub client_send : {A : Type 0} → List (Answer A) → Client → Call (Unit {0})
unfolding asserted
client_send answers c = asserted c (λ a. (ok tt, c)) (invoke_rpc answers)

-- Release, whose response the server leaves empty
unfoldable pub client_release : List (Answer (Unit {0})) → Client → Call (Unit {0})
unfolding client_send
client_release answers c = client_send answers c

-- Delete, whose result is passed over
unfoldable pub client_delete : List (Answer ℤ) → Client → Call (Unit {0})
unfolding client_send
client_delete answers c = client_send answers c

-- The request of TryAcquire and of Acquire
unfoldable pub lock_request : Client → ℤ → Bool → LockAcqReq
lock_request c fh ex = record { session_id = c.session_id; fh = fh; ex = ex }

-- TryAcquire
unfoldable pub client_acquire : List (Answer Response) → Client → Call Bool
unfolding asserted
client_acquire answers c = asserted c (λ r. (ok (r.res == pos 0), c)) (invoke_rpc answers)

-- Acquire, which differs in what it calls
unfoldable pub client_wait_acquire : List (Answer Response) → Client → Call Bool
unfolding client_acquire
client_wait_acquire answers c = client_acquire answers c

-- The destructor: the session that it ends, where there is a connection, and the end of the loop of
-- keepalive calls.
unfoldable pub destroy : Client → Option ℤ × Client
destroy c = (if c.has_conn then some c.session_id else none, record c { cancelled = true })
