-- ===== src/Client/Coherence.antt =====
-- clientlib.cpp: the cache and the events.
use distributed_systems_chub.Prelude.{
  ap, Bool-cases, inl, inr, ◌≡◌, ◌∙◌, none, some, true, List, ◌∷◌, [], Text, ℤ, ℤ_eq, arith, ◌==◌,
  if◌then◌else◌,
}
use distributed_systems_chub.Exec.{ok}
use distributed_systems_chub.Dict.{get, get-remove, get-put_self}
use distributed_systems_chub.Skinny.{Answer, done}
use distributed_systems_chub.Client.{Client, invoke_rpc}
use distributed_systems_chub.Client.Calls.{read, client_get_content, cached, remember, forget}
use distributed_systems_chub.Client.KeepAlive.{keep_alive, connected}

get_content-asks :
    (c : Client) (fh : ℤ) (content : Text) (answers : List (Answer Text))
    → cached c fh ≡ none
    → client_get_content (done content ∷ answers) fh c ≡ some (ok content, remember c fh content)
unfolding client_get_content invoke_rpc
get_content-asks c fh content answers h = ap (read (done content ∷ answers) fh c) h

get_content-cached :
    (c : Client) (fh : ℤ) (content : Text) (answers : List (Answer Text))
    → cached c fh ≡ some content
    → client_get_content answers fh c ≡ some (ok content, c)
unfolding client_get_content
get_content-cached c fh content answers h = ap (read answers fh c) h

cached-remember :
    (c : Client) (fh : ℤ) (content : Text)
    → c.has_conn ≡ true
    → cached (remember c fh content) fh ≡ some content
unfolding client_get_content
cached-remember c fh content on = rw on (get-put_self c.cache fh content)

pub connected-has_conn : (c : Client) → (connected c).has_conn ≡ true
unfolding keep_alive
connected-has_conn c = elim (Bool-cases c.has_conn) [ inl on ↦ rw on | inr off ↦ rw off ]

pub connected-cached : (c : Client) (k : ℤ) → get (connected c).cache k ≡ cached c k
unfolding keep_alive client_get_content get
connected-cached c k = elim (Bool-cases c.has_conn) [ inl on ↦ rw on | inr off ↦ rw off ]

pub cached-event :
    (c : Client) (fh k : ℤ)
    → cached (forget (connected c) fh) k ≡ (if fh == k then none else cached c k)
unfolding keep_alive client_get_content
cached-event c fh k =
    rw (connected-has_conn c) (get-remove (connected c).cache fh k)
    ∙ ap (λ o. if fh == k then none else o) (connected-cached c k)

cached-forgotten : (c : Client) (fh : ℤ) → cached (forget (connected c) fh) fh ≡ none
cached-forgotten c fh = ground (arith, cached-event c fh fh)

-- After an event for a handle has come, whatever the cache held: the client has a connection, no
-- content is cached for the handle, and for another handle only what was cached before if the
-- connection was never lost. The next read of the handle therefore returns what the server answers,
-- and a read after that returns the same without asking.
pub read_after_event :
    (c : Client) (eid fh : ℤ) (content : Text) (answers : List (Answer Text))
    → let c' = (keep_alive (done (some (eid, fh))) c).1 in
      ((k : ℤ) → cached c' k ≡ (if fh == k then none else cached c k))
      × (client_get_content (done content ∷ answers) fh c'
          ≡ some (ok content, remember c' fh content))
      × (client_get_content [] fh (remember c' fh content)
          ≡ some (ok content, remember c' fh content))
unfolding keep_alive
read_after_event c eid fh content answers = (
  cached-event c fh,
  get_content-asks (forget (connected c) fh) fh content answers (cached-forgotten c fh),
  get_content-cached _ fh content []
      (cached-remember (forget (connected c) fh) fh content (connected-has_conn c)),
)
