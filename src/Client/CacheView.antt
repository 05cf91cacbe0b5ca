-- ===== src/Client/CacheView.antt =====
-- The cache of clientlib.cpp under any order of events, answers and losses of the connection: the
-- threads of a client cache an answer, close a handle and hear from the server independently.
use distributed_systems_chub.Prelude.{
  ◌≡◌, ◌∙◌, refl, ap, arith, Bool, true, false, inl, inr, Option, none, some, List, [], ◌∷◌, Text,
  text_eq, ℤ, ℤ_eq, pos, negsuc, ◌==◌, if◌then◌else◌, Option-cases,
}
use distributed_systems_chub.Exec.{lift, ◌>>=◌}
use distributed_systems_chub.Decimal.{stoi}
use distributed_systems_chub.Dict.{get-put, get-remove}
use distributed_systems_chub.Skinny.{
  Status, StatusCode, done, refused, not_leader, cancelled, aborted, unavailable, lock_related,
  other_code,
}
use distributed_systems_chub.Client.{Client, change_server}
use distributed_systems_chub.Client.Calls.{cached, remember, forget, client_get_content}
use distributed_systems_chub.Client.Coherence.{connected-has_conn, connected-cached, cached-event}
use distributed_systems_chub.Client.KeepAlive.{
  keep_alive, connected, lost, follow, give_up, redirect, next_leader,
}

-- What changes the cache or the connection: a keepalive call that comes back with an event, without
-- one or with an error, the answer to a read, and the closing of a handle.
pub data Change : Type 0 where
  event : ℤ → ℤ → Change
  alive : Change
  failed : Status → Change
  answer : ℤ → Text → Change
  closed : ℤ → Change

unfoldable pub change : Change → Client → Client
unfolding keep_alive client_get_content forget
change (event eid fh) c = (keep_alive (done (some (eid, fh))) c).1
change alive c = (keep_alive (done none) c).1
change (failed status) c = (keep_alive (refused status) c).1
change (answer fh content) c = remember c fh content
change (closed fh) c = forget c fh

unfoldable pub changes : List Change → Client → Client
unfolding change
changes [] c = c
changes (d ∷ ds) c = changes ds (change d c)

-- The cache as a reader of one handle sees it: whether there is a connection, and a content.
abbrev pub View : Type 0
View = Bool × Option Text

abbrev pub view : ℤ → Client → View
view k c = (c.has_conn, cached c k)

-- A view of nothing without a connection.
abbrev pub only_if : Bool → Option Text → Option Text
only_if b o = if b then o else none

unfoldable pub see : ℤ → Change → View → View
see k (event eid fh) (on, o) = (true, if fh == k then none else o)
see k alive (on, o) = (true, o)
see k (failed status) (on, o) = (false, none)
see k (answer fh content) (on, o) = (on, if fh == k then only_if on (some content) else o)
see k (closed fh) (on, o) = (on, if fh == k then none else o)

unfoldable pub sees : ℤ → List Change → View → View
unfolding see
sees k [] v = v
sees k (d ∷ ds) v = sees k ds (see k d v)

redirect-offline :
    (next : ℤ) (c : Client) → c.has_conn ≡ false → (redirect next c).1.has_conn ≡ false
unfolding keep_alive redirect change_server ◌>>=◌
redirect-offline (pos n) c off = off
redirect-offline (negsuc n) c off = off

follow-offline :
    (message : Text) (next : ℤ) (c : Client)
    → c.has_conn ≡ false
    → (follow message next c).1.has_conn ≡ false
unfolding follow lift ◌>>=◌
follow-offline message next c off = elim (Option-cases (stoi message)) [
  | inl e ↦ rw (follow, e) off
  | inr (leader, e) ↦ rw (follow, e) (redirect-offline (next_leader next leader) c off)
]

give_up-offline :
    (status : Status) (next : ℤ) (c : Client)
    → c.has_conn ≡ false
    → (give_up status next c).1.has_conn ≡ false
unfolding give_up
give_up-offline status next c off = ground (arith, redirect-offline next c off)

lost-offline :
    (code : StatusCode) (status : Status) (next : ℤ) (c : Client)
    → c.has_conn ≡ false
    → (lost code status next c).1.has_conn ≡ false
unfolding keep_alive lost
lost-offline not_leader status next c off = follow-offline status.message next c off
lost-offline cancelled status next c off = give_up-offline status next c off
lost-offline aborted status next c off = give_up-offline status next c off
lost-offline unavailable status next c off = give_up-offline status next c off
lost-offline lock_related status next c off = give_up-offline status next c off
lost-offline (other_code i) status next c off = give_up-offline status next c off

refused-offline :
    (status : Status) (c : Client) → (keep_alive (refused status) c).1.has_conn ≡ false
unfolding keep_alive
refused-offline status c = lost-offline status.code status _ (record c { has_conn = false }) refl

offline-view : (k : ℤ) (c : Client) → c.has_conn ≡ false → view k c ≡ (false, none)
unfolding client_get_content
offline-view k c off = rw off

remember-view :
    (k fh : ℤ) (content : Text) (c : Client)
    → cached (remember c fh content) k
      ≡ (if fh == k then only_if c.has_conn (some content) else cached c k)
unfolding client_get_content
remember-view k fh content c = ground (arith, get-put c.cache fh k content)

forget-view :
    (k fh : ℤ) (c : Client) → cached (forget c fh) k ≡ (if fh == k then none else cached c k)
unfolding client_get_content forget
forget-view k fh c = ground (arith, get-remove c.cache fh k)

connected-online : (k : ℤ) (c : Client) → cached (connected c) k ≡ cached c k
unfolding client_get_content
connected-online k c = rw (connected-has_conn c) (connected-cached c k)

-- One change, as a reader of a handle sees it.
change-view : (k : ℤ) (d : Change) (c : Client) → view k (change d c) ≡ see k d (view k c)
unfolding change see
change-view k (event eid fh) c = λ i. (connected-has_conn c i, cached-event c fh k i)
change-view k alive c = λ i. (connected-has_conn c i, connected-online k c i)
change-view k (failed status) c =
    offline-view k (keep_alive (refused status) c).1 (refused-offline status c)
change-view k (answer fh content) c = ap (λ o. (c.has_conn, o)) (remember-view k fh content c)
change-view k (closed fh) c = ap (λ o. (c.has_conn, o)) (forget-view k fh c)

-- Under every order of the changes, a handle's cached content is the last answer that came while there
-- was a connection and since the handle's last event, its closing or the loss of the connection; where
-- nothing came since, it is what the cache held at first. An answer counts from when the client caches
-- it, not from when the server read the file.
pub cache_follows :
    (k : ℤ) (ds : List Change) (c : Client) → view k (changes ds c) ≡ sees k ds (view k c)
unfolding changes sees
cache_follows k [] c = refl
cache_follows k (d ∷ ds) c = cache_follows k ds (change d c) ∙ ap (sees k ds) (change-view k d c)
