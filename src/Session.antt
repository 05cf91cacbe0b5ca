-- ===== src/Session.antt =====
-- Session.cpp: the sessions and their handles. The keepalive thread of a session is in KaThread.
pub mod KaThread
use distributed_systems_chub.Prelude.{
  ℕ, ◌+◌, Bool, Option, none, some, List, [], ◌∷◌, ◌++◌, Text, ℤ, ℤ_eq, pos, minus_one, int_succ,
  length, at_int, set_int, map,
}
use distributed_systems_chub.Dict.{Dict, get, put, remove}
use KaThread.{new_kathread}

-- class Entry. `v` holds the path of each handle and `inum` the instance number that it was opened
-- at, or -1 once it is closed.
pub record Entry : Type 0 where
  pub id : ℤ
  pub v : List Text
  pub inum : List ℤ
  pub kathread : Option KaThread.KaThread

-- `event_id` of the new thread is not initialised by the source: its value is an argument.
unfoldable pub start_kathread : ℤ → Entry → Entry
start_kathread event_id e = record e { kathread = some (new_kathread e.id event_id) }

-- The handle is `v.size() - 1` after the push.
unfoldable pub add_new_handle : Entry → Text → ℤ → Entry × ℤ
add_new_handle e path instance_num =
    (record e { v = e.v ++ path ∷ []; inum = e.inum ++ instance_num ∷ [] }, pos (length e.v))

-- `none` is the std::out_of_range of `inum.at(fh)`.
unfoldable pub close_handle : Entry → ℤ → Option Entry
close_handle e fh = elim (at_int e.inum fh) [
  | none ↦ none
  | some _ ↦ some (record e { inum = set_int e.inum fh minus_one })
]

unfoldable pub handle_count : Entry → ℕ
handle_count e = length e.v

unfoldable pub handle_inum : Entry → ℤ → Option ℤ
handle_inum e fh = at_int e.inum fh

unfoldable pub fh_to_key : Entry → ℤ → Option Text
fh_to_key e fh = at_int e.v fh

-- `none` where the session has no keepalive thread.
unfoldable pub enqueue_event : Entry → ℤ → Entry × Option ℤ
enqueue_event e fh = elim e.kathread [
  | none ↦ (e, none)
  | some t ↦ (
    record e { kathread = some (KaThread.enqueue_event t fh).0 },
    some (KaThread.enqueue_event t fh).1,
  )
]

unfoldable pub set_reactor : Entry → ℕ → ℕ → ℤ → Entry
set_reactor e reactor res acked_eid = elim e.kathread [
  | none ↦ e
  | some t ↦ record e { kathread = some (KaThread.set_reactor t reactor res acked_eid) }
]

-- One test of the wait loop: `none` where the caller still waits.
unfoldable pub block_until_event_acked : Entry → ℤ → Option Entry
block_until_event_acked e eid = elim e.kathread [
  | none ↦ some e
  | some t ↦ elim (KaThread.block_until_event_acked t eid) [
    | none ↦ none
    | some t' ↦ some (record e { kathread = some t' })
  ]
]

-- class Db, with the counter `Entry::next_id`, which all entries share.
pub record Db : Type 0 where
  pub session_db : Dict ℤ Entry
  pub next_id : ℤ

-- The constructor of Entry takes the next number, which wraps around as std::atomic<int> does.
unfoldable pub create_session : Db → Db × Entry
create_session db =
    let e : Entry = record { id = db.next_id; v = []; inum = []; kathread = none } in
    (record { session_db = put db.session_db db.next_id e; next_id = int_succ db.next_id }, e)

unfoldable pub find_session : Db → ℤ → Option Entry
find_session db id = get db.session_db id

-- `none` is the failed assertion.
unfoldable pub delete_session : Db → ℤ → Option Db
delete_session db id = elim (get db.session_db id) [
  | none ↦ none
  | some _ ↦ some (record db { session_db = remove db.session_db id })
]

-- What a method of the entry `e`, which the database holds under `id`, leaves behind.
unfoldable pub update_session : Db → ℤ → Entry → Db
update_session db id e = record db { session_db = put db.session_db id e }

-- Db::start_kathread: every session gets a thread.
unfoldable pub start_kathreads : ℤ → Db → Db
start_kathreads event_id db = record db {
  session_db = map (λ (id, e). (id, start_kathread event_id e)) db.session_db;
}
