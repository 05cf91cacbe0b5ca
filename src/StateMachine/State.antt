-- ===== src/StateMachine/State.antt =====
-- StateMachine.cpp: the state that a committed action changes, and the accesses to it.
use distributed_systems_chub.Prelude.{ℕ, Bool, Option, Text, text_eq, ℤ, codes, if◌then◌else◌}
use distributed_systems_chub.Exec.{
  Exec, out_of_range, aborted, some_or, pure, throw, ◌>>=◌, lift, gets, ok,
}
use distributed_systems_chub.Dict.{get, put}
use distributed_systems_chub.Store.{DataStore, File, touch}
use distributed_systems_chub.Session.{Db, Entry}
use distributed_systems_chub.Session

pub record State : Type 0 where
  pub ds : DataStore
  pub sdb : Db
  pub last_committed_idx : ℕ

abbrev pub ok_text : Text
ok_text = codes "OK"

-- What a method of the session that stands under `id` leaves behind.
unfoldable pub write_session : ℤ → Entry → Exec State (Unit {0})
write_session id e s = (ok tt, record s { sdb = Session.update_session s.sdb id e })

-- An option that `at` answers with, or its exception.
unfoldable pub at : {A : Type 0} → Option A → Exec State A
unfolding lift
at o = lift (some_or out_of_range o)

-- ds_->at(path)
unfoldable pub file_at : Text → Exec State File
file_at path s = (some_or out_of_range (get s.ds path), s)

-- What is written through the reference that `at` returned.
unfoldable pub write_file : Text → File → Exec State (Unit {0})
write_file path f s = (ok tt, record s { ds = put s.ds path f })

-- ds_->operator[](path)
unfoldable pub touch_file : Text → Exec State (Unit {0})
touch_file path s = (ok tt, record s { ds = touch s.ds path })

unfoldable pub assert : Bool → Exec State (Unit {0})
unfolding pure throw
assert b = if b then pure tt else throw aborted

-- ds_->contains(path), with the file
unfoldable pub find_file : Text → Exec State (Option File)
unfolding gets
find_file path = gets (λ s. get s.ds path)

-- sdb_->find_session(id), for an `int`. To open this is to open the other accesses too.
unfoldable pub find_session : ℤ → Exec State (Option Entry)
unfolding ◌>>=◌ write_session at file_at write_file touch_file assert find_file
find_session id = gets (λ s. Session.find_session s.sdb id)
