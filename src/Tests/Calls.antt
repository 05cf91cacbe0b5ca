-- ===== src/Tests/Calls.antt =====
-- The theorems on the remote calls, with a log that applies an action at once.
use distributed_systems_chub.Prelude.{
  inl, [], ◌∷◌, ◌≡◌, refl, true, pos, codes, ℤ, ℤ_eq, text_eq, ℕ_eq, Option, none, ap, some, sym,
}
use distributed_systems_chub.Exec.{Result, ok, fault}
use distributed_systems_chub.Action.{end_session_return, EndSessionAction, Reply}
use distributed_systems_chub.Session.{start_kathread, start_kathreads, Entry, handle_inum}
use distributed_systems_chub.StateMachine.{apply}
use distributed_systems_chub.StateMachine.State.{State}
use distributed_systems_chub.Skinny.{Server, CmdResult, done}
use distributed_systems_chub.Skinny.Files.{rpc_set_content, rpc_get_content}
use distributed_systems_chub.Skinny.Locks.{LockAcqReq}
use distributed_systems_chub.Skinny.AtOnce.{AtOnce}
use distributed_systems_chub.Skinny.TryLock.{TryOutcome, try_acquire_outcome}
use distributed_systems_chub.Skinny.Events.{Enqueued, notify_all-events}
use distributed_systems_chub.Skinny.Sessions.{become_leader}
use distributed_systems_chub.Session.KaThread.{new_kathread}
use distributed_systems_chub.Skinny.WaitLock.{Waited, acquire_granted}
use distributed_systems_chub.Skinny.Locks.{rpc_acquire}
use distributed_systems_chub.Store.{FileMetaData}
use distributed_systems_chub.StateMachine.LockReplies.{Taken}
use distributed_systems_chub.Dict.{put}
use distributed_systems_chub.Skinny.Notified.{Known}
use distributed_systems_chub.Skinny.ReadBack.{set_then_get}
use distributed_systems_chub.Skinny.Sessions.{expired, rpc_end_session}
use distributed_systems_chub.Skinny.Expired.{expired-ends}
use distributed_systems_chub.StateMachine.Close.{add_changed, end_session}
use distributed_systems_chub.Tests.Scenario.{test_path, run_log}
use distributed_systems_chub.Tests.Sample.{second_entry, first_entry, test_file, shared_state}
use distributed_systems_chub.Tests.Files.{first-Handle, second-Handle, write_request}

unfoldable pub succeeded : Result Reply → Result CmdResult
succeeded (ok reply) = ok (record { accepted = true; result_code = pos 0; reply = reply })
succeeded (fault e) = fault e

abbrev pub direct : Server
direct = record {
  ok_code = pos 0;
  not_leader_code = pos 3;
  append_entries = λ a s. (succeeded (apply a s).0, (apply a s).1);
  is_leader = true;
  get_leader = pos 0;
  join = λ ws s. (ok tt, s);
  wake_ups = [];
  first_event_id = pos 0;
}

pub direct-AtOnce : AtOnce direct
unfolding succeeded
direct-AtOnce = record { applies = λ a s t reply h. rw h; quiet = λ ws s. refl }

abbrev try_request : LockAcqReq
try_request = record { session_id = pos 0; fh = pos 0; ex = true }

try_acquire_outcome_example :
    TryOutcome direct try_request shared_state first_entry test_path test_file (pos 0)
unfolding run_log
try_acquire_outcome_example = try_acquire_outcome direct try_request direct-AtOnce first-Handle refl

first_inum : Option Entry → Option ℤ
first_inum none = none
first_inum (some e) = handle_inum e (pos 0)

pub subscribers-Known : Known shared_state test_file.subscribers
unfolding run_log first_inum
subscribers-Known =
    (λ e h. (pos 0, ap first_inum (sym h)), (λ e h. (pos 0, ap first_inum (sym h)), tt))

set_then_get_example :
    (t : State) × (rpc_set_content direct write_request shared_state ≡ (ok (done tt), t))
    × (rpc_get_content direct (pos 1) (pos 0) t ≡ (ok (done (codes "abc")), t))
unfolding run_log
set_then_get_example =
    set_then_get direct write_request (pos 1) (pos 0) direct-AtOnce refl first-Handle refl refl
      subscribers-Known second-Handle

-- The two sessions on a leader, where they have threads.
abbrev with_thread : Entry → Entry
with_thread e = record e { kathread = some (new_kathread e.id (pos 0)) }

abbrev leading : State
leading = record shared_state {
  sdb = record {
    session_db = (pos 0, with_thread first_entry) ∷ (pos 1, with_thread second_entry) ∷ [];
    next_id = pos 2;
  };
}

leading_reached : become_leader direct shared_state ≡ leading
unfolding become_leader start_kathreads start_kathread
leading_reached = refl

leading-Known : Known leading test_file.subscribers
unfolding run_log first_inum
leading-Known = (λ e h. (pos 0, ap first_inum (sym h)), (λ e h. (pos 0, ap first_inum (sym h)), tt))

notify_all-events_example :
    Enqueued test_path (pos 1) leading (with_thread second_entry) test_file.subscribers
unfolding run_log
notify_all-events_example =
    notify_all-events test_path (pos 1) leading (with_thread second_entry) test_file
      test_file.subscribers refl leading-Known refl

waited :
    Waited direct try_request shared_state shared_state first_entry first_entry test_path test_file
unfolding run_log
waited = record {
  before = [];
  after = [];
  in_turn = refl;
  slept = (refl, refl);
  handle = first-Handle;
  same_instance = refl;
  exists = refl;
  free = inl refl;
}

acquire_granted_example :
    (m : FileMetaData) × Taken true (pos 0) test_file.meta m
    × (rpc_acquire direct try_request shared_state ≡ (
      ok (done (record { res = pos 0; msg = [] })),
      record shared_state { ds = put shared_state.ds test_path (record test_file { meta = m }) },
    ))
unfolding run_log
acquire_granted_example = acquire_granted direct try_request direct-AtOnce first-Handle waited

abbrev ends_first : EndSessionAction
ends_first = record { session_id = pos 0 }

expired-ends_example :
    (expired direct (pos 0) shared_state).1 ≡ (rpc_end_session direct ends_first shared_state).1
unfolding run_log add_changed
expired-ends_example =
    expired-ends direct (pos 0) shared_state (end_session ends_first shared_state).1
      (end_session_return (pos 18) []) direct-AtOnce refl refl
