-- ===== src/Tests/Clients.antt =====
-- The theorems on the client library, at a client that is connected to the first server.
use distributed_systems_chub.Tests.Scenario.{test_path, run_log}
use distributed_systems_chub.Prelude.{
  List, int_succ, inl, arith, suc, zero, ◌≡◌, refl, none, some, true, false, pos, ℕ, ℤ, ℤ_eq, codes,
  [], ◌∷◌, ◌==◌, if◌then◌else◌,
}
use distributed_systems_chub.Exec.{ok}
use distributed_systems_chub.Skinny.{Server, Status, Answer, done, refused, unavailable}
use distributed_systems_chub.Skinny.Sessions.{rpc_keep_alive}
use distributed_systems_chub.Client.{Client}
use distributed_systems_chub.Client.Calls.{client_get_content, cached, remember}
use distributed_systems_chub.Session.KaThread.{enqueue_event, new_kathread}
use distributed_systems_chub.Client.Conversation.{Talk, converse}
use distributed_systems_chub.Client.Conversation.Reached.{EventReached, events_reach_client}
use distributed_systems_chub.Client.Locking.{LockOutcome, client_acquire_outcome}
use distributed_systems_chub.Tests.Files.{first-Handle}
use distributed_systems_chub.Client.CacheView.{
  sees, Change, event, answer, view, changes, cache_follows,
}
use distributed_systems_chub.Client.KeepAlive.{keep_alive, no_event}
use distributed_systems_chub.Client.Coherence.{read_after_event}
use distributed_systems_chub.Client.Retry.{RetryOutcome, invoke_rpc_outcome}
use distributed_systems_chub.Client.Start.{StartOutcome, start_session_or_die_outcome}
use distributed_systems_chub.Client.Leader.{moved, follow_leader}
use distributed_systems_chub.Tests.Sample.{test_file, first_entry, shared_state}
use distributed_systems_chub.Tests.Calls.{direct-AtOnce, direct}

abbrev reader : Client
reader = record {
  cur_srv_id = 0;
  callbacks = pos 0 ∷ [];
  cache = (pos 0, codes "old") ∷ (pos 1, codes "other") ∷ [];
  session_id = pos 0;
  has_conn = true;
  cancelled = false;
}

abbrev after_event : Client
after_event = (keep_alive (done (some (pos 7, pos 0))) reader).1

read_after_event_example :
    ((k : ℤ) → cached after_event k ≡ (if pos 0 == k then none else cached reader k))
    × (client_get_content (done (codes "new") ∷ []) (pos 0) after_event
        ≡ some (ok (codes "new"), remember after_event (pos 0) (codes "new")))
    × (client_get_content [] (pos 0) (remember after_event (pos 0) (codes "new"))
        ≡ some (ok (codes "new"), remember after_event (pos 0) (codes "new")))
read_after_event_example = read_after_event reader (pos 7) (pos 0) (codes "new") []

abbrev follower : Server
follower = record direct { is_leader = false; get_leader = pos 3 }

follow_leader_example :
    (status : Status) × (rpc_keep_alive follower (pos 0) none 1 shared_state
      ≡ (ok (some status), shared_state))
    × (keep_alive (refused status) reader ≡ (ok no_event, moved reader 3))
follow_leader_example =
    follow_leader follower (pos 0) none 1 shared_state reader 3 refl (inl (refl, omega arith))

abbrev lost_call : Status
lost_call = record { code = unavailable; message = [] }

invoke_rpc_outcome_example : RetryOutcome (refused lost_call ∷ done (pos 4) ∷ [])
invoke_rpc_outcome_example = invoke_rpc_outcome (refused lost_call ∷ done (pos 4) ∷ [])

abbrev second_leads : ℕ → Answer ℤ
second_leads (suc zero) = done (pos 9)
second_leads _ = refused lost_call

start_session_or_die_outcome_example : StartOutcome second_leads reader
start_session_or_die_outcome_example = start_session_or_die_outcome second_leads reader

abbrev two_events : Talk
two_events = record {
  thread = (enqueue_event (enqueue_event (new_kathread (pos 0) (pos 5)) (pos 0)).0 (pos 1)).0;
  client = reader;
  eid = none;
}

events_reach_client_example : EventReached (converse (1 ∷ 2 ∷ 3 ∷ []) two_events) (pos 6) (pos 1)
unfolding enqueue_event int_succ
events_reach_client_example =
    events_reach_client two_events (1 ∷ 2 ∷ 3 ∷ []) 1 (pos 6) (pos 1) refl refl refl refl

client_acquire_outcome_example :
    LockOutcome direct reader (pos 0) true shared_state first_entry test_path test_file (pos 0)
unfolding run_log
client_acquire_outcome_example =
    client_acquire_outcome direct reader (pos 0) true direct-AtOnce first-Handle refl

-- An answer that was on its way when the event came.
abbrev overtaken : List Change
overtaken = event (pos 7) (pos 0) ∷ answer (pos 0) (codes "old") ∷ []

cache_follows_example : view (pos 0) (changes overtaken reader) ≡ (true, some (codes "old"))
unfolding sees ℤ_eq
cache_follows_example = cache_follows (pos 0) overtaken reader
