-- ===== src/Tests/Measured.antt =====
-- The theorem on what the nodes of a measurement count, at two sessions of which the second one has
-- the root open.
use distributed_systems_chub.Prelude.{
  ◌+◌, ◌≡◌, refl, sym, ap, true, false, none, some, Option, inr, [], ◌∷◌, codes, pos, ℤ, ℤ_eq,
  text_eq, ℕ_eq, Text,
}
use distributed_systems_chub.Exec.{ok}
use distributed_systems_chub.Store.{File}
use distributed_systems_chub.Session.{Entry, handle_inum}
use distributed_systems_chub.Server.{root_file}
use distributed_systems_chub.Action.{start_session_action}
use distributed_systems_chub.StateMachine.State.{State}
use distributed_systems_chub.StateMachine.LockReplies.{Handle}
use distributed_systems_chub.Skinny.Notified.{Known}
use distributed_systems_chub.Client.{Client}
use distributed_systems_chub.Client.Calls.{cached, remember}
use distributed_systems_chub.Client.Remote.{open_file, get_content}
use distributed_systems_chub.Perf.{file_count, wait_all}
use distributed_systems_chub.Perf.Counted.{open_file-counted}
use distributed_systems_chub.Tests.Scenario.{test_path, run_log, opens}
use distributed_systems_chub.Tests.Calls.{direct, direct-AtOnce}

abbrev watcher_entry : Entry
watcher_entry = record { id = pos 1; v = codes "/" ∷ []; inum = pos 0 ∷ []; kathread = none }

abbrev node_entry : Entry
node_entry = record { id = pos 0; v = []; inum = []; kathread = none }

abbrev watched_root : File
watched_root = record root_file {
  meta = record root_file.meta { subscribers = (pos 1, pos 0) ∷ [] };
}

abbrev watched : State
watched = record {
  ds = (codes "/", watched_root) ∷ [];
  sdb = record { session_db = (pos 0, node_entry) ∷ (pos 1, watcher_entry) ∷ []; next_id = pos 2 };
  last_committed_idx = 0;
}

watched_reached :
    run_log (start_session_action ∷ start_session_action ∷ opens (pos 1) (codes "/") ∷ []) ≡ watched
unfolding run_log
watched_reached = refl

abbrev of_session : ℤ → Client
of_session id = record {
  cur_srv_id = 0;
  callbacks = [];
  cache = [];
  session_id = id;
  has_conn = true;
  cancelled = false;
}

watcher-Handle : Handle watched (pos 1) (pos 0) watcher_entry (codes "/") watched_root
unfolding run_log
watcher-Handle = record { live = refl; names = refl; holds = refl }

watcher_inum : Option Entry → Option ℤ
watcher_inum none = none
watcher_inum (some e) = handle_inum e (pos 0)

watcher-Known : Known watched watched_root.subscribers
unfolding run_log watcher_inum
watcher-Known = ((λ e h. (pos 0, ap watcher_inum (sym h))), tt)

open_file-counted_example :
    (t : State) × (content : Text) × (open_file direct test_path false false
        (of_session (pos 0), watched)
      ≡ (ok (pos 0), (of_session (pos 0), t)))
    × (get_content direct (pos 0) (of_session (pos 1), t)
        ≡ (ok content, (remember (of_session (pos 1)) (pos 0) content, t)))
    × (file_count content ≡ file_count [] + 1)
unfolding run_log cached
open_file-counted_example =
    open_file-counted direct (of_session (pos 0)) (of_session (pos 1)) test_path (pos 0)
      direct-AtOnce refl refl (inr (refl, refl)) refl refl (λ e. cc) refl watcher-Handle refl
      watcher-Known refl

waited_for_three : wait_all 3 (1 ∷ 2 ∷ 3 ∷ []) ≡ some 2
unfolding wait_all ℕ_eq
waited_for_three = refl
