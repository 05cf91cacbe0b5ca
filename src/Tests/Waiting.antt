-- ===== src/Tests/Waiting.antt =====
-- The theorems on a call that waits for a lock, where the first session has it.
use distributed_systems_chub.Prelude.{
  int_succ, ◌+◌, ◌≡◌, refl, true, false, inl, inr, [], ◌∷◌, ◌++◌, pos, ℤ_eq, text_eq, ℕ_eq,
  contains, arith,
}
use distributed_systems_chub.Exec.{ok}
use distributed_systems_chub.Dict.{put}
use distributed_systems_chub.Store.{File, FileMetaData}
use distributed_systems_chub.Action.{RelAction}
use distributed_systems_chub.StateMachine.State.{State}
use distributed_systems_chub.StateMachine.LockReplies.{Handle, IsFree}
use distributed_systems_chub.Skinny.{Server, done}
use distributed_systems_chub.Skinny.AtOnce.{AtOnce}
use distributed_systems_chub.Skinny.Locks.{LockAcqReq, rpc_acquire}
use distributed_systems_chub.Skinny.Handover.{OnlyOwner, releases, acquire-releases}
use distributed_systems_chub.Tests.Scenario.{test_path, run_log, two_sessions, locks}
use distributed_systems_chub.Tests.Sample.{first_entry, second_entry, test_file, shared_state}
use distributed_systems_chub.Tests.Calls.{direct, direct-AtOnce}

abbrev held_file : File
held_file = record test_file {
  meta = record test_file.meta {
    lock_owners = pos 0 ∷ [];
    is_locked_ex = true;
    lock_gen_num = pos 1;
  };
}

abbrev held_state : State
held_state = record shared_state { ds = put shared_state.ds test_path held_file }

held_state_reached : run_log (two_sessions ++ locks (pos 0) (pos 0) ∷ []) ≡ held_state
unfolding run_log
held_state_reached = refl

waiter-Handle : Handle held_state (pos 1) (pos 0) second_entry test_path held_file
unfolding run_log
waiter-Handle = record { live = refl; names = refl; holds = refl }

owner-Handle : Handle held_state (pos 0) (pos 0) first_entry test_path held_file
unfolding run_log
owner-Handle = record { live = refl; names = refl; holds = refl }

abbrev wait_request : LockAcqReq
wait_request = record { session_id = pos 1; fh = pos 0; ex = true }

abbrev owner_release : RelAction
owner_release = record { session_id = pos 0; fh = pos 0 }

held : ¬ IsFree true held_file.meta
held (inl e) = cc
held (inr (e, _)) = cc

-- The owner lets go while the call sleeps.
abbrev released_meanwhile : Server
released_meanwhile = record direct { wake_ups = releases direct owner_release ∷ [] }

released-AtOnce : AtOnce released_meanwhile
released-AtOnce = record { applies = direct-AtOnce.applies; quiet = direct-AtOnce.quiet }

first-OnlyOwner : OnlyOwner (pos 0) held_file.meta
unfolding contains ℤ_eq
first-OnlyOwner = record { owns = refl; alone = λ x h. ground arith }

acquire-releases_example :
    (m : FileMetaData) × OnlyOwner (pos 1) m
    × (m.is_locked_ex ≡ true)
    × (m.lock_gen_num ≡ int_succ (pos 1))
    × (m.cv ≡ 0 + 1)
    × (m.subscribers ≡ test_file.subscribers)
    × (m.file_exists ≡ true)
    × (m.instance_num ≡ pos 0)
    × (m.content_gen_num ≡ pos 0)
    × (m.is_directory ≡ false)
    × (m.is_ephemeral ≡ false)
    × (rpc_acquire released_meanwhile wait_request held_state ≡ (
      ok (done (record { res = pos 0; msg = [] })),
      record held_state { ds = put held_state.ds test_path (record held_file { meta = m }) },
    ))
unfolding run_log
acquire-releases_example =
    acquire-releases released_meanwhile direct wait_request owner_release [] released-AtOnce
      direct-AtOnce refl refl waiter-Handle refl held owner-Handle first-OnlyOwner
