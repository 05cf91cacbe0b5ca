-- ===== src/StateMachine/Committing.antt =====
-- StateMachine.cpp, commit, over the code that codegen.cpp generates.
use distributed_systems_chub.Prelude.{ℕ, ◌≡◌, Text, refl}
use distributed_systems_chub.Exec.{lift, continue, Exec, Result, ok, fault, ◌>>=◌}
use distributed_systems_chub.Action.{Action, Reply, Codec}
use distributed_systems_chub.Codegen.Meaning.{BufferSerializer, IsSerializer}
use distributed_systems_chub.Codegen.Actions.{serialize_action, create_action}
use distributed_systems_chub.Codegen.Actions.Coding.{IsRanged, coding_outcome}
use distributed_systems_chub.StateMachine.{apply, commit}
use distributed_systems_chub.StateMachine.State.{State}

-- The codec's reader of actions is the generated one.
abbrev pub IsGenerated : BufferSerializer → Codec → Type 0
IsGenerated bs codec = (buf : Text) → codec.create_action_from_buf buf ≡ create_action bs buf

abbrev pub stored : ℕ → State → Result Text → Result Text × State
stored idx t (ok text) = (ok text, record t { last_committed_idx = idx })
stored idx t (fault e) = (fault e, t)

-- What is left to do for an action that was applied: the reply is serialised, and the index stored.
abbrev pub finished : Codec → ℕ → Result Reply × State → Result Text × State
finished codec idx (ok reply, t) = stored idx t (codec.serialize reply)
finished codec idx (fault e, t) = (fault e, t)

abbrev pub CommitOutcome : BufferSerializer → Codec → Action → ℕ → State → Type 0
CommitOutcome bs codec a idx s =
    (buf : Text) × (serialize_action bs a ≡ ok buf)
    × (commit codec idx buf s ≡ finished codec idx (apply a s))

abbrev store_text : ℕ → Text → Exec State Text
store_text idx text s = (ok text, record s { last_committed_idx = idx })

store_text_lem :
    (idx : ℕ) (r : Result Text) (t : State) → continue r (store_text idx) t ≡ stored idx t r
store_text_lem idx (ok text) t = refl
store_text_lem idx (fault e) t = refl

finish_lem :
    (codec : Codec) (idx : ℕ) (r : Result Reply) (t : State)
    → continue r (λ reply. lift (codec.serialize reply) >>= store_text idx) t
      ≡ finished codec idx (r, t)
unfolding ◌>>=◌
finish_lem codec idx (ok reply) t = store_text_lem idx (codec.serialize reply) t
finish_lem codec idx (fault e) t = refl

-- On the buffer that the generated code makes of an action, commit does what the action's handler
-- does: it answers with the serialised reply and stores the index, and if either fails it stops with
-- that fault in the state that the handler has left.
pub commit_outcome :
    (bs : BufferSerializer) (codec : Codec) (a : Action) (idx : ℕ) (s : State)
    → IsSerializer bs
    → IsGenerated bs codec
    → IsRanged a
    → CommitOutcome bs codec a idx s
unfolding commit ◌>>=◌
commit_outcome bs codec a idx s law generated ranged =
    let (buf, wrote, read) = coding_outcome bs a law ranged in
    (buf, wrote, rw (generated buf, read) (finish_lem codec idx (apply a s).0 (apply a s).1))
